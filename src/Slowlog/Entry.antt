-- ===== src/Slowlog/Entry.antt =====
-- The arguments that an entry of the log keeps.
use my_node_redis.Prelude.{
  ℕ, suc, zero, ◌+◌, ◌-◌, ◌≤◌, ◌<◌, ◌≡◌, ltb, Bool-cases, true, if◌then◌else◌, List, [], ◌∷◌, ◌++◌,
  length, take, inl, inr, refl, arith,
}
use mathlib.Core.List.{map}
use my_node_redis.Prelude.Int.{ℤ}
use my_node_redis.Slowlog.{
  Text, Argument, Server, max_argc, more_arguments, trim_argument, entry_argv, create_entry,
}

module _ (decimal : ℕ → Text) where
  -- All arguments fit.
  entry_argv-all :
      (argc j : ℕ) (l : List Argument)
      → j + length l ≡ argc
      → entry_argv decimal argc argc j l ≡ map (trim_argument decimal) l
  unfolding entry_argv
  entry_argv-all argc j [] h = refl
  entry_argv-all argc j (a ∷ l) h = ground (arith, entry_argv-all argc (suc j) l)

  entry_argv-past :
      (argc slargc j : ℕ) (l : List Argument) → slargc ≤ j → entry_argv decimal argc slargc j l ≡ []
  unfolding entry_argv
  entry_argv-past argc slargc j [] h = refl
  entry_argv-past argc slargc j (a ∷ l) h = ground arith

  -- Those before the last slot are kept, and the last slot counts the others.
  entry_argv-most :
      (argc slargc k j : ℕ) (l : List Argument)
      → suc (j + k) ≡ slargc
      → slargc < argc
      → k < length l
      → entry_argv decimal argc slargc j l
        ≡ map (trim_argument decimal) (take k l)
          ++ record { raw = true; text = more_arguments decimal (argc - slargc + 1) } ∷ []
  unfolding entry_argv
  entry_argv-most argc slargc k j [] h most lt = absurd (omega arith)
  entry_argv-most argc slargc zero j (a ∷ l) h most lt =
      ground (arith, entry_argv-past argc slargc (suc j) l)
  entry_argv-most argc slargc (suc k) j (a ∷ l) h most lt =
      ground (arith, entry_argv-most argc slargc k (suc j) l)

  -- An entry of the slow log keeps all arguments of a command of up to 32, and of a longer one the
  -- first 31 and a note with the number of the others; each argument that it keeps is cut to its
  -- greatest length.
  pub create_entry-argv :
      (now : ℕ) (argv : List Argument) (duration : ℤ) (s : Server)
      → ((create_entry decimal now argv duration s).0).argv ≡ (
          if ltb max_argc (length argv)
          then map (trim_argument decimal) (take (max_argc - 1) argv)
            ++ record { raw = true; text = more_arguments decimal (length argv - max_argc + 1) }
              ∷ []
          else map (trim_argument decimal) argv)
  unfolding create_entry
  create_entry-argv now argv duration s = elim (Bool-cases (ltb max_argc (length argv))) [
    | inl most ↦
        rw most
          (entry_argv-most (length argv) max_argc 31 0 argv refl (ground arith) (ground arith))
    | inr all ↦ rw all (entry_argv-all (length argv) 0 argv (omega arith))
  ]
