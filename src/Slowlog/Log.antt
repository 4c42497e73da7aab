-- ===== src/Slowlog/Log.antt =====
-- The log of slow commands as a whole: its length, and the numbers of its entries.
use my_node_redis.Prelude.{
  ℕ, suc, zero, ◌+◌, ◌-◌, ◌≤◌, ◌<◌, ◌≡◌, ltb, Bool-cases, if◌then◌else◌, List, [], ◌∷◌, length,
  take, inl, inr, refl, arith, ap, sym, ◌∙◌,
}
use my_node_redis.Prelude.Int.{ℤ, pos, negsuc}
use my_node_redis.Slowlog.{
  Text, Argument, SlowlogEntry, Server, create_entry, delete_last, trim, is_slow, is_disabled, cut,
  add_head, push_entry_if_needed, sent_entries,
}

length-delete_last : (l : List SlowlogEntry) → length (delete_last l) ≡ length l - 1
length-delete_last [] = refl
length-delete_last (e ∷ []) = refl
length-delete_last (e ∷ f ∷ l) = omega (arith, length-delete_last (f ∷ l))

take-delete_last :
    (n : ℕ) (l : List SlowlogEntry) → n < length l → take n (delete_last l) ≡ take n l
take-delete_last n [] h = refl
take-delete_last zero (e ∷ []) h = refl
take-delete_last (suc n) (e ∷ []) h = absurd (omega arith)
take-delete_last zero (e ∷ f ∷ l) h = refl
take-delete_last (suc n) (e ∷ f ∷ l) h = ap (λ x. e ∷ x) (take-delete_last n (f ∷ l) (omega arith))

take-all : (n : ℕ) (l : List SlowlogEntry) → length l ≤ n → take n l ≡ l
take-all zero [] h = refl
take-all (suc n) [] h = refl
take-all zero (e ∷ l) h = absurd (omega arith)
take-all (suc n) (e ∷ l) h = ap (λ x. e ∷ x) (take-all n l (omega arith))

-- The loop that trims the log ends, with the first entries left.
pub trim-take :
    (fuel n : ℕ) (l : List SlowlogEntry) → length l ≤ n + fuel → trim fuel n l ≡ take n l
unfolding trim
trim-take zero n l h = sym (take-all n l (omega arith))
trim-take (suc fuel) n l h = elim (Bool-cases (ltb n (length l))) [
  | inl long ↦ rw long (
      trim-take fuel n (delete_last l) (ground (arith, length-delete_last l))
      ∙ take-delete_last n l (ground arith))
  | inr short ↦ rw short (sym (take-all n l (ground arith)))
]

-- the numbers of the entries fall, from below a bound
abbrev pub Falls : ℕ → List SlowlogEntry → Type 0
Falls n [] = Unit {0}
Falls n (e ∷ l) = (e.id < n) × Falls e.id l

-- Entries are numbered in order, and no number is used twice.
abbrev pub IsNumbered : Server → Type 0
IsNumbered s = Falls s.slowlog_entry_id s.slowlog

take-Falls : (k n : ℕ) (l : List SlowlogEntry) → Falls n l → Falls n (take k l)
take-Falls zero n l h = tt
take-Falls (suc k) n [] h = tt
take-Falls (suc k) n (e ∷ l) h = (h.0, take-Falls k e.id l h.1)

cut-slowlog : (s : Server) → (cut s).slowlog ≡ take s.slowlog_max_len s.slowlog
cut-slowlog s = trim-take (length s.slowlog) s.slowlog_max_len s.slowlog (omega arith)

cut-IsNumbered : (s : Server) → IsNumbered s → IsNumbered (cut s)
cut-IsNumbered s h =
    rw (cut-slowlog s) (take-Falls s.slowlog_max_len s.slowlog_entry_id s.slowlog h)

abbrev logged : (ℕ → Text) → ℕ → List Argument → ℤ → Server → Server
logged decimal now argv duration s =
    if is_slow s.slowlog_log_slower_than duration
    then add_head (create_entry decimal now argv duration s)
    else s

module _ (decimal : ℕ → Text) (now : ℕ) (argv : List Argument) (duration : ℤ) (s : Server) where
  logged-IsNumbered : IsNumbered s → IsNumbered (logged decimal now argv duration s)
  unfolding create_entry
  logged-IsNumbered h = elim (Bool-cases (is_slow s.slowlog_log_slower_than duration)) [
    | inl slow ↦ simp slow (omega arith, h)
    | inr fast ↦ simp fast h
  ]

  logged-slowlog :
      (cut (logged decimal now argv duration s)).slowlog
      ≡ take s.slowlog_max_len (
          if is_slow s.slowlog_log_slower_than duration
          then (create_entry decimal now argv duration s).0 ∷ s.slowlog
          else s.slowlog)
  unfolding create_entry
  logged-slowlog = elim (Bool-cases (is_slow s.slowlog_log_slower_than duration)) [
    | inl slow ↦ cut-slowlog (logged decimal now argv duration s) ∙ simp slow refl
    | inr fast ↦ cut-slowlog (logged decimal now argv duration s) ∙ simp fast refl
  ]

  -- `slowlogPushEntryIfNeeded` keeps the entries numbered in falling order below the next number. A
  -- log that is off stays as it is; else it has the newest entries, as many as its greatest length
  -- allows, with the new entry in front if the command was slow.
  pub push_entry_if_needed-IsNumbered :
      IsNumbered s
      → IsNumbered (push_entry_if_needed decimal now argv duration s)
        × ((push_entry_if_needed decimal now argv duration s).slowlog ≡ (
            if is_disabled s.slowlog_log_slower_than
            then s.slowlog
            else take s.slowlog_max_len (
                if is_slow s.slowlog_log_slower_than duration
                then (create_entry decimal now argv duration s).0 ∷ s.slowlog
                else s.slowlog)))
  unfolding push_entry_if_needed
  push_entry_if_needed-IsNumbered h = elim (Bool-cases (is_disabled s.slowlog_log_slower_than)) [
    | inl off ↦ simp off (h, refl)
    | inr on ↦
        simp on (
          cut-IsNumbered (logged decimal now argv duration s) (logged-IsNumbered h),
          logged-slowlog,
        )
  ]

-- What SLOWLOG GET shows: the newest entries, as many as asked for, and all for a negative number.
sent_entries-take :
    (count : ℤ) (l : List SlowlogEntry)
    → sent_entries count l ≡ (elim count [ pos n ↦ take n l | negsuc n ↦ l ])
unfolding sent_entries
sent_entries-take (pos zero) [] = refl
sent_entries-take (pos zero) (e ∷ l) = refl
sent_entries-take (pos (suc n)) [] = refl
sent_entries-take (pos (suc n)) (e ∷ l) = ap (λ x. e ∷ x) (sent_entries-take (pos n) l)
sent_entries-take (negsuc n) [] = refl
sent_entries-take (negsuc n) (e ∷ l) = ap (λ x. e ∷ x) (sent_entries-take (negsuc (suc n)) l)
