-- ===== src/Registry/Agreement.antt =====
-- A registry and the lists that the clients keep of their own keys: when they agree.
use my_node_redis.Prelude.{
  ℕ, ◌-◌, ◌≤◌, ◌≡◌, ◌==◌, ==_iff, Bool-cases, true, false, if◌then◌else◌, some, List, [], ◌∷◌, ◌++◌,
  inl, inr, arith, ap, sym,
}
use my_node_redis.Prelude.Equality.{
  Eq, ◌=?◌, contains, erase, count, contains-count, count-append, count-erase, equal_refl,
  equal_sym, number_eq,
}
use my_node_redis.Registry.{Registry, leave, enter}
use my_node_redis.Registry.Counts.{IsTight, times, times-enter, enter-IsTight, leave-Leaves}

-- the lists of all clients, with one of them changed
abbrev pub update {ℓ} : {A : Type ℓ} → (ℕ → A) → ℕ → A → ℕ → A
update own c l d = if c == d then l else own d

module _ {ℓ} {W : Type ℓ} ⦃e : Eq W⦄ where
  -- A client is listed under a key exactly when it has the key in its own list, and once; no key has
  -- an empty list.
  pub record Agreement (r : Registry W) (own : ℕ → List W) : Type ℓ where
    pub agree : (c : ℕ) (w : W) → times r c w ≡ count w (own c)
    pub once : (c : ℕ) (w : W) → count w (own c) ≤ 1
    pub tight : IsTight r

  module _ (own : ℕ → List W) (c : ℕ) (w : W) (once : (d : ℕ) (v : W) → count v (own d) ≤ 1) where
    pub append-Once :
        contains w (own c) ≡ false
        → (d : ℕ) (v : W) → count v (update own c (own c ++ w ∷ []) d) ≤ 1
    unfolding count
    append-Once new d v = elim (Bool-cases (c == d)) [
      | inr other ↦ rw other (once d v)
      | inl same ↦
          rw (same, count-append v (own c) (w ∷ []), equal_sym v w)
            (elim (Bool-cases (w =? v)) [
              | inl here ↦
                  let none_yet : count w (own c) ≡ 0 = ground (arith, contains-count w (own c)) in
                  rw (here, ← (e.equal_iff w v).0 here, none_yet) (omega arith)
              | inr elsewhere ↦ rw elsewhere (omega (arith, once c v))
            ])
    ]

    pub erase-Once : (d : ℕ) (v : W) → count v (update own c (erase w (own c)) d) ≤ 1
    erase-Once d v = elim (Bool-cases (c == d)) [
      | inl same ↦ rw (same, count-erase w v (own c)) (ground (arith, once c v))
      | inr other ↦ rw other (once d v)
    ]

  pub Agreement-own :
      (r : Registry W) (own own' : ℕ → List W)
      → ((c : ℕ) → own' c ≡ own c)
      → Agreement r own
      → Agreement r own'
  Agreement-own r own own' same a = record {
    agree = λ c w. rw (same c) (a.agree c w);
    once = λ c w. rw (same c) (a.once c w);
    tight = a.tight;
  }

  module _ (r : Registry W) (own : ℕ → List W) (a : Agreement r own) (c : ℕ) (w : W) where
    entered-agree :
        (d : ℕ) (v : W) → times (enter r w c) d v ≡ count v (update own c (own c ++ w ∷ []) d)
    unfolding count
    entered-agree d v = elim (Bool-cases (c == d)) [
      | inl same ↦
          rw
            (
              same,
              ap (λ k. times (enter r w c) k v) (sym ((==_iff _ _).0 same)),
              times-enter r w v c c,
              count-append v (own c) (w ∷ []),
              equal_refl c,
              equal_sym v w,
            )
            (omega (arith, a.agree c v))
      | inr other ↦
          rw (other, times-enter r w v c d, equal_sym d c, other) (ground (arith, a.agree d v))
    ]

    -- A client takes a key that it does not have.
    pub enter-Agreement :
        contains w (own c) ≡ false → Agreement (enter r w c) (update own c (own c ++ w ∷ []))
    enter-Agreement new = record {
      agree = entered-agree;
      once = append-Once own c w a.once new;
      tight = enter-IsTight r w c a.tight;
    }

    -- A client gives up a key that it has.
    pub record GivesUp : Type ℓ where
      pub after : Registry W
      pub done : leave r w c ≡ some after
      pub agreement : Agreement after (update own c (erase w (own c)))

    pub leave-GivesUp : contains w (own c) ≡ true → GivesUp
    leave-GivesUp has =
        let l = leave-Leaves r w c (ground (arith, has, contains-count w (own c), a.agree c w)) in
        record {
          after = l.after;
          done = l.done;
          agreement = record {
            agree = λ d v. elim (Bool-cases (c == d)) [
              | inl same ↦
                  rw
                    (
                      same,
                      ap (λ k. times l.after k v) (sym ((==_iff _ _).0 same)),
                      l.counts c v,
                      count-erase w v (own c),
                      equal_refl c,
                    )
                    (ap (λ n. n - (if w =? v then 1 else 0)) (a.agree c v))
              | inr other ↦ rw (other, l.counts d v, other) (ground (arith, a.agree d v))
            ];
            once = erase-Once own c w a.once;
            tight = l.tight a.tight;
          };
        }
