-- ===== src/Registry/Counts.antt =====
-- How often a client is listed, after each change of a registry.
use my_node_redis.Prelude.{
  ℕ, ◌+◌, ◌-◌, ◌<◌, ◌≡◌, ◌≢◌, true, Bool-cases, if◌then◌else◌, Option, none, some, List, [], ◌∷◌,
  ◌++◌, inl, inr, refl, arith, ◌∙◌,
}
use my_node_redis.Prelude.Equality.{
  Eq, ◌=?◌, indicator, contains, erase, count, contains-count, count-append, count-erase, number_eq,
}
use my_node_redis.Registry.{Registry, clients_of, listed, unless_empty, assign, enter, leave}

clients-unless_empty : (l : List ℕ) → clients_of (unless_empty l) ≡ l
clients-unless_empty [] = refl
clients-unless_empty (c ∷ l) = refl

unless_empty-ne : (l : List ℕ) → unless_empty l ≢ some []
unless_empty-ne [] = λ h. cc
unless_empty-ne (c ∷ l) = λ h. cc

append-ne : (l : List ℕ) (c : ℕ) → some (l ++ c ∷ []) ≢ some []
append-ne [] c = λ h. cc
append-ne (d ∷ l) c = λ h. cc

module _ {ℓ} {W : Type ℓ} ⦃e : Eq W⦄ where
  -- No key has an empty list.
  abbrev pub IsTight : Registry W → Type ℓ
  IsTight r = (w : W) → r w ≢ some []

  -- how often `d` is listed under `v`
  abbrev pub times : Registry W → ℕ → W → ℕ
  times r d v = count d (listed r v)

  pub times-enter :
      (r : Registry W) (w v : W) (c d : ℕ)
      → times (enter r w c) d v ≡ times r d v + (if w =? v then indicator d c else 0)
  unfolding enter
  times-enter r w v c d = elim (Bool-cases (w =? v)) [
    | inr other ↦ rw other (omega arith)
    | inl same ↦
        rw (same, (e.equal_iff w v).0 same)
          (count-append d (listed r v) (c ∷ []) ∙ (unfold count in omega arith))
  ]

  pub enter-IsTight : (r : Registry W) (w : W) (c : ℕ) → IsTight r → IsTight (enter r w c)
  unfolding enter
  enter-IsTight r w c tight v = elim (Bool-cases (w =? v)) [
    | inr other ↦ rw other (tight v)
    | inl same ↦ rw same (append-ne (listed r w) c)
  ]

  -- A client that is listed can leave, and is listed once less.
  pub record Leaves (r : Registry W) (w : W) (c : ℕ) : Type ℓ where
    pub after : Registry W
    pub done : leave r w c ≡ some after
    pub counts :
        (d : ℕ) (v : W) → times after d v ≡ times r d v - (if w =? v then indicator c d else 0)
    pub tight : IsTight r → IsTight after

  leave-assigned :
      (r : Registry W) (w : W) (c : ℕ)
      → (o : Option (List ℕ)) → r w ≡ o
      → 0 < count c (clients_of o)
      → leave r w c ≡ some (assign r w (unless_empty (erase c (clients_of o))))
  unfolding leave count
  leave-assigned r w c none h some_times = absurd (omega arith)
  leave-assigned r w c (some l) h some_times =
      let here : contains c l ≡ true = contains-count c l ∙ ground arith in rw (h, leave, here)

  times-assigned :
      (r : Registry W) (w : W) (c d : ℕ) (v : W)
      → times (assign r w (unless_empty (erase c (listed r w)))) d v
        ≡ times r d v - (if w =? v then indicator c d else 0)
  unfolding assign
  times-assigned r w c d v = elim (Bool-cases (w =? v)) [
    | inr other ↦ rw other (omega arith)
    | inl same ↦
        rw (same, (e.equal_iff w v).0 same, clients-unless_empty (erase c (listed r v)))
          (count-erase c d (listed r v))
  ]

  assigned-IsTight :
      (r : Registry W) (w : W) (c : ℕ)
      → IsTight r
      → IsTight (assign r w (unless_empty (erase c (listed r w))))
  unfolding assign
  assigned-IsTight r w c tight v = elim (Bool-cases (w =? v)) [
    | inr other ↦ rw other (tight v)
    | inl same ↦ rw same (unless_empty-ne (erase c (listed r w)))
  ]

  pub leave-Leaves : (r : Registry W) (w : W) (c : ℕ) → 0 < times r c w → Leaves r w c
  leave-Leaves r w c h = record {
    after = assign r w (unless_empty (erase c (listed r w)));
    done = leave-assigned r w c (r w) refl h;
    counts = times-assigned r w c;
    tight = assigned-IsTight r w c;
  }
