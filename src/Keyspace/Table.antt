-- ===== src/Keyspace/Table.antt =====
-- The dictionaries of a database by what they stand for: lists of keys with their values. `insert`
-- puts a value in the place of the one that a key has.
use my_node_redis.Prelude.{
  ◌≡◌, Bool, Bool-cases, inl, inr, true, false, if◌then◌else◌, Option, none, some, List, [], ◌∷◌,
  refl, arith,
}
use my_node_redis.Prelude.Equality.{Eq, ◌=?◌, equal_refl, equal_sym, equal_trans}

abbrev pub is_some : {A : Type 0} → Option A → Bool
is_some none = false
is_some (some a) = true

module _ {K V : Type 0} ⦃e : Eq K⦄ where
  unfoldable pub find : K → List (K × V) → Option V
  find k [] = none
  find k ((j, v) ∷ t) = if k =? j then some v else find k t

  unfoldable pub insert : K → V → List (K × V) → List (K × V)
  insert k v [] = (k, v) ∷ []
  insert k v ((j, w) ∷ t) = if k =? j then (k, v) ∷ t else (j, w) ∷ insert k v t

  unfoldable pub remove : K → List (K × V) → List (K × V)
  remove k [] = []
  remove k ((j, v) ∷ t) = if k =? j then remove k t else (j, v) ∷ remove k t

  abbrev pub has : K → List (K × V) → Bool
  has k t = is_some (find k t)

  pub find-insert :
      (k j : K) (v : V) (t : List (K × V))
      → find j (insert k v t) ≡ (if k =? j then some v else find j t)
  unfolding find insert
  find-insert k j v [] = ground (arith, equal_sym j k)
  find-insert k j v ((i, w) ∷ t) = elim (Bool-cases (k =? i)) [
    | inl same ↦ rw same (ground (arith, equal_sym j k, equal_trans k i j same, equal_sym j i))
    | inr other ↦ rw other (
        ground (arith, equal_sym j k, equal_trans j i k, equal_sym i k, other, find-insert k j v t))
  ]

  pub find-remove :
      (k j : K) (t : List (K × V)) → find j (remove k t) ≡ (if k =? j then none else find j t)
  unfolding find remove
  find-remove k j [] = ground arith
  find-remove k j ((i, w) ∷ t) = elim (Bool-cases (k =? i)) [
    | inl same ↦ rw same (ground (arith, equal_trans k i j same, equal_sym j i, find-remove k j t))
    | inr other ↦
        rw other (
          ground (arith, equal_sym j k, equal_trans j i k, equal_sym i k, other, find-remove k j t))
  ]

  pub has-insert : (k : K) (v : V) (t : List (K × V)) → has k (insert k v t) ≡ true
  has-insert k v t = rw (find-insert k k v t, equal_refl k) refl
