-- ===== src/Dict/Add.antt =====
-- `dictAdd` and `dictReplace` against the map.
use my_node_redis.Prelude.{
  ℕ, ◌+◌, ◌^◌, ◌<◌, ◌≡◌, inl, inr, Bool-cases, Option-cases, if◌then◌else◌, Bool, true, false,
  Option, none, some, ◌∷◌, refl, arith, ap, ◌∙◌,
}
use my_node_redis.Dict.Chains.{DictType, Chain, push, chain_find}
use my_node_redis.Dict.Lookup.{count, first, to_nat, equal_refl, equal_sym, count-eq-zero}
use my_node_redis.Dict.{
  Table, Dict, index, chain_of, is_rehashing, dict_size, add, key_index, free_index, insert_entry,
  rehash_step, expand_if_needed,
}
use my_node_redis.Dict.Invariant.{IsValid, view}
use my_node_redis.Dict.Rehash.{Keeps, rehash_step-Keeps, Keeps-trans}
use my_node_redis.Dict.Find.{find_in-view}
use my_node_redis.Dict.Expand.{expand_if_needed-Prepared, Prepared, HasRoom}
use my_node_redis.Dict.Write.{Writes, Alike, write0-Writes, write1-Writes}

abbrev pub is_none {ℓ} : {V : Type ℓ} → Option V → Bool
is_none none = true
is_none (some v) = false

module _ {ℓ} {V : Type ℓ} where
  first-eq-none : (a b : Option V) → first a b ≡ none → (a ≡ none) × (b ≡ none)
  first-eq-none none b h = (refl, h)
  first-eq-none (some v) b h = cc

module _ {ℓ} {K V : Type ℓ} (type : DictType K) where
  -- a new entry at the head of its chain
  push-Alike :
      (t : Table K V) (k : K) (v : V) → Alike type t k ((k, v) ∷ chain_of type t k) (t.used + 1)
  unfolding count chain_find
  push-Alike t k v = record {
    few = λ q e. rw (equal_sym type q k, e) (omega arith);
    reads = λ q e. rw (equal_sym type q k, e);
    entries = omega arith;
  }

  find_new : (k : K) (v : V) (c : Chain K V) → chain_find type k ((k, v) ∷ c) ≡ some v
  unfolding chain_find
  find_new k v c = rw (equal_refl type k)

  count_new : (k : K) (v : V) (c : Chain K V) → count type k ((k, v) ∷ c) ≡ 1 + count type k c
  unfolding count
  count_new k v c = rw (equal_refl type k)

  module _ (d : Dict K V) (valid : IsValid type d) (k : K) (v : V) (absent : view type d k ≡ none)
      (room : HasRoom d) where
    absent_both :
        (chain_find type k (chain_of type d.ht0 k) ≡ none)
        × (chain_find type k (chain_of type d.ht1 k) ≡ none)
    unfolding view
    absent_both = first-eq-none _ _ absent

    insert_entry-Writes : Writes type d k (some v) (
        insert_entry type d
          (if is_rehashing d then index type d.ht1 k else index type d.ht0 k)
          (k, v))
    unfolding insert_entry push
    insert_entry-Writes =
        let (no0, no1) = absent_both in
        let zero0 = count-eq-zero type k (chain_of type d.ht0 k) no0 in
        let zero1 = count-eq-zero type k (chain_of type d.ht1 k) no1 in
        elim (Bool-cases (is_rehashing d)) [
          | inl on ↦ rw on (
              write1-Writes type d valid k ((k, v) ∷ chain_of type d.ht1 k) (d.ht1.used + 1)
                (some v) (push-Alike d.ht1 k v) on (rw on at room)
                (omega (arith, count_new k v (chain_of type d.ht1 k))) (rw (no0, find_new))
                (rw absent (omega arith)))
          | inr off ↦ rw off (
              write0-Writes type d valid k ((k, v) ∷ chain_of type d.ht0 k) (d.ht0.used + 1)
                (some v) (push-Alike d.ht0 k v) (rw off at room) (λ n e. cc)
                (omega (arith, count_new k v (chain_of type d.ht0 k))) (rw find_new)
                (rw absent (omega arith)))
        ]

  target : Dict K V → K → ℕ
  target d k = if is_rehashing d then index type d.ht1 k else index type d.ht0 k

  module _ (d : Dict K V) (valid : IsValid type d) (k : K) where
    free_index-absent : view type d k ≡ none → free_index type d k ≡ some (target d k)
    unfolding free_index target
    free_index-absent e = rw (find_in-view type d valid k ∙ e, free_index)

    free_index-present : (v : V) → view type d k ≡ some v → free_index type d k ≡ none
    unfolding free_index
    free_index-present v e = rw (find_in-view type d valid k ∙ e, free_index)

-- What `dictAdd` promises: an old value stays, a new key gets the value.
pub record AddsEntry {ℓ} {K V : Type ℓ} (type : DictType K) (d : Dict K V) (k : K) (v : V)
    (r : Dict K V × Bool) : Type ℓ where
  pub valid : IsValid type r.0
  pub status : r.1 ≡ is_none (view type d k)
  pub map :
      (q : K)
      → view type r.0 q ≡ (if type.equal k q then first (view type d k) (some v) else view type d q)
  pub entries : dict_size r.0 ≡ dict_size d + to_nat (is_none (view type d k))

module _ {ℓ} {K V : Type ℓ} (type : DictType K) (can_resize : Bool) (d : Dict K V)
    (valid : IsValid type d) (few : dict_size d < 2 ^ 62) (k : K) (v : V) where
  stepped : Keeps type d (rehash_step type d)
  stepped = rehash_step-Keeps type d valid

  expanded : Dict K V
  expanded = (expand_if_needed can_resize (rehash_step type d)).0

  prepared : Prepared type (rehash_step type d) (expand_if_needed can_resize (rehash_step type d))
  prepared =
      expand_if_needed-Prepared type (rehash_step type d) stepped.valid can_resize
        (omega (arith, stepped.entries))

  keeps : Keeps type d expanded
  unfolding expanded
  keeps = Keeps-trans type stepped prepared.keeps

  module _ (absent : view type d k ≡ none) where
    key_index-absent :
        key_index type can_resize (rehash_step type d) k ≡ (some (target type expanded k), expanded)
    unfolding key_index expanded
    key_index-absent =
        rw (prepared.succeeds, free_index-absent type expanded keeps.valid k (keeps.map k ∙ absent))

    add-absent :
        add type can_resize d k v
        ≡ (insert_entry type expanded (target type expanded k) (k, v), true)
    unfolding add
    add-absent =
        let e = key_index-absent in
        rw (ap {B = Option ℕ} (λ r. r.0) e, add, ap {B = Dict K V} (λ r. r.1) e)

    added :
        Writes type expanded k (some v) (insert_entry type expanded (target type expanded k) (k, v))
    unfolding target expanded
    added = insert_entry-Writes type expanded keeps.valid k v (keeps.map k ∙ absent) prepared.room

  module _ (old : V) (present : view type d k ≡ some old) where
    key_index-present : key_index type can_resize (rehash_step type d) k ≡ (none, expanded)
    unfolding key_index expanded
    key_index-present = rw (
      prepared.succeeds,
      free_index-present type expanded keeps.valid k old (keeps.map k ∙ present),
    )

    same_view :
        (q : K)
        → view type d q ≡ (if type.equal k q then first (view type d k) (some v) else view type d q)
    same_view q = elim (Bool-cases (type.equal k q)) [
      | inl e ↦ rw (e, present, ← (type.equal_iff k q).0 e) present
      | inr e ↦ rw e
    ]

    add-present : add type can_resize d k v ≡ (expanded, false)
    unfolding add
    add-present =
        let e = key_index-present in
        rw (ap {B = Option ℕ} (λ r. r.0) e, add, ap {B = Dict K V} (λ r. r.1) e)

  -- `dictAdd` on a valid dictionary of fewer than 2 ^ 62 entries leaves a valid one, answers
  -- whether the key is new, gives a new key its value and leaves the value of one that is there,
  -- changes no other key, and counts a new entry.
  pub add-AddsEntry : AddsEntry type d k v (add type can_resize d k v)
  add-AddsEntry = elim (Option-cases (view type d k)) [
    | inl absent ↦
        let w = added absent in
        rw (add-absent absent) (record {
          valid = w.valid;
          status = rw absent;
          map = λ q. w.map q ∙ rw (keeps.map q, absent);
          entries =
              rw absent (omega (arith, (rw (keeps.map k ∙ absent) at w.entries), keeps.entries));
        })
    | inr (old, present) ↦ rw (add-present old present) (record {
      valid = keeps.valid;
      status = rw present;
      map = λ q. keeps.map q ∙ same_view old present q;
      entries = keeps.entries ∙ rw present (omega arith);
    })
  ]
