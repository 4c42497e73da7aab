-- ===== src/Dict/Replace.antt =====
-- `dictReplace` against the map.
use my_node_redis.Prelude.{
  ℕ, ◌+◌, ◌^◌, ◌≤◌, ◌<◌, ◌≡◌, inl, inr, Bool-cases, Option-cases, if◌then◌else◌, Bool, true, false,
  none, some, arith, sym, ap, ◌∙◌, dec_lt, ℕ_discrete,
}
use my_node_redis.Dict.Chains.{DictType, Chain, chain_find, assign}
use my_node_redis.Dict.Lookup.{to_nat, equal_refl, find-assign, count-assign, length-assign}
use my_node_redis.Dict.{
  Table, Dict, index, chain_of, is_rehashing, dict_size, find, add, replace, set_val,
}
use my_node_redis.Dict.Invariant.{IsValid, view}
use my_node_redis.Dict.Rehash.{rehashing_at}
use my_node_redis.Dict.Find.{find-view, idle_none}
use my_node_redis.Dict.Write.{Writes, Alike, found, write0-Writes, write1-Writes}
use my_node_redis.Dict.Add.{AddsEntry, is_none, add-AddsEntry}

module _ {ℓ} {K V : Type ℓ} (type : DictType K) where
  assign-Alike :
      (t : Table K V) (k : K) (v old : V)
      → chain_find type k (chain_of type t k) ≡ some old
      → Alike type t k (assign type k v (chain_of type t k)) t.used
  assign-Alike t k v old h = record {
    few = λ q e. rw count-assign (omega arith);
    reads = λ q e. rw (find-assign type k q v (chain_of type t k) old h, e);
    entries = rw length-assign;
  }

  found_self :
      (k : K) (v old : V) (c : Chain K V)
      → chain_find type k c ≡ some old
      → chain_find type k (assign type k v c) ≡ some v
  found_self k v old c h = rw (find-assign type k k v c old h, equal_refl type k)

  module _ (d : Dict K V) (valid : IsValid type d) (k : K) where
    -- A table in which the key was found has buckets, and its bucket has not been moved.
    pub found_room0 : (v : V) → chain_find type k (chain_of type d.ht0 k) ≡ some v → 0 < d.ht0.size
    unfolding chain_find
    found_room0 v h = elim (ℕ_discrete d.ht0.size 0) [
      | no ne ↦ omega arith
      | yes e ↦ cc (
          (ap (chain_find type k) (sym (valid.table0.outside (index type d.ht0 k) (omega arith))))
          ∙ h)
    ]

    pub found_unmoved :
        (v : V)
        → chain_find type k (chain_of type d.ht0 k) ≡ some v
        → (n : ℕ) → d.rehashidx ≡ some n
        → n ≤ index type d.ht0 k
    unfolding chain_find
    found_unmoved v h n e = elim (dec_lt (index type d.ht0 k) n) [
      | no ge ↦ omega arith
      | yes lt ↦
          cc ((ap (chain_find type k) (sym ((valid.moving n e).3 (index type d.ht0 k) lt))) ∙ h)
    ]

    pub found_rehashing :
        (v : V) → chain_find type k (chain_of type d.ht1 k) ≡ some v → is_rehashing d ≡ true
    unfolding chain_find
    found_rehashing v h = elim (Bool-cases (is_rehashing d)) [
      | inl on ↦ on
      | inr off ↦ cc (
          (ap (chain_find type k)
            (sym (valid.idle (idle_none d.rehashidx off) (index type d.ht1 k))))
          ∙ h)
    ]

    pub view_here :
        (old : V) → chain_find type k (chain_of type d.ht0 k) ≡ some old → view type d k ≡ some old
    unfolding view
    view_here old h = rw h

    pub view_there :
        chain_find type k (chain_of type d.ht0 k) ≡ none
        → view type d k ≡ chain_find type k (chain_of type d.ht1 k)
    unfolding view
    view_there h = rw h

    set_val-Writes :
        (v old : V) → view type d k ≡ some old → Writes type d k (some v) (set_val type d k v)
    unfolding set_val
    set_val-Writes v old present = elim (Option-cases (chain_find type k (chain_of type d.ht0 k))) [
      | inr (x, here) ↦
          rw (here, set_val)
            (write0-Writes type d valid k (assign type k v (chain_of type d.ht0 k)) d.ht0.used
              (some v) (assign-Alike d.ht0 k v x here) (found_room0 x here) (found_unmoved x here)
              (rw count-assign (valid.once k)) (rw (found_self k v x _ here)) (rw present))
      | inl gone ↦
          let there = sym (view_there gone) ∙ present in
          let on = found_rehashing old there in
          rw (gone, set_val)
            (write1-Writes type d valid k (assign type k v (chain_of type d.ht1 k)) d.ht1.used
              (some v) (assign-Alike d.ht1 k v old there) on
              (valid.moving _ (rehashing_at d.rehashidx on)).0 (rw count-assign (valid.once k))
              (rw (gone, found_self k v old _ there)) (rw present))
    ]

-- What `dictReplace` promises: the key has the value afterwards, whether it was there or not.
pub record Replaces {ℓ} {K V : Type ℓ} (type : DictType K) (d : Dict K V) (k : K) (v : V)
    (r : Dict K V × Bool) : Type ℓ where
  pub valid : IsValid type r.0
  pub status : r.1 ≡ is_none (view type d k)
  pub map : (q : K) → view type r.0 q ≡ (if type.equal k q then some v else view type d q)
  pub entries : dict_size r.0 ≡ dict_size d + to_nat (is_none (view type d k))

module _ {ℓ} {K V : Type ℓ} (type : DictType K) (can_resize : Bool) (d : Dict K V)
    (valid : IsValid type d) (few : dict_size d < 2 ^ 62) (k : K) (v : V) where
  overwritten :
      (r : Dict K V × Bool) (old : V)
      → view type d k ≡ some old
      → AddsEntry type d k v r
      → Replaces type d k v (set_val type (find type r.0 k).1 k v, false)
  overwritten r old present a =
      let d1 : Dict K V = r.0 in
      let f = (find-view type d1 k a.valid).1 in
      let kept : view type d1 k ≡ some old = a.map k ∙ rw (equal_refl type k, present) in
      let w = set_val-Writes type (find type d1 k).1 f.valid k v old (f.map k ∙ kept) in
      record {
        valid = w.valid;
        status = rw present;
        map = λ q. w.map q ∙ elim (Bool-cases (type.equal k q)) [
          | inl e ↦ rw e
          | inr e ↦ rw e (f.map q ∙ a.map q ∙ rw e)
        ];
        entries = rw present (
            omega (
              arith,
              w.entries,
              ap found (f.map k ∙ kept),
              f.entries,
              a.entries,
              ap (λ o. to_nat (is_none o)) present,
            ));
      }

  -- `dictReplace` on a valid dictionary of fewer than 2 ^ 62 entries leaves a valid one, sets the
  -- value of the key, answers whether the key is new, changes no other key, and counts a new entry.
  pub replace_lem : Replaces type d k v (replace type can_resize d k v)
  unfolding replace
  replace_lem =
      let a = add-AddsEntry type can_resize d valid few k v in
      elim (Option-cases (view type d k)) [
        | inl absent ↦
            let new : (add type can_resize d k v).1 ≡ true = a.status ∙ rw absent in
            rw new (record {
              valid = a.valid;
              status = rw absent;
              map = λ q. a.map q ∙ rw absent;
              entries = a.entries;
            })
        | inr (old, present) ↦
            let same : (add type can_resize d k v).1 ≡ false = a.status ∙ rw present in
            rw same (overwritten (add type can_resize d k v) old present a)
      ]
