-- ===== src/Dict/Delete.antt =====
-- `dictDelete` against the map.
use my_node_redis.Prelude.{
  ◌+◌, ◌-◌, ◌≤◌, ◌<◌, ◌≡◌, inl, inr, ◌==◌, ==_iff, Bool-cases, Option-cases, if◌then◌else◌, Bool,
  true, false, none, some, [], arith, ap, ◌∙◌, not, ℕ_discrete,
}
use my_node_redis.Dict.Chains.{DictType, Chain, chain_find, erase}
use my_node_redis.Dict.Lookup.{
  count, equal_refl, find-eq-none, find-erase, count-erase-le, length-erase, count_pos,
  total-update,
}
use my_node_redis.Dict.{
  Table, Dict, index, chain_of, is_rehashing, dict_size, delete, delete_in, without, rehash_step,
}
use my_node_redis.Dict.Invariant.{IsTable, IsValid, view, index-lt}
use my_node_redis.Dict.Rehash.{rehashing_at, rehash_step-Keeps}
use my_node_redis.Dict.Find.{view_no_table}
use my_node_redis.Dict.Write.{Writes, Alike, found, write0-Writes, write1-Writes}
use my_node_redis.Dict.Add.{is_none}
use my_node_redis.Dict.Replace.{found_room0, found_unmoved, found_rehashing, view_here, view_there}

-- What `dictDelete` promises.
pub record Deletes {ℓ} {K V : Type ℓ} (type : DictType K) (d : Dict K V) (k : K)
    (r : Dict K V × Bool) : Type ℓ where
  pub valid : IsValid type r.0
  pub status : r.1 ≡ not (is_none (view type d k))
  pub map : (q : K) → view type r.0 q ≡ (if type.equal k q then none else view type d q)
  pub entries : dict_size r.0 + found (view type d k) ≡ dict_size d

module _ {ℓ} {K V : Type ℓ} (type : DictType K) where
  erase-Alike :
      (t : Table K V) (k : K) (old : V)
      → ((q : K) → count type q (chain_of type t k) ≤ 1)
      → chain_find type k (chain_of type t k) ≡ some old
      → 0 < t.used
      → Alike type t k (erase type k (chain_of type t k)) (t.used - 1)
  erase-Alike t k old once h pos = record {
    few = λ q e. count-erase-le type k q (chain_of type t k);
    reads = λ q e. rw (find-erase type k q (chain_of type t k) (once q), e);
    entries = omega (arith, length-erase type k (chain_of type t k) old h);
  }

  -- A bucket holds no key twice, and no more entries than the table counts.
  once_in :
      (t : Table K V) (k : K)
      → IsTable type t
      → ((q : K) → count type q (chain_of type t q) ≤ 1)
      → (q : K) → count type q (chain_of type t k) ≤ 1
  once_in t k ok once q = elim (ℕ_discrete (index type t q) (index type t k)) [
    | yes p ↦ omega (arith, ap (λ i. count type q (t.slots i)) p, once q)
    | no p ↦ omega (arith, ok.home q (index type t k) p)
  ]

  used_pos :
      (t : Table K V) (k : K) (old : V)
      → IsTable type t
      → 0 < t.size
      → chain_find type k (chain_of type t k) ≡ some old
      → 0 < t.used
  used_pos t k old ok room h = omega (
    arith,
    ok.used,
    total-update t.size (index type t k) t.slots [] (index-lt type t k ok.mask room),
    length-erase type k (chain_of type t k) old h,
  )

  erased_self :
      (k : K) (c : Chain K V) → count type k c ≤ 1 → chain_find type k (erase type k c) ≡ none
  erased_self k c once = rw (find-erase type k k c once, equal_refl type k)

  module _ (d : Dict K V) (valid : IsValid type d) (k : K) where
    without0-Writes :
        (old : V)
        → chain_find type k (chain_of type d.ht0 k) ≡ some old
        → Writes type d k none (record d { ht0 = without type d.ht0 k })
    without0-Writes old here =
        let c = chain_of type d.ht0 k in
        let room = found_room0 type d valid k old here in
        let pos = used_pos d.ht0 k old valid.table0 room here in
        let once = once_in d.ht0 k valid.table0 (λ q. omega (arith, valid.once q)) in
        let elsewhere =
          find-eq-none type k (chain_of type d.ht1 k)
            (omega (arith, valid.once k, count_pos type k c old here)) in
        write0-Writes type d valid k (erase type k c) (d.ht0.used - 1) none
          (erase-Alike d.ht0 k old once here pos) room (found_unmoved type d valid k old here)
          (omega (arith, count-erase-le type k k c, valid.once k))
          (rw (erased_self k c (once k), elsewhere))
          (rw (view_here type d valid k old here) (omega arith))

    without1-Writes :
        (old : V)
        → chain_find type k (chain_of type d.ht0 k) ≡ none
        → chain_find type k (chain_of type d.ht1 k) ≡ some old
        → Writes type d k none (record d { ht1 = without type d.ht1 k })
    without1-Writes old gone there =
        let c = chain_of type d.ht1 k in
        let on = found_rehashing type d valid k old there in
        let room = (valid.moving _ (rehashing_at d.rehashidx on)).0 in
        let pos = used_pos d.ht1 k old valid.table1 room there in
        let once = once_in d.ht1 k valid.table1 (λ q. omega (arith, valid.once q)) in
        write1-Writes type d valid k (erase type k c) (d.ht1.used - 1) none
          (erase-Alike d.ht1 k old once there pos) on room
          (omega (arith, count-erase-le type k k c, valid.once k))
          (rw (gone, erased_self k c (once k)))
          (rw (view_there type d valid k gone, there) (omega arith))

    written-Deletes :
        (d' : Dict K V) (old : V)
        → view type d k ≡ some old
        → Writes type d k none d'
        → Deletes type d k (d', true)
    written-Deletes d' old present w = record {
      valid = w.valid;
      status = rw present;
      map = w.map;
      entries = omega (arith, w.entries);
    }

    absent-Deletes : view type d k ≡ none → Deletes type d k (d, false)
    absent-Deletes absent = record {
      valid = valid;
      status = rw absent;
      map = λ q. elim (Bool-cases (type.equal k q)) [
        | inl e ↦ rw (e, ← (type.equal_iff k q).0 e) absent
        | inr e ↦ rw e
      ];
      entries = rw absent (omega arith);
    }

    delete_in-Deletes : Deletes type d k (delete_in type d k)
    unfolding delete_in
    delete_in-Deletes = elim (Option-cases (chain_find type k (chain_of type d.ht0 k))) [
      | inr (old, here) ↦
          rw (here, delete_in)
            (written-Deletes _ old (view_here type d valid k old here) (without0-Writes old here))
      | inl gone ↦ elim (Option-cases (chain_find type k (chain_of type d.ht1 k))) [
        | inr (old, there) ↦
            rw (gone, delete_in, found_rehashing type d valid k old there, there)
              (written-Deletes _ old (view_there type d valid k gone ∙ there)
                (without1-Writes old gone there))
        | inl nowhere ↦ elim (Bool-cases (is_rehashing d)) [
          | inl on ↦
              rw (gone, delete_in, on, nowhere)
                (absent-Deletes (view_there type d valid k gone ∙ nowhere))
          | inr off ↦
              rw (gone, delete_in, off) (absent-Deletes (view_there type d valid k gone ∙ nowhere))
        ]
      ]
    ]

  -- `dictDelete` on a valid dictionary leaves a valid one without the key, answers whether it was
  -- there, changes no other key, and counts one entry less if it was.
  pub delete_lem : (d : Dict K V) (k : K) → IsValid type d → Deletes type d k (delete type d k)
  unfolding delete
  delete_lem d k valid = elim (Bool-cases (d.ht0.size == 0)) [
    | inl empty ↦
        rw empty (absent-Deletes d valid k (view_no_table type d valid ((==_iff _ _).0 empty) k))
    | inr table ↦
        let step = rehash_step-Keeps type d valid in
        let r = delete_in-Deletes (rehash_step type d) step.valid k in
        rw table (record {
          valid = r.valid;
          status = r.status ∙ ap (λ o. not (is_none o)) (step.map k);
          map = λ q. r.map q ∙ rw (step.map q);
          entries = omega (arith, r.entries, ap found (step.map k), step.entries);
        })
  ]
