-- ===== src/Dict/Find.antt =====
-- `dictFind` reads the map.
use my_node_redis.Prelude.{
  ℕ, ◌≡◌, inl, inr, ◌==◌, ==_iff, Bool-cases, Option-cases, false, Option, none, some, [], refl,
  arith, sym, ◌∙◌,
}
use my_node_redis.Dict.Chains.{DictType, chain_find}
use my_node_redis.Dict.{Dict, index, chain_of, is_rehashing, is_some, rehash_step, find, find_in}
use my_node_redis.Dict.Invariant.{IsValid, view}
use my_node_redis.Dict.Rehash.{Keeps, Keeps-refl, rehash_step-Keeps, rehashing_at}

pub idle_none : (o : Option ℕ) → is_some o ≡ false → o ≡ none
idle_none none h = refl
idle_none (some i) h = cc

module _ {ℓ} {K V : Type ℓ} (type : DictType K) where
  module _ (d : Dict K V) (valid : IsValid type d) where
    -- With no first table there is no entry.
    pub no_table :
        d.ht0.size ≡ 0
        → (d.rehashidx ≡ none) × ((i : ℕ) → d.ht0.slots i ≡ []) × ((i : ℕ) → d.ht1.slots i ≡ [])
    no_table e =
        let idle : d.rehashidx ≡ none = elim (Bool-cases (is_rehashing d)) [
          | inr off ↦ idle_none d.rehashidx off
          | inl on ↦ absurd (omega (arith, (valid.moving _ (rehashing_at d.rehashidx on)).2))
        ] in
        (idle, λ i. valid.table0.outside i (omega arith), valid.idle idle)

    pub view_no_table : d.ht0.size ≡ 0 → (q : K) → view type d q ≡ none
    unfolding view chain_find
    view_no_table e q =
        let (idle, empty0, empty1) = no_table e in
        rw (empty0 (index type d.ht0 q), empty1 (index type d.ht1 q))

    -- The loop over the tables reads the map.
    pub find_in-view : (k : K) → find_in type d k ≡ view type d k
    unfolding find_in view chain_find
    find_in-view k = elim (Option-cases (chain_find type k (chain_of type d.ht0 k))) [
      | inr (v, e) ↦ rw (e, find_in)
      | inl e ↦ elim (Bool-cases (is_rehashing d)) [
        | inl on ↦ rw (e, find_in, on)
        | inr off ↦
            rw (e, find_in, off, valid.idle (idle_none d.rehashidx off) (index type d.ht1 k))
      ]
    ]

  -- `dictFind` on a valid dictionary returns the value that the map gives the key, and its step of
  -- rehashing keeps the dictionary valid, its map and its number of entries.
  pub find-view :
      (d : Dict K V) (k : K)
      → IsValid type d
      → ((find type d k).0 ≡ view type d k) × Keeps type d (find type d k).1
  unfolding find
  find-view d k valid = elim (Bool-cases (d.ht0.size == 0)) [
    | inl none_yet ↦
        rw none_yet
          (sym (view_no_table d valid ((==_iff _ _).0 none_yet) k), Keeps-refl type d valid)
    | inr table ↦
        let step = rehash_step-Keeps type d valid in
        rw table (find_in-view (rehash_step type d) step.valid k ∙ step.map k, step)
  ]
