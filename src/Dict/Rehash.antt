-- ===== src/Dict/Rehash.antt =====
-- `dictRehash` moves buckets and leaves the map as it is; enough rounds complete it.
use my_node_redis.Prelude.{
  ℕ, zero, suc, ◌+◌, ◌-◌, ◌≤◌, ◌<◌, ◌≡◌, ◌≢◌, ◌⊎◌, inl, inr, ◌==◌, ==_iff, Bool-cases, true, false,
  Option, none, some, List, [], ◌∷◌, length, refl, arith, sym, ap, ◌∙◌, dec_lt, ℕ_discrete,
}
use mathlib.Core.Option.{some-injective}
use my_node_redis.Dict.Chains.{DictType, Slots, update, chain_find, move_chain}
use my_node_redis.Dict.Lookup.{
  count, first, total, total-update, total-move, total_nil, total-eq-zero, move-outside, count-move,
  find-move, find-eq-none, update_ne, update_self,
}
use my_node_redis.Dict.{
  Dict, index, chain_of, reset, is_rehashing, is_some, position, skip_empty, move_bucket,
  rehash_loop, rehash, rehash_step, dict_size,
}
use my_node_redis.Dict.Invariant.{IsTable, IsValid, view, fresh-IsTable}

module _ {ℓ} {A : Type ℓ} where
  pub List-cases : (c : List A) → (c ≡ []) ⊎ ((x : A) × (r : List A) × (c ≡ x ∷ r))
  List-cases [] = inl refl
  List-cases (x ∷ r) = inr (x, r, refl)

module _ {ℓ} {K V : Type ℓ} where
  stays_inside :
      (n : ℕ) (t : Slots K V) (start : ℕ)
      → ((j : ℕ) → j < start → t j ≡ [])
      → total n t ≢ 0
      → start < n
  stays_inside n t start before some_entry = elim (dec_lt start n) [
    | yes p ↦ p
    | no p ↦ absurd (some_entry (total_nil n t (λ j h. before j (omega arith))))
  ]

  one_more :
      (t : Slots K V) (start : ℕ)
      → ((j : ℕ) → j < start → t j ≡ [])
      → t start ≡ []
      → (j : ℕ) → j < start + 1
      → t j ≡ []
  one_more t start before e j h = elim (dec_lt j start) [
    | yes p ↦ before j p
    | no p ↦ let last : j ≡ start = omega arith in rw last e
  ]

  -- The search for a bucket with entries ends at the first one.
  skip_empty_lem :
      (fuel n : ℕ) (t : Slots K V) (start : ℕ)
      → ((j : ℕ) → j < start → t j ≡ [])
      → total n t ≢ 0
      → n ≤ start + fuel
      → let i = skip_empty fuel t start in (start ≤ i) × (i < n) × ((j : ℕ) → j < i → t j ≡ [])
  unfolding skip_empty
  skip_empty_lem zero n t start before some_entry h =
      (omega arith, stays_inside n t start before some_entry, before)
  skip_empty_lem (suc fuel) n t start before some_entry h = elim (List-cases (t start)) [
    | inl e ↦
        let (lo, hi, empty) =
          skip_empty_lem fuel n t (start + 1) (one_more t start before e) some_entry
            (omega arith) in
        rw (e, skip_empty) (omega arith, hi, empty)
    | inr (x, r, e) ↦
        rw (e, skip_empty) (omega arith, stays_inside n t start before some_entry, before)
  ]

-- What a step keeps: the map and the number of entries.
pub record Keeps {ℓ} {K V : Type ℓ} (type : DictType K) (d d' : Dict K V) : Type ℓ where
  pub valid : IsValid type d'
  pub map : (q : K) → view type d' q ≡ view type d q
  pub entries : dict_size d' ≡ dict_size d

module _ {ℓ} {K V : Type ℓ} (type : DictType K) where
  pub Keeps-refl : (d : Dict K V) → IsValid type d → Keeps type d d
  Keeps-refl d valid = record { valid = valid; map = λ q. refl; entries = refl }

  pub Keeps-trans : {a b c : Dict K V} → Keeps type a b → Keeps type b c → Keeps type a c
  Keeps-trans k l = record {
    valid = l.valid;
    map = λ q. l.map q ∙ k.map q;
    entries = l.entries ∙ k.entries;
  }

pub rehashing_at : (o : Option ℕ) → is_some o ≡ true → o ≡ some (position o)
rehashing_at none h = cc
rehashing_at (some i) h = refl

pub first_none {ℓ} : {V : Type ℓ} (o : Option V) → first o none ≡ o
first_none none = refl
first_none (some v) = refl

module _ {ℓ} {K V : Type ℓ} (type : DictType K) where
  module _ (d : Dict K V) (valid : IsValid type d) (n : ℕ) (e : d.rehashidx ≡ some n)
      (busy : d.ht0.used ≢ 0) where
    moved_index : ℕ
    moved_index = skip_empty d.ht0.size d.ht0.slots n

    moved_bucket :
        (n ≤ moved_index)
        × (moved_index < d.ht0.size)
        × ((j : ℕ) → j < moved_index → d.ht0.slots j ≡ [])
    unfolding moved_index
    moved_bucket =
        skip_empty_lem d.ht0.size d.ht0.size d.ht0.slots n (valid.moving n e).3
          (λ z. busy (valid.table0.used ∙ z)) (omega arith)

    old-IsTable : IsTable type (record (d.ht0) {
      slots = update d.ht0.slots moved_index [];
      used = d.ht0.used - length (d.ht0.slots moved_index);
    })
    unfolding count update
    old-IsTable = record {
      home = λ q j h. ground (arith, valid.table0.home q j h);
      used = omega (
        arith,
        total-update d.ht0.size moved_index d.ht0.slots [] moved_bucket.1,
        valid.table0.used,
      );
      mask = valid.table0.mask;
      small = valid.table0.small;
      outside = λ j h.
          update_ne d.ht0.slots moved_index j [] (omega (arith, moved_bucket))
          ∙ valid.table0.outside j h;
    }

    new-IsTable : IsTable type (record (d.ht1) {
      slots = move_chain type d.ht1.sizemask (d.ht0.slots moved_index) d.ht1.slots;
      used = d.ht1.used + length (d.ht0.slots moved_index);
    })
    new-IsTable =
        let c = d.ht0.slots moved_index in
        let below : d.ht1.sizemask < d.ht1.size =
          omega (arith, (valid.moving n e).0, valid.table1.mask) in
        record {
          home = λ q j h. rw count-move (ground (arith, valid.table1.home q j h));
          used = omega (
            arith,
            total-move type d.ht1.sizemask d.ht1.size c d.ht1.slots below,
            valid.table1.used,
          );
          mask = valid.table1.mask;
          small = valid.table1.small;
          outside = λ j h.
              move-outside type d.ht1.sizemask c d.ht1.slots j (omega arith)
              ∙ valid.table1.outside j h;
        }

    moved_count : (q : K) → count type q (d.ht0.slots moved_index) ≤ 1
    moved_count q = elim (Bool-cases (index type d.ht0 q == moved_index)) [
      | inl same ↦
          omega (arith, ap (λ i. count type q (d.ht0.slots i)) ((==_iff _ _).0 same), valid.once q)
      | inr other ↦ omega (arith, valid.table0.home q moved_index (λ p. cc ((==_iff _ _).1 p)))
    ]

    emptied : (i : ℕ) → i < moved_index + 1 → update d.ht0.slots moved_index [] i ≡ []
    unfolding update
    emptied i h = elim (dec_lt i moved_index) [
      | yes p ↦ rw (moved_bucket.2 i p) (ground arith)
      | no p ↦ ground arith
    ]

    move_bucket-IsValid : IsValid type (move_bucket type d n)
    unfolding move_bucket moved_index
    move_bucket-IsValid = record {
      table0 = old-IsTable;
      table1 = new-IsTable;
      once = λ q.
          rw count-move
            (unfold count update in ground (arith, valid.once q, valid.table0.home q moved_index));
      idle = λ p. cc;
      idle_used = λ p. cc;
      moving = λ m p. (
        (valid.moving n e).0,
        rw (← some-injective _ _ p) (omega (arith, moved_bucket.1)),
        (valid.moving n e).2,
        λ i h. emptied i (rw (some-injective _ _ p) h),
      );
    }

    move_bucket-view : (q : K) → view type (move_bucket type d n) q ≡ view type d q
    unfolding move_bucket view moved_index chain_find
    move_bucket-view q =
        let c = d.ht0.slots moved_index in
        rw (find-move type d.ht1.sizemask q c d.ht1.slots (moved_count q))
          (elim (ℕ_discrete (index type d.ht0 q) moved_index) [
            | yes p ↦
                rw (p, update_self)
                  (ap
                    (λ i.
                      first (chain_find type q (d.ht0.slots i))
                        (chain_find type q (chain_of type d.ht1 q)))
                    (sym p))
            | no p ↦ rw (
              update_ne d.ht0.slots moved_index (index type d.ht0 q) [] p,
              find-eq-none type q c (valid.table0.home q moved_index p),
            )
          ])

    move_bucket-size : dict_size (move_bucket type d n) ≡ dict_size d
    unfolding move_bucket moved_index
    move_bucket-size = omega (
      arith,
      valid.table0.used,
      total-update d.ht0.size moved_index d.ht0.slots [] moved_bucket.1,
    )

    pub move_bucket_further :
        ((move_bucket type d n).ht0.size ≡ d.ht0.size)
        × (n < position (move_bucket type d n).rehashidx)
    unfolding move_bucket moved_index
    move_bucket_further = (refl, omega (arith, moved_bucket.0))

    pub move_bucket-Keeps : Keeps type d (move_bucket type d n)
    move_bucket-Keeps = record {
      valid = move_bucket-IsValid;
      map = move_bucket-view;
      entries = move_bucket-size;
    }

  moved_on : (d : Dict K V) (n : ℕ) → is_rehashing (move_bucket type d n) ≡ true
  unfolding move_bucket
  moved_on d n = refl

  -- The early end: everything has moved, and the new table takes the old one's place.
  finished : Dict K V → Dict K V
  finished d = record d { ht0 = d.ht1; ht1 = reset; rehashidx = none }

  module _ (d : Dict K V) (valid : IsValid type d) (done : d.ht0.used ≡ 0) where
    all_moved : (i : ℕ) → d.ht0.slots i ≡ []
    all_moved i = elim (dec_lt i d.ht0.size) [
      | yes p ↦ total-eq-zero d.ht0.size d.ht0.slots (sym valid.table0.used ∙ done) i p
      | no p ↦ valid.table0.outside i (omega arith)
    ]

    finished-Keeps : Keeps type d (finished d)
    unfolding finished reset view chain_find count
    finished-Keeps = record {
      valid = record {
        table0 = valid.table1;
        table1 = fresh-IsTable type 0 (omega arith);
        once = λ q. omega (arith, valid.once q);
        idle = λ e i. refl;
        idle_used = λ e. refl;
        moving = λ n e. cc;
      };
      map = λ q.
          rw (all_moved (index type d.ht0 q))
            (first_none (chain_find type q (chain_of type d.ht1 q)));
      entries = omega arith;
    }

  -- The loop with any number of rounds keeps the map, and answers whether it has work left.
  pub rehash_loop-Keeps :
      (n : ℕ) (d : Dict K V)
      → IsValid type d
      → is_rehashing d ≡ true
      → Keeps type d (rehash_loop type n d).0
        × (is_rehashing (rehash_loop type n d).0 ≡ (rehash_loop type n d).1)
  unfolding rehash_loop
  rehash_loop-Keeps zero d valid r = (Keeps-refl type d valid, r)
  rehash_loop-Keeps (suc n) d valid r =
      let i : ℕ = position d.rehashidx in
      let e : d.rehashidx ≡ some i = rehashing_at d.rehashidx r in
      elim (Bool-cases (d.ht0.used == 0)) [
        | inl done ↦ rw done (unfold finished in finished-Keeps d valid ((==_iff _ _).0 done), refl)
        | inr busy ↦
            let k = move_bucket-Keeps d valid i e (λ z. cc ((==_iff _ _).1 z)) in
            let (kept, flag) = rehash_loop-Keeps n (move_bucket type d i) k.valid (moved_on d i) in
            rw busy (Keeps-trans type k kept, flag)
      ]

  -- `dictRehash` of any number of rounds on a valid dictionary keeps it valid, its map and its
  -- number of entries, and answers 1 exactly where the dictionary is still rehashing afterwards,
  -- also when no entry is left to move.
  pub rehash-Keeps :
      (d : Dict K V) (n : ℕ)
      → IsValid type d
      → Keeps type d (rehash type d n).0 × (is_rehashing (rehash type d n).0 ≡ (rehash type d n).1)
  unfolding rehash
  rehash-Keeps d n valid = elim (Bool-cases (is_rehashing d)) [
    | inl on ↦ rw on (rehash_loop-Keeps n d valid on)
    | inr off ↦ rw off (Keeps-refl type d valid, off)
  ]

  pub rehash_step-Keeps : (d : Dict K V) → IsValid type d → Keeps type d (rehash_step type d)
  unfolding rehash_step
  rehash_step-Keeps d valid = elim (Bool-cases (is_rehashing d)) [
    | inr off ↦ rw off (Keeps-refl type d valid)
    | inl on ↦ elim (Bool-cases (d.iterators == 0)) [
      | inl free ↦ rw (on, free) (rehash-Keeps d 1 valid).0
      | inr held ↦ rw (on, held) (Keeps-refl type d valid)
    ]
  ]

  -- Each round leaves one bucket less.
  rehash_loop_ends :
      (n : ℕ) (d : Dict K V)
      → IsValid type d
      → is_rehashing d ≡ true
      → d.ht0.size < position d.rehashidx + n
      → (rehash_loop type n d).1 ≡ false
  unfolding rehash_loop
  rehash_loop_ends zero d valid r h =
      absurd (omega (arith, (valid.moving (position d.rehashidx) (rehashing_at d.rehashidx r)).1))
  rehash_loop_ends (suc n) d valid r h =
      let i : ℕ = position d.rehashidx in
      let e : d.rehashidx ≡ some i = rehashing_at d.rehashidx r in
      elim (Bool-cases (d.ht0.used == 0)) [
        | inl done ↦ rw done
        | inr busy ↦
            let ne : d.ht0.used ≢ 0 = λ z. cc ((==_iff _ _).1 z) in
            let k = move_bucket-Keeps d valid i e ne in
            rw busy (
              rehash_loop_ends n (move_bucket type d i) k.valid (moved_on d i)
                (omega (arith, move_bucket_further d valid i e ne)))
      ]

  -- On a valid dictionary that is rehashing, `dictRehash` with more rounds than buckets from
  -- `rehashidx` on ends the rehashing, and keeps the dictionary valid, its map and its number of
  -- entries.
  pub rehash_complete :
      (d : Dict K V) (n : ℕ)
      → IsValid type d
      → is_rehashing d ≡ true
      → d.ht0.size < position d.rehashidx + n
      → (is_rehashing (rehash type d n).0 ≡ false) × Keeps type d (rehash type d n).0
  rehash_complete d n valid r h =
      let (keeps, flag) = rehash-Keeps d n valid in
      (flag ∙ (unfold rehash in rw r (rehash_loop_ends n d valid r h)), keeps)
