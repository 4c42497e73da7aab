-- ===== src/Intset/Search.antt =====
-- `intsetSearch` on a sorted array.
use my_node_redis.Prelude.{
  ℕ, zero, suc, ◌+◌, ◌-◌, ◌/◌, ◌^◌, ◌≤◌, ◌<◌, ◌≡◌, ◌≢◌, ◌⊎◌, inl, inr, arith, Bool, true, false,
  Bool-cases, ltb, sym, ◌==◌, if◌then◌else◌, ltb→lt,
}
use my_node_redis.Prelude.Int.{ℤ, ◌<ℤ◌, ltb_ℤ, eqb_ℤ, eqb_ℤ_iff, negsuc, eq_of_parts}
use my_node_redis.Intset.{Intset, get_at, search, search_loop, Range}

abbrev pub IsSorted : Intset → Type 0
IsSorted is = (i j : ℕ) → i < j → j < is.length → get_at is i <ℤ get_at is j

-- `v` is no element, and would stand at `p`.
pub record Gap (is : Intset) (v : ℤ) (p : ℕ) : Type 0 where
  pub within : p ≤ is.length
  pub below : (i : ℕ) → i < p → get_at is i <ℤ v
  pub above : (i : ℕ) → p ≤ i → i < is.length → v <ℤ get_at is i

-- What `(found, p)` says of `v`.
abbrev pub Finds : Intset → ℤ → Bool × ℕ → Type 0
Finds is v (true, p) = (p < is.length) × (get_at is p ≡ v)
Finds is v (false, p) = Gap is v p

-- All that is outside the range is known to be off the value.
record Narrowed (is : Intset) (v : ℤ) (r : Range) : Type 0 where
  ordered : r.lo ≤ r.hi
  within : r.hi ≤ is.length
  below : (i : ℕ) → i < r.lo → get_at is i <ℤ v
  above : (i : ℕ) → r.hi ≤ i → i < is.length → v <ℤ get_at is i

-- how the loop ends: at the value, or with an empty range, the last element read off the value
abbrev Ended : Intset → ℤ → Range → Type 0
Ended is v r =
    ((r.cur ≡ v) × (r.mid < is.length) × (get_at is r.mid ≡ v)) ⊎ ((r.cur ≢ v) × Gap is v r.lo)

module _ (is : Intset) (v : ℤ) (sorted : IsSorted is) where
  below_mid : (m : ℕ) → m < is.length → get_at is m <ℤ v → (i : ℕ) → i < m + 1 → get_at is i <ℤ v
  below_mid m h less i p = elim (cases i m p) [
    | inl e ↦ rw e less
    | inr q ↦ omega (arith, sorted i m q h)
  ]
    where
      cases : (i m : ℕ) → i < m + 1 → (i ≡ m) ⊎ (i < m)
      cases i m h = omega arith

  above_mid : (m : ℕ) → v <ℤ get_at is m → (i : ℕ) → m ≤ i → i < is.length → v <ℤ get_at is i
  above_mid m more i p q = elim (cases m i p) [
    | inl e ↦ rw (← e) more
    | inr r ↦ omega (arith, sorted m i r q)
  ]
    where
      cases : (m i : ℕ) → m ≤ i → (m ≡ i) ⊎ (m < i)
      cases m i h = omega arith

  -- reading the middle element leaves a shorter range
  narrow_right :
      (r : Range)
      → Narrowed is v r
      → r.lo < r.hi
      → let m : ℕ = (r.lo + (r.hi - 1)) / 2 in
        get_at is m <ℤ v
        → Narrowed is v (record { lo = m + 1; hi = r.hi; mid = m; cur = get_at is m })
  narrow_right r n p less = record {
    ordered = omega arith;
    within = n.within;
    below = below_mid _ (omega arith) less;
    above = n.above;
  }

  narrow_left :
      (r : Range)
      → Narrowed is v r
      → r.lo < r.hi
      → let m : ℕ = (r.lo + (r.hi - 1)) / 2 in
        v <ℤ get_at is m → Narrowed is v (record { lo = r.lo; hi = m; mid = m; cur = get_at is m })
  narrow_left r n p more = record {
    ordered = omega arith;
    within = omega arith;
    below = n.below;
    above = above_mid _ more;
  }

  empty-Gap : (r : Range) → Narrowed is v r → r.hi ≤ r.lo → Gap is v r.lo
  empty-Gap r n h = record {
    within = omega arith;
    below = n.below;
    above = λ i p q. n.above i (omega arith) q;
  }

  less-ne : (a : ℤ) → a <ℤ v → a ≢ v
  less-ne a h e = ground arith

  more-ne : (a : ℤ) → v <ℤ a → a ≢ v
  more-ne a h e = ground arith

  search_loop-Ended :
      (fuel : ℕ) (r : Range)
      → Narrowed is v r
      → r.hi ≤ r.lo + fuel
      → (r.lo < r.hi) ⊎ (r.cur ≢ v)
      → Ended is v (search_loop fuel is v r)
  unfolding search_loop
  search_loop-Ended zero r n f ne = inr (ground arith, empty-Gap r n (omega arith))
  search_loop-Ended (suc fuel) r n f ne =
      let m : ℕ = (r.lo + (r.hi - 1)) / 2 in
      let a : ℤ = get_at is m in
      elim (Bool-cases (ltb r.lo r.hi)) [
        | inr done ↦ rw done (inr (ground arith, empty-Gap r n (ground arith)))
        | inl more ↦ elim (Bool-cases (ltb_ℤ a v)) [
          | inl less ↦
              let s = narrow_right r n (ground arith) (ground arith) in
              rw (more, less)
                (search_loop-Ended fuel _ s (omega (arith, ltb→lt _ _ more))
                  (inr (less-ne a (ground arith))))
          | inr not_less ↦ elim (Bool-cases (ltb_ℤ v a)) [
            | inl greater ↦
                let s = narrow_left r n (ground arith) (ground arith) in
                rw (more, not_less, greater)
                  (search_loop-Ended fuel _ s (omega (arith, ltb→lt _ _ more))
                    (inr (more-ne a (ground arith))))
            | inr not_greater ↦
                let same : a ≡ v = eq_of_parts a v (ground arith) in
                rw (more, not_less, not_greater) (inl (same, ground arith, same))
          ]
        ]
      ]

  finish :
      (r : Range)
      → Ended is v r
      → Finds is v (if eqb_ℤ v r.cur then (true, r.mid) else (false, r.lo))
  finish r (inl (e, h, g)) = rw ((eqb_ℤ_iff v r.cur).1 (sym e)) (h, g)
  finish r (inr (ne, g)) = elim (Bool-cases (eqb_ℤ v r.cur)) [
    | inl same ↦ absurd (ne (sym ((eqb_ℤ_iff v r.cur).0 same)))
    | inr other ↦ rw other g
  ]

  beyond_last : is.length ≢ 0 → get_at is (is.length - 1) <ℤ v → Gap is v is.length
  beyond_last ne less = record {
    within = omega arith;
    below = λ i p. below_mid (is.length - 1) (omega arith) less i (omega arith);
    above = λ i p q. absurd (omega arith);
  }

  before_first : v <ℤ get_at is 0 → Gap is v 0
  before_first more = record {
    within = omega arith;
    below = λ i p. absurd (omega arith);
    above = λ i p q. above_mid 0 more i p q;
  }

  all-Narrowed : Narrowed is v (record { lo = 0; hi = is.length; mid = 2 ^ 32 - 1; cur = negsuc 0 })
  all-Narrowed = record {
    ordered = omega arith;
    within = omega arith;
    below = λ i p. absurd (omega arith);
    above = λ i p q. absurd (omega arith);
  }

  -- `intsetSearch` on a sorted array of at most 2 ^ 28 elements finds a position of the value, or
  -- else the position at which it would have to stand; a loop of as many rounds as there are
  -- elements suffices.
  pub search_lem : is.length ≤ 2 ^ 28 → Finds is v (search is v)
  unfolding search
  search_lem small = elim (Bool-cases (is.length == 0)) [
    | inl empty ↦ rw empty (record {
      within = omega arith;
      below = λ i p. absurd (omega arith);
      above = λ i p q. absurd (ground arith);
    })
    | inr some_element ↦ elim (Bool-cases (ltb_ℤ (get_at is (is.length - 1)) v)) [
      | inl less ↦ rw (some_element, less) (beyond_last (ground arith) (ground arith))
      | inr not_less ↦ elim (Bool-cases (ltb_ℤ v (get_at is 0))) [
        | inl more ↦ rw (some_element, not_less, more) (before_first (ground arith))
        | inr not_more ↦
            let start : Range = record {
              lo = 0;
              hi = is.length;
              mid = 2 ^ 32 - 1;
              cur = negsuc 0;
            } in
            rw (some_element, not_less, not_more)
              (finish (search_loop is.length is v start)
                (search_loop-Ended is.length start all-Narrowed (omega arith) (inl (ground arith))))
      ]
    ]
  ]
