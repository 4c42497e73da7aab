-- ===== src/Intset/Add.antt =====
-- `intsetFind` and `intsetAdd` against membership.
use my_node_redis.Prelude.{
  ℕ, ◌+◌, ◌≤◌, ◌<◌, ◌≡◌, ◌⊎◌, ◌↔◌, inl, inr, arith, ap, ◌∙◌, Bool, true, false, not, ◌||◌,
  Bool-cases, bool_ext, ltb, ltb→lt, sym, if◌then◌else◌,
}
use my_node_redis.Prelude.Int.{ℤ, ◌<ℤ◌, eqb_ℤ, eqb_ℤ_iff, pos_part, neg_part}
use my_node_redis.Memory.Laws.{Fits}
use my_node_redis.Intset.{size, Intset, value_encoding, get_at, search, find, add}
use my_node_redis.Intset.Slots.{get_at-slot, slot-Fits, value_encoding-Fits, Fits-value_encoding}
use my_node_redis.Intset.Search.{Gap, Finds, search_lem}
use my_node_redis.Intset.Insert.{
  IsValid, Grows, IsSorted-Grows, kept, only, insert_at-Grows, max_length,
}
use my_node_redis.Intset.Upgrade.{upgrade_place, upgrade_and_add-Grows, upgrade-Gap}

abbrev pub Member : Intset → ℤ → Type 0
Member is v = (i : ℕ) × (i < is.length) × (get_at is i ≡ v)

-- An int64_t.
abbrev pub IsInt64 : ℤ → Type 0
IsInt64 v = Fits 8 v

pub found-Member : (is : Intset) (v : ℤ) (r : Bool × ℕ) → Finds is v r → r.0 ≡ true → Member is v
found-Member is v (true, p) f e = (p, f.0, f.1)
found-Member is v (false, p) f e = cc

pub not_found-Gap : (is : Intset) (v : ℤ) (r : Bool × ℕ) → Finds is v r → r.0 ≡ false → Gap is v r.1
not_found-Gap is v (true, p) f e = cc
not_found-Gap is v (false, p) f e = f

irrefl : (a v : ℤ) → a ≡ v → a <ℤ v → ⊥
irrefl a v e h = omega (arith, ap pos_part e, ap neg_part e)

irrefl' : (a v : ℤ) → a ≡ v → v <ℤ a → ⊥
irrefl' a v e h = omega (arith, ap pos_part e, ap neg_part e)

pub Gap-not-Member : {is : Intset} (v : ℤ) (p : ℕ) → Gap is v p → ¬ (Member is v)
Gap-not-Member {is} v p g (i, h, e) = elim (side i p) [
  | inl l ↦ irrefl (get_at is i) v e (g.below i l)
  | inr r ↦ irrefl' (get_at is i) v e (g.above i r h)
]
  where
    side : (i p : ℕ) → (i < p) ⊎ (p ≤ i)
    side i p = omega arith

module _ {is : Intset} (valid : IsValid is) (v : ℤ) where
  Member-encoding : Member is v → size (value_encoding v) ≤ size is.encoding
  Member-encoding (i, h, e) =
      Fits-value_encoding is.encoding v
        (rw (sym (get_at-slot is i) ∙ e) at (slot-Fits is.encoding is.contents i valid.bytes))

  -- `intsetFind` on a valid set of at most 2 ^ 28 elements answers whether some position below the
  -- length holds the value.
  pub find-Member : is.length ≤ max_length → (find is v ≡ true) ↔ Member is v
  unfolding find
  find-Member small = (
    λ h.
        found-Member is v (search is v) (search_lem is v valid.sorted (omega arith)) (ground arith),
    λ m. elim (Bool-cases (search is v).0) [
      | inl yes_found ↦ ground (arith, Member-encoding m)
      | inr not_found ↦ absurd (
          Gap-not-Member v _
            (not_found-Gap is v (search is v) (search_lem is v valid.sorted (omega arith))
              not_found)
            m)
    ],
  )

-- After an insertion the members are those of before and the new one.
Grows-find :
    {is is' : Intset} (p : ℕ) (v w : ℤ)
    → IsValid is
    → IsValid is'
    → is.length < max_length
    → p ≤ is.length
    → Grows is p v is'
    → find is' w ≡ (eqb_ℤ v w || find is w)
Grows-find {is} {is'} p v w valid valid' small h g = bool_ext _ _ new old
  where
    new : find is' w ≡ true → (eqb_ℤ v w || find is w) ≡ true
    new e =
        let (j, k, at_j) = (find-Member valid' w (omega (arith, g.longer))).0 e in
        elim (only p v g h j k) [
          | inl is_v ↦ rw ((eqb_ℤ_iff v w).1 (sym is_v ∙ at_j))
          | inr (i, q, same) ↦
              ground (arith, (find-Member valid w (omega arith)).1 (i, q, sym same ∙ at_j))
        ]

    old : (eqb_ℤ v w || find is w) ≡ true → find is' w ≡ true
    old e = elim (Bool-cases (eqb_ℤ v w)) [
      | inl same ↦
          (find-Member valid' w (omega (arith, g.longer))).1
            (p, omega (arith, g.longer), g.inserted.here ∙ (eqb_ℤ_iff v w).0 same)
      | inr other ↦
          let (i, q, at_i) = (find-Member valid w (omega arith)).0 (ground arith) in
          let (j, k, same) = kept p v g i q in
          (find-Member valid' w (omega (arith, g.longer))).1 (j, k, same ∙ at_i)
    ]

Grows-IsValid :
    {is is' : Intset} (p : ℕ) (v : ℤ) → IsValid is → Gap is v p → Grows is p v is' → IsValid is'
Grows-IsValid p v valid gap g = record {
  sorted = IsSorted-Grows p v g valid.sorted gap;
  bytes = g.bytes;
  fits_block = g.fits_block;
}

-- What `intsetAdd` promises of its result.
pub record Adds (is : Intset) (v : ℤ) (r : Intset × Bool) : Type 0 where
  pub valid : IsValid r.0
  pub success : r.1 ≡ not (find is v)
  pub length : r.0.length ≡ (if find is v then is.length else is.length + 1)
  pub members : (w : ℤ) → find r.0 w ≡ (eqb_ℤ v w || find is w)

Grows-Adds :
    {is is' : Intset} (p : ℕ) (v : ℤ)
    → IsValid is
    → is.length < max_length
    → Gap is v p
    → Grows is p v is'
    → find is v ≡ false
    → Adds is v (is', true)
Grows-Adds p v valid small gap g absent =
    let valid' = Grows-IsValid p v valid gap g in
    record {
      valid = valid';
      success = rw absent;
      length = rw absent g.longer;
      members = λ w. Grows-find p v w valid valid' small gap.within g;
    }

module _ (is : Intset) (v : ℤ) (valid : IsValid is) (small : is.length < max_length) where
  absent : (p : ℕ) → Gap is v p → find is v ≡ false
  absent p gap = elim (Bool-cases (find is v)) [
    | inl here ↦ absurd (Gap-not-Member v p gap ((find-Member valid v (omega arith)).0 here))
    | inr gone ↦ gone
  ]

  present : (r : Bool × ℕ) → Finds is v r → r.0 ≡ true → Adds is v (is, false)
  present r f e =
      let here = (find-Member valid v (omega arith)).1 (found-Member is v r f e) in
      record {
        valid = valid;
        success = rw here;
        length = rw here;
        members = λ w. elim (Bool-cases (eqb_ℤ v w)) [
          | inl same ↦ rw (same, ← (eqb_ℤ_iff v w).0 same) here
          | inr other ↦ rw other
        ];
      }

  -- `intsetAdd` of an int64_t to a valid set of fewer than 2 ^ 28 elements leaves a valid set
  -- (sorted, and no byte more than it needs), reports whether the value is new, adds exactly this
  -- value, and counts it, with and without an upgrade of the encoding.
  pub add_lem : IsInt64 v → Adds is v (add is v)
  unfolding add
  add_lem f = elim (Bool-cases (ltb (size is.encoding) (size (value_encoding v)))) [
    | inl narrow ↦
        let lt : size is.encoding < size (value_encoding v) = ltb→lt _ _ narrow in
        let gap = upgrade-Gap is v valid small f lt in
        rw narrow (
          Grows-Adds (upgrade_place is v) v valid small gap
            (upgrade_and_add-Grows is v valid small f lt) (absent _ gap))
    | inr holds ↦ elim (Bool-cases (search is v).0) [
      | inl found ↦
          rw (holds, found)
            (present (search is v) (search_lem is v valid.sorted (omega arith)) found)
      | inr not_found ↦
          let gap =
            not_found-Gap is v (search is v) (search_lem is v valid.sorted (omega arith))
              not_found in
          let fe = value_encoding-Fits is.encoding v f (ground arith) in
          rw (holds, not_found)
            (Grows-Adds _ v valid small gap
              (insert_at-Grows is (search is v).1 v valid small gap.within fe) (absent _ gap))
    ]
  ]
