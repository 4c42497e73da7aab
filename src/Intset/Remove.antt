-- ===== src/Intset/Remove.antt =====
-- `intsetRemove`: the tail moves down over the value.
use my_node_redis.Prelude.{
  ℕ, ◌+◌, ◌-◌, ◌*◌, ◌≤◌, ◌<◌, ◌≡◌, ◌≢◌, inl, inr, refl, arith, ap, ◌∙◌, Bool, true, false, not,
  ◌&&◌, Bool-cases, bool_ext, ltb, leb, sym, if◌then◌else◌, dec_lt,
}
use my_node_redis.Prelude.Int.{ℤ, eqb_ℤ, eqb_ℤ_iff, pos_part, neg_part}
use my_node_redis.Memory.{Bytes, memmove, of_word}
use my_node_redis.Memory.Laws.{memmove-lt, read-memmove_inside, read-memmove_outside}
use my_node_redis.Intset.{
  Encoding, int16, int32, int64, size, Intset, value_encoding, get_at, search, find, remove,
  remove_at, u32,
}
use my_node_redis.Intset.Slots.{slot, get_at-slot}
use my_node_redis.Intset.Search.{IsSorted, Finds, search_lem}
use my_node_redis.Intset.Insert.{IsValid, max_length, move_tail-contents}
use my_node_redis.Intset.Add.{find-Member}

-- `g'` is `g` without its element at `p`.
record Removed (n p : ℕ) (g g' : ℕ → ℤ) : Type 0 where
  before : (i : ℕ) → i < p → g' i ≡ g i
  after : (i : ℕ) → p ≤ i → i + 1 < n → g' i ≡ g (i + 1)

slot-down :
    (e : Encoding) (m : Bytes) (n p : ℕ)
    → p < n
    → Removed n p
        (slot e m)
        (slot e (memmove (p * size e) ((p + 1) * size e) ((n - (p + 1)) * size e) m))
slot-down e m n p h = record {
  before = λ i k.
      ap (of_word (size e))
        (read-memmove_outside (size e) (i * size e) _ _ _ m (inl (apart e i k)));
  after = λ i j k. ap (of_word (size e)) (
      rw (place e i j) at (
        read-memmove_inside (size e) (i * size e) (p * size e) ((p + 1) * size e) _ m (starts e i j)
          (ends e i j k)));
}
  where
    apart : (e : Encoding) (i : ℕ) → i < p → i * size e + size e ≤ p * size e
    apart int16 i k = omega arith
    apart int32 i k = omega arith
    apart int64 i k = omega arith

    place :
        (e : Encoding) (i : ℕ)
        → p ≤ i
        → i * size e - p * size e + (p + 1) * size e ≡ (i + 1) * size e
    place int16 i j = omega arith
    place int32 i j = omega arith
    place int64 i j = omega arith

    starts : (e : Encoding) (i : ℕ) → p ≤ i → p * size e ≤ i * size e
    starts int16 i j = omega arith
    starts int32 i j = omega arith
    starts int64 i j = omega arith

    ends :
        (e : Encoding) (i : ℕ)
        → p ≤ i
        → i + 1 < n
        → i * size e + size e ≤ p * size e + (n - (p + 1)) * size e
    ends int16 i j k = omega arith
    ends int32 i j k = omega arith
    ends int64 i j k = omega arith

record Shrinks (is : Intset) (p : ℕ) (is' : Intset) : Type 0 where
  shorter : is'.length + 1 ≡ is.length
  removed : Removed is.length p (get_at is) (get_at is')
  bytes : (a : ℕ) → is'.contents a < 256
  fits_block : is'.allocated ≡ is'.length * size is'.encoding

product_pred : (e : Encoding) (k : ℕ) → k < max_length → u32 ((k - 1) * size e) ≡ (k - 1) * size e
product_pred int16 k h = omega arith
product_pred int32 k h = omega arith
product_pred int64 k h = omega arith

abbrev left : Intset → Bytes → Intset
left is m = record {
  encoding = is.encoding;
  length = is.length - 1;
  contents = m;
  allocated = u32 ((is.length - 1) * size is.encoding);
}

left-Shrinks :
    (is : Intset) (p : ℕ) (m : Bytes)
    → is.length < max_length
    → p < is.length
    → ((a : ℕ) → m a < 256)
    → Removed is.length p (slot is.encoding is.contents) (slot is.encoding m)
    → Shrinks is p (left is m)
left-Shrinks is p m small h b r =
    let is' = left is m in
    record {
      shorter = omega arith;
      removed = record {
        before = λ i k. get_at-slot is' i ∙ r.before i k ∙ sym (get_at-slot is i);
        after = λ i j k. get_at-slot is' i ∙ r.after i j k ∙ sym (get_at-slot is (i + 1));
      };
      bytes = b;
      fits_block = product_pred is.encoding is.length small;
    }

remove_at-Shrinks :
    (is : Intset) (p : ℕ)
    → IsValid is
    → is.length < max_length
    → p < is.length
    → Shrinks is p (remove_at is p)
unfolding remove_at
remove_at-Shrinks is p valid small h = elim (Bool-cases (ltb p (is.length - 1))) [
  | inl inner ↦
      rw (inner, move_tail-contents is (p + 1) p (omega arith) small)
        (left-Shrinks is p _ small h (memmove-lt _ _ _ is.contents valid.bytes)
          (slot-down is.encoding is.contents is.length p h))
  | inr last ↦ rw last (
      left-Shrinks is p is.contents small h valid.bytes
        (record { before = λ i k. refl; after = λ i j k. absurd (ground arith) }))
]

module _ {is is' : Intset} (p : ℕ) (inside : p < is.length) (s : Shrinks is p is') where
  Shrinks-IsSorted : IsSorted is → IsSorted is'
  Shrinks-IsSorted sorted i j h k = elim (dec_lt j p) [
    | yes jp ↦
        rw (s.removed.before i (omega arith), s.removed.before j jp) (sorted i j h (omega arith))
    | no pj ↦
        let last : j + 1 < is.length = omega (arith, s.shorter) in
        rw (s.removed.after j (omega arith) last) (elim (dec_lt i p) [
          | yes ip ↦ rw (s.removed.before i ip) (sorted i (j + 1) (omega arith) last)
          | no pi ↦
              rw (s.removed.after i (omega arith) (omega arith))
                (sorted (i + 1) (j + 1) (omega arith) last)
        ])
  ]

  Shrinks-IsValid : IsValid is → IsValid is'
  Shrinks-IsValid valid = record {
    sorted = Shrinks-IsSorted valid.sorted;
    bytes = s.bytes;
    fits_block = s.fits_block;
  }

  -- the place of an element before the removal
  source :
      (i : ℕ) → i < is'.length → (j : ℕ) × (j < is.length) × (j ≢ p) × (get_at is' i ≡ get_at is j)
  source i h = elim (dec_lt i p) [
    | yes ip ↦ (i, omega (arith, s.shorter), omega arith, s.removed.before i ip)
    | no pi ↦ (
      i + 1,
      omega (arith, s.shorter),
      omega arith,
      s.removed.after i (omega arith) (omega (arith, s.shorter)),
    )
  ]

  stays :
      (j : ℕ) → j < is.length → j ≢ p → (i : ℕ) × (i < is'.length) × (get_at is' i ≡ get_at is j)
  stays j h ne = elim (dec_lt j p) [
    | yes jp ↦ (j, omega (arith, s.shorter), s.removed.before j jp)
    | no pj ↦
        let e : j - 1 + 1 ≡ j = omega arith in
        (
          j - 1,
          omega (arith, s.shorter),
          rw e at (s.removed.after (j - 1) (omega arith) (omega arith)),
        )
  ]

-- The elements of a sorted array are all different.
apart :
    (is : Intset) (i j : ℕ)
    → IsSorted is
    → i < is.length
    → j < is.length
    → i ≢ j
    → get_at is i ≢ get_at is j
apart is i j s h k ne e = elim (dec_lt i j) [
  | yes l ↦ omega (arith, s i j l k, ap pos_part e, ap neg_part e)
  | no g ↦ omega (arith, s j i (omega arith) h, ap pos_part e, ap neg_part e)
]

-- What `intsetRemove` promises of its result.
pub record Removes (is : Intset) (v : ℤ) (r : Intset × Bool) : Type 0 where
  pub valid : IsValid r.0
  pub success : r.1 ≡ find is v
  pub length : is.length ≡ (if find is v then r.0.length + 1 else r.0.length)
  pub members : (w : ℤ) → find r.0 w ≡ (not (eqb_ℤ v w) && find is w)

module _ (is : Intset) (v : ℤ) (valid : IsValid is) where
  Shrinks-find :
      {is' : Intset} (p : ℕ) (w : ℤ)
      → is.length < max_length
      → p < is.length
      → get_at is p ≡ v
      → Shrinks is p is'
      → find is' w ≡ (not (eqb_ℤ v w) && find is w)
  Shrinks-find {is'} p w small h at_p s = bool_ext _ _ old new
    where
      valid' : IsValid is'
      valid' = Shrinks-IsValid p h s valid

      old : find is' w ≡ true → (not (eqb_ℤ v w) && find is w) ≡ true
      old e =
          let (i, k, at_i) = (find-Member valid' w (omega (arith, s.shorter))).0 e in
          let (j, q, ne, same) = source p h s i k in
          let member = (find-Member valid w (omega arith)).1 (j, q, sym same ∙ at_i) in
          elim (Bool-cases (eqb_ℤ v w)) [
            | inl eq ↦ absurd (
                apart is j p valid.sorted q h ne
                  (sym same ∙ at_i ∙ sym ((eqb_ℤ_iff v w).0 eq) ∙ sym at_p))
            | inr other ↦ rw other member
          ]

      new : (not (eqb_ℤ v w) && find is w) ≡ true → find is' w ≡ true
      new e =
          let (j, q, at_j) = (find-Member valid w (omega arith)).0 (ground arith) in
          let ne : j ≢ p =
            λ same. cc ((eqb_ℤ_iff v w).1 (sym at_p ∙ ap (get_at is) (sym same) ∙ at_j)) in
          let (i, k, same) = stays p h s j q ne in
          (find-Member valid' w (omega (arith, s.shorter))).1 (i, k, same ∙ at_j)

  removed-Removes :
      (r : Bool × ℕ)
      → is.length < max_length
      → Finds is v r
      → r.0 ≡ true
      → Removes is v (remove_at is r.1, true)
  removed-Removes (false, p) small f e = cc
  removed-Removes (true, p) small (h, at_p) e =
      let s = remove_at-Shrinks is p valid small h in
      let here = (find-Member valid v (omega arith)).1 (p, h, at_p) in
      record {
        valid = Shrinks-IsValid p h s valid;
        success = sym here;
        length = rw here (sym s.shorter);
        members = λ w. Shrinks-find p w small h at_p s;
      }

  absent-Removes : find is v ≡ false → Removes is v (is, false)
  absent-Removes gone = record {
    valid = valid;
    success = sym gone;
    length = rw gone;
    members = λ w. elim (Bool-cases (eqb_ℤ v w)) [
      | inl same ↦ rw (same, ← (eqb_ℤ_iff v w).0 same) gone
      | inr other ↦ rw other
    ];
  }

  -- `intsetRemove` on a valid set of fewer than 2 ^ 28 elements leaves a valid set, reports whether
  -- the value was an element, takes out exactly this value, and counts it.
  pub remove_lem : is.length < max_length → Removes is v (remove is v)
  unfolding remove
  remove_lem small =
      elim (Bool-cases (leb (size (value_encoding v)) (size is.encoding) && (search is v).0)) [
        | inl found ↦ rw found (
            removed-Removes (search is v) small (search_lem is v valid.sorted (omega arith))
              (ground arith))
        | inr not_found ↦ rw not_found (absent-Removes (unfold find in not_found))
      ]
