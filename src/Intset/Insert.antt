-- ===== src/Intset/Insert.antt =====
-- The invariant of a set, and inserting behind a search: the tail moves up by one and the value is
-- written into the gap.
use my_node_redis.Prelude.{
  ℕ, ◌+◌, ◌-◌, ◌*◌, ◌^◌, ◌≤◌, ◌<◌, ◌≡◌, ◌⊎◌, inl, inr, arith, ap, ◌∙◌, Bool-cases, ltb, sym, dec_lt,
}
use my_node_redis.Prelude.Int.{ℤ}
use my_node_redis.Memory.{Bytes, memmove, of_word}
use my_node_redis.Memory.Laws.{Fits, memmove-lt, read-memmove_inside, read-memmove_outside}
use my_node_redis.Intset.{
  Encoding, int16, int32, int64, size, Intset, get_at, u32, move_tail, insert_at,
}
use my_node_redis.Intset.Slots.{
  slot, get_at-slot, put, set_at-put, slot-put_self, slot-put_ne, put-lt,
}
use my_node_redis.Intset.Search.{IsSorted, Gap}

-- The bound keeps every size in bytes below 2 ^ 32; the code has no test for it.
abbrev pub max_length : ℕ
max_length = 2 ^ 28

pub record IsValid (is : Intset) : Type 0 where
  pub sorted : IsSorted is
  pub bytes : (a : ℕ) → is.contents a < 256
  pub fits_block : is.allocated ≡ is.length * size is.encoding

-- `g'` is `g` with `v` inserted at `p`.
pub record Inserted (n p : ℕ) (v : ℤ) (g g' : ℕ → ℤ) : Type 0 where
  pub before : (i : ℕ) → i < p → g' i ≡ g i
  pub here : g' p ≡ v
  pub after : (i : ℕ) → p ≤ i → i < n → g' (i + 1) ≡ g i

pub size-le : (e : Encoding) → size e ≤ 8
size-le int16 = omega arith
size-le int32 = omega arith
size-le int64 = omega arith

pub move_tail-contents :
    (is : Intset) (from to : ℕ)
    → from ≤ is.length
    → is.length < max_length
    → let w : ℕ = size is.encoding in
      move_tail is from to
      ≡ record is { contents = memmove (to * w) (from * w) ((is.length - from) * w) is.contents }
unfolding move_tail
move_tail-contents is from to h small =
    ap
      (λ n. record is {
        contents = memmove (to * size is.encoding) (from * size is.encoding) n is.contents;
      })
      bytes
  where
    count : u32 (is.length + 2 ^ 32 - from) ≡ is.length - from
    count = omega arith

    product : (e : Encoding) (k : ℕ) → k < max_length → u32 (k * size e) ≡ k * size e
    product int16 k h = omega arith
    product int32 k h = omega arith
    product int64 k h = omega arith

    bytes :
        u32 (u32 (is.length + 2 ^ 32 - from) * size is.encoding)
        ≡ (is.length - from) * size is.encoding
    bytes = rw count (product is.encoding _ (omega arith))

-- Moving the elements from `p` on up by one place.
slot-shift_after :
    (e : Encoding) (m : Bytes) (n p i : ℕ)
    → p ≤ i
    → i < n
    → slot e (memmove ((p + 1) * size e) (p * size e) ((n - p) * size e) m) (i + 1) ≡ slot e m i
slot-shift_after e m n p i h k = ap (of_word (size e)) (
    rw (place e) at (
      read-memmove_inside (size e) ((i + 1) * size e) ((p + 1) * size e) (p * size e)
        ((n - p) * size e) m (starts e) (ends e)))
  where
    place : (e : Encoding) → (i + 1) * size e - (p + 1) * size e + p * size e ≡ i * size e
    place int16 = omega arith
    place int32 = omega arith
    place int64 = omega arith

    starts : (e : Encoding) → (p + 1) * size e ≤ (i + 1) * size e
    starts int16 = omega arith
    starts int32 = omega arith
    starts int64 = omega arith

    ends : (e : Encoding) → (i + 1) * size e + size e ≤ (p + 1) * size e + (n - p) * size e
    ends int16 = omega arith
    ends int32 = omega arith
    ends int64 = omega arith

slot-shift_before :
    (e : Encoding) (m : Bytes) (n p i : ℕ)
    → i < p
    → slot e (memmove ((p + 1) * size e) (p * size e) ((n - p) * size e) m) i ≡ slot e m i
slot-shift_before e m n p i h =
    ap (of_word (size e)) (read-memmove_outside (size e) (i * size e) _ _ _ m (inl (apart e)))
  where
    apart : (e : Encoding) → i * size e + size e ≤ (p + 1) * size e
    apart int16 = omega arith
    apart int32 = omega arith
    apart int64 = omega arith

shift-Inserted :
    (e : Encoding) (m : Bytes) (n p : ℕ) (v : ℤ)
    → Fits (size e) v
    → Inserted n p v
        (slot e m)
        (slot e (put e (memmove ((p + 1) * size e) (p * size e) ((n - p) * size e) m) p v))
shift-Inserted e m n p v f = record {
  before = λ i h. slot-put_ne e _ p i v (omega arith) ∙ slot-shift_before e m n p i h;
  here = slot-put_self e _ p v f;
  after = λ i h k. slot-put_ne e _ p (i + 1) v (omega arith) ∙ slot-shift_after e m n p i h k;
}

append-Inserted :
    (e : Encoding) (m : Bytes) (n : ℕ) (v : ℤ)
    → Fits (size e) v
    → Inserted n n v (slot e m) (slot e (put e m n v))
append-Inserted e m n v f = record {
  before = λ i h. slot-put_ne e m n i v (omega arith);
  here = slot-put_self e m n v f;
  after = λ i h k. absurd (omega arith);
}

-- `is'` is `is` with `v` inserted at `p`.
pub record Grows (is : Intset) (p : ℕ) (v : ℤ) (is' : Intset) : Type 0 where
  pub longer : is'.length ≡ is.length + 1
  pub inserted : Inserted is.length p v (get_at is) (get_at is')
  pub bytes : (a : ℕ) → is'.contents a < 256
  pub fits_block : is'.allocated ≡ is'.length * size is'.encoding

order : (i p : ℕ) → (i < p) ⊎ ((i ≡ p) ⊎ (p < i))
order i p = omega arith

module _ {is is' : Intset} (p : ℕ) (v : ℤ) (g : Grows is p v is') where
  shifted : (j : ℕ) → p < j → j < is'.length → get_at is' j ≡ get_at is (j - 1)
  shifted j h k =
      let e : j - 1 + 1 ≡ j = omega arith in
      rw e at (g.inserted.after (j - 1) (omega (arith, g.longer)) (omega (arith, g.longer)))

  pub IsSorted-Grows : IsSorted is → Gap is v p → IsSorted is'
  IsSorted-Grows s gap i j h k = elim (order j p) [
    | inl jp ↦
        rw (g.inserted.before i (omega arith), g.inserted.before j jp)
          (s i j h (omega (arith, gap.within)))
    | inr (inl jp) ↦
        rw (jp, g.inserted.here, g.inserted.before i (omega arith)) (gap.below i (omega arith))
    | inr (inr pj) ↦
        let last : j - 1 < is.length = omega (arith, g.longer) in
        rw (shifted j pj k) (elim (order i p) [
          | inl ip ↦ rw (g.inserted.before i ip) (s i (j - 1) (omega arith) last)
          | inr (inl ip) ↦ rw (ip, g.inserted.here) (gap.above (j - 1) (omega arith) last)
          | inr (inr pi) ↦ rw (shifted i pi (omega arith)) (s (i - 1) (j - 1) (omega arith) last)
        ])
  ]

  -- The elements are those of before and the new one.
  pub kept : (i : ℕ) → i < is.length → (j : ℕ) × (j < is'.length) × (get_at is' j ≡ get_at is i)
  kept i h = elim (dec_lt i p) [
    | yes ip ↦ (i, omega (arith, g.longer), g.inserted.before i ip)
    | no pi ↦ (i + 1, omega (arith, g.longer), g.inserted.after i (omega arith) h)
  ]

  pub only :
      p ≤ is.length
      → (j : ℕ) → j < is'.length
      → (get_at is' j ≡ v) ⊎ ((i : ℕ) × (i < is.length) × (get_at is' j ≡ get_at is i))
  only gap_within j h = elim (order j p) [
    | inl jp ↦ inr (j, omega (arith, gap_within), g.inserted.before j jp)
    | inr (inl jp) ↦ inl (rw jp g.inserted.here)
    | inr (inr pj) ↦ inr (j - 1, omega (arith, g.longer), shifted j pj h)
  ]

-- what the code leaves behind when the block holds `m` before the last write
abbrev written : Intset → Bytes → ℕ → ℤ → Intset
written is m p v = record {
  encoding = is.encoding;
  length = u32 (is.length + 1);
  contents = put is.encoding m p v;
  allocated = u32 (u32 (is.length + 1) * size is.encoding);
}

pub product_small : (e : Encoding) (k : ℕ) → k ≤ max_length → u32 (u32 k * size e) ≡ k * size e
product_small int16 k h = omega arith
product_small int32 k h = omega arith
product_small int64 k h = omega arith

written-Grows :
    (is : Intset) (m : Bytes) (p : ℕ) (v : ℤ)
    → is.length < max_length
    → ((a : ℕ) → m a < 256)
    → Inserted is.length p v
        (slot is.encoding is.contents)
        (slot is.encoding (put is.encoding m p v))
    → Grows is p v (written is m p v)
written-Grows is m p v small bytes ins =
    let is' = written is m p v in
    record {
      longer = omega arith;
      inserted = record {
        before = λ i h. get_at-slot is' i ∙ ins.before i h ∙ sym (get_at-slot is i);
        here = get_at-slot is' p ∙ ins.here;
        after = λ i h k. get_at-slot is' (i + 1) ∙ ins.after i h k ∙ sym (get_at-slot is i);
      };
      bytes = put-lt is.encoding m p v bytes;
      fits_block =
          rw (product_small is.encoding (is.length + 1) (omega arith))
            (ap (λ k. k * size is.encoding) (omega arith));
    }

-- The whole insertion, with an encoding that holds the value.
pub insert_at-Grows :
    (is : Intset) (p : ℕ) (v : ℤ)
    → IsValid is
    → is.length < max_length
    → p ≤ is.length
    → Fits (size is.encoding) v
    → Grows is p v (insert_at is p v)
unfolding insert_at
insert_at-Grows is p v valid small h f =
    let grown = record is { allocated = u32 (u32 (is.length + 1) * size is.encoding) } in
    elim (Bool-cases (ltb p is.length)) [
      | inl inner ↦
          rw (inner, move_tail-contents grown p (p + 1) h small, set_at-put)
            (written-Grows is _ p v small (memmove-lt _ _ _ is.contents valid.bytes)
              (shift-Inserted is.encoding is.contents is.length p v f))
      | inr end ↦
          let last : p ≡ is.length = ground arith in
          rw (end, set_at-put)
            (written-Grows is is.contents p v small valid.bytes
              (rw last (append-Inserted is.encoding is.contents is.length v f)))
    ]
