-- ===== src/Intset/Upgrade.antt =====
-- `intsetUpgradeAndAdd`: every element is copied to its place under the wider encoding, last one
-- first, in the same block.
use my_node_redis.Prelude.{
  ℕ, zero, suc, ◌+◌, ◌*◌, ◌≤◌, ◌<◌, ◌≡◌, ◌⊎◌, inl, inr, refl, arith, ap, ◌∙◌, Bool-cases, sym,
  dec_lt, if◌then◌else◌,
}
use my_node_redis.Prelude.Int.{ℤ, ◌<ℤ◌, ltb_ℤ, pos}
use my_node_redis.Memory.{Bytes}
use my_node_redis.Memory.Laws.{Fits}
use my_node_redis.Intset.{
  Encoding, int16, int32, int64, size, Intset, value_encoding, get_encoded, get_at, set_at, u32,
  upgrade_loop, upgrade_and_add,
}
use my_node_redis.Intset.Slots.{
  slot, get_at-slot, get_encoded-slot, put, set_at-put, slot-put_self, slot-put_ne,
  slot-put_disjoint, slot-Fits, put-lt, value_encoding-Fits, value_encoding-outside,
}
use my_node_redis.Intset.Search.{Gap}
use my_node_redis.Intset.Insert.{IsValid, Grows, max_length, product_small}

pub Fits-mono : (e e' : Encoding) (v : ℤ) → size e ≤ size e' → Fits (size e) v → Fits (size e') v
Fits-mono int16 int16 v h f = f
Fits-mono int16 int32 v h f = omega arith
Fits-mono int16 int64 v h f = omega arith
Fits-mono int32 int16 v h f = absurd (omega arith)
Fits-mono int32 int32 v h f = f
Fits-mono int32 int64 v h f = omega arith
Fits-mono int64 int16 v h f = absurd (omega arith)
Fits-mono int64 int32 v h f = absurd (omega arith)
Fits-mono int64 int64 v h f = f

-- the narrow element `i` ends before the wide place `n + s` if `i < n`
narrow_below :
    (e e' : Encoding) (i n s : ℕ)
    → size e ≤ size e'
    → i < n
    → i * size e + size e ≤ (n + s) * size e'
narrow_below e e' i n s h k = grind arith

-- what the loop has done to the block from `s` to `s'`
record Upgraded (n shift : ℕ) (enc e : Encoding) (s s' : Intset) : Type 0 where
  same_encoding : s'.encoding ≡ s.encoding
  same_length : s'.length ≡ s.length
  same_block : s'.allocated ≡ s.allocated
  bytes : (a : ℕ) → s'.contents a < 256
  moved : (i : ℕ) → i < n → slot e s'.contents (i + shift) ≡ slot enc s.contents i
  rest : (q : ℕ) → n + shift ≤ q → slot e s'.contents q ≡ slot e s.contents q

upgrade_loop-Upgraded :
    (n shift : ℕ) (enc e : Encoding) (s : Intset)
    → size enc ≤ size e
    → s.encoding ≡ e
    → ((a : ℕ) → s.contents a < 256)
    → Upgraded n shift enc e s (upgrade_loop n shift enc s)
unfolding upgrade_loop
upgrade_loop-Upgraded zero shift enc e s w same b = record {
  same_encoding = refl;
  same_length = refl;
  same_block = refl;
  bytes = b;
  moved = λ i h. absurd (omega arith);
  rest = λ q h. refl;
}
upgrade_loop-Upgraded (suc n) shift enc e s w same b =
    let m = s.contents in
    let x : ℤ = slot enc m n in
    let m1 : Bytes = put e m (n + shift) x in
    let s1 : Intset = record s { contents = m1 } in
    let eq : set_at s (n + shift) (get_encoded s n enc) ≡ s1 =
      rw (get_encoded-slot, set_at-put, same) in
    let u = upgrade_loop-Upgraded n shift enc e s1 w same (put-lt e m _ x b) in
    let f : Fits (size e) x = Fits-mono enc e x w (slot-Fits enc m n b) in
    rw eq (record {
      same_encoding = u.same_encoding;
      same_length = u.same_length;
      same_block = u.same_block;
      bytes = u.bytes;
      moved = λ i h. elim (dec_lt i n) [
        | yes p ↦
            u.moved i p
            ∙ slot-put_disjoint e enc m (n + shift) i x (inl (narrow_below enc e i n shift w p))
        | no p ↦
            let last : i ≡ n = omega arith in
            rw last (u.rest (n + shift) (omega arith) ∙ slot-put_self e m (n + shift) x f)
      ];
      rest = λ q h. u.rest q (omega arith) ∙ slot-put_ne e m (n + shift) q x (omega arith);
    })

-- where the new value goes, and by how much the others move
abbrev Place : Intset → ℕ → ℕ → Type 0
Place is p shift = ((p ≡ 0) × (shift ≡ 1)) ⊎ ((p ≡ is.length) × (shift ≡ 0))

abbrev widened : Intset → ℤ → Intset
widened is v = record is {
  encoding = value_encoding v;
  allocated = u32 (u32 (is.length + 1) * size (value_encoding v));
}

abbrev completed : Intset → ℕ → ℤ → Intset
completed s p v = let full = set_at s p v in record full { length = u32 (full.length + 1) }

completed-Grows :
    (is : Intset) (p shift : ℕ) (v : ℤ) (s : Intset)
    → is.length < max_length
    → Fits 8 v
    → Place is p shift
    → Upgraded is.length shift is.encoding (value_encoding v) (widened is v) s
    → Grows is p v (completed s p v)
completed-Grows is p shift v s small f place u =
    let e : Encoding = value_encoding v in
    let is' : Intset = record {
      encoding = s.encoding;
      length = u32 (s.length + 1);
      contents = put s.encoding s.contents p v;
      allocated = s.allocated;
    } in
    let read : (q : ℕ) → get_at is' q ≡ slot e (put e s.contents p v) q =
      λ q. get_at-slot is' q ∙ ap (λ k. slot k (put k s.contents p v) q) u.same_encoding in
    let fe : Fits (size e) v = value_encoding-Fits e v f (omega arith) in
    rw set_at-put (record {
      longer = omega (arith, u.same_length);
      inserted = record {
        before = λ i h.
            let none_moved : i + shift ≡ i = omega arith in
            read i
            ∙ slot-put_ne e s.contents p i v (omega arith)
            ∙ (rw none_moved at (u.moved i (omega arith)))
            ∙ sym (get_at-slot is i);
        here = read p ∙ slot-put_self e s.contents p v fe;
        after = λ i h k.
            let all_moved : i + shift ≡ i + 1 = omega arith in
            read (i + 1)
            ∙ slot-put_ne e s.contents p (i + 1) v (omega arith)
            ∙ (rw all_moved at (u.moved i k))
            ∙ sym (get_at-slot is i);
      };
      bytes = put-lt s.encoding s.contents p v u.bytes;
      fits_block =
          rw
            (
              u.same_encoding,
              u.same_block,
              u.same_length,
              product_small e (is.length + 1) (omega arith),
            )
            (ap (λ k. k * size e) (omega arith));
    })

abbrev pub upgrade_place : Intset → ℤ → ℕ
upgrade_place is v = if ltb_ℤ v (pos 0) then 0 else is.length

module _ (is : Intset) (v : ℤ) (valid : IsValid is) (small : is.length < max_length) (f : Fits 8 v)
    (narrow : size is.encoding < size (value_encoding v)) where
  loop :
      (shift : ℕ)
      → Upgraded is.length shift is.encoding
          (value_encoding v)
          (widened is v)
          (upgrade_loop is.length shift is.encoding (widened is v))
  loop shift =
      upgrade_loop-Upgraded is.length shift is.encoding (value_encoding v) (widened is v)
        (omega arith) refl valid.bytes

  pub upgrade_and_add-Grows : Grows is (upgrade_place is v) v (upgrade_and_add is v)
  unfolding upgrade_and_add
  upgrade_and_add-Grows = elim (Bool-cases (ltb_ℤ v (pos 0))) [
    | inl negative ↦ rw negative (completed-Grows is 0 1 v _ small f (inl (refl, refl)) (loop 1))
    | inr other ↦ rw other (completed-Grows is is.length 0 v _ small f (inr (refl, refl)) (loop 0))
  ]

  outside : (i : ℕ) → ((v <ℤ pos 0) × (v <ℤ get_at is i)) ⊎ ((pos 0 <ℤ v) × (get_at is i <ℤ v))
  outside i = rw get_at-slot (
      value_encoding-outside is.encoding v _ narrow
        (slot-Fits is.encoding is.contents i valid.bytes))

  pub upgrade-Gap : Gap is v (upgrade_place is v)
  upgrade-Gap = elim (Bool-cases (ltb_ℤ v (pos 0))) [
    | inl negative ↦ rw negative (record {
      within = omega arith;
      below = λ i h. absurd (omega arith);
      above = λ i h k. ground (arith, outside i);
    })
    | inr other ↦ rw other (record {
      within = omega arith;
      below = λ i h. ground (arith, outside i);
      above = λ i h k. absurd (omega arith);
    })
  ]
