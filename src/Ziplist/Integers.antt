-- ===== src/Ziplist/Integers.antt =====
-- Integers in the entries of a ziplist: what is saved under the smallest encoding is read back.
use Prim.Native.Nat.{bit_and}
use my_node_redis.Prelude.{
  ℕ, suc, ◌+◌, ◌-◌, ◌*◌, ◌/◌, ◌^◌, ◌≤◌, ◌<◌, ◌≡◌, ◌⊎◌, Bool, true, false, ◌&&◌, if◌then◌else◌, some,
  refl, arith, ap,
}
use my_node_redis.Prelude.Int.{ℤ, pos, negsuc, pos_part, leb_ℤ}
use my_node_redis.Memory.{Bytes, read_word, write_word, to_word, of_word}
use my_node_redis.Memory.Laws.{
  Fits, read_word_congr, write_word_outside, read-write_self, to_word-lt, of_word-to_word,
}
use my_node_redis.Memory.And.{and_15}
use my_node_redis.Ziplist.{
  zip_int_8b, zip_int_16b, zip_int_24b, zip_int_32b, zip_int_64b, zip_int_size, int_encoding,
  shift_left_8, shift_right_8, zip_save_integer, zip_load_integer,
}
use my_node_redis.Ziplist.Reads.{Same}

-- A value is saved under an encoding: in the bytes that the encoding takes, from where it is read.
pub record Saves (p : ℕ) (v : ℤ) (enc : ℕ) (m : Bytes) : Type 0 where
  pub after : Bytes
  pub done : zip_save_integer p v enc m ≡ some after
  pub reads :
      (n : Bytes) → Same p (p + zip_int_size enc) n after → zip_load_integer p enc n ≡ some v
  pub outside : (c : ℕ) → (c < p) ⊎ (p + zip_int_size enc ≤ c) → after c ≡ m c

module _ (p : ℕ) (v : ℤ) (m : Bytes) where
  read-written :
      (w : ℕ) (n : Bytes)
      → 0 < 256 ^ w
      → Fits w v
      → Same p (p + w) n (write_word w (to_word w v) p m)
      → of_word w (read_word w n p) ≡ v
  read-written w n h fits same =
      rw
        (
          read_word_congr w p n (write_word w (to_word w v) p m) same,
          read-write_self w (to_word w v) p m (to_word-lt w v h),
        )
        (of_word-to_word w v fits)

  Saves-8b : Fits 1 v → Saves p v zip_int_8b m
  unfolding zip_save_integer zip_load_integer zip_int_size
  Saves-8b fits = record {
    after = write_word 1 (to_word 1 v) p m;
    done = refl;
    reads = λ n same. ap (λ x. some x) (read-written 1 n (omega arith) fits same);
    outside = λ c h. write_word_outside 1 (to_word 1 v) p c m h;
  }

  Saves-16b : Fits 2 v → Saves p v zip_int_16b m
  unfolding zip_save_integer zip_load_integer zip_int_size
  Saves-16b fits = record {
    after = write_word 2 (to_word 2 v) p m;
    done = refl;
    reads = λ n same. ap (λ x. some x) (read-written 2 n (omega arith) fits same);
    outside = λ c h. write_word_outside 2 (to_word 2 v) p c m h;
  }

  Saves-32b : Fits 4 v → Saves p v zip_int_32b m
  unfolding zip_save_integer zip_load_integer zip_int_size
  Saves-32b fits = record {
    after = write_word 4 (to_word 4 v) p m;
    done = refl;
    reads = λ n same. ap (λ x. some x) (read-written 4 n (omega arith) fits same);
    outside = λ c h. write_word_outside 4 (to_word 4 v) p c m h;
  }

  Saves-64b : Fits 8 v → Saves p v zip_int_64b m
  unfolding zip_save_integer zip_load_integer zip_int_size
  Saves-64b fits = record {
    after = write_word 8 (to_word 8 v) p m;
    done = refl;
    reads = λ n same. ap (λ x. some x) (read-written 8 n (omega arith) fits same);
    outside = λ c h. write_word_outside 8 (to_word 8 v) p c m h;
  }

-- The three upper bytes of a shifted word are those of the value.
shifted-low :
    (v : ℤ) → Fits 3 v → 256 * (to_word 4 (shift_left_8 v) / 256) ≡ to_word 4 (shift_left_8 v)
unfolding to_word
shifted-low (pos n) h = omega arith
shifted-low (negsuc n) h = omega arith

shift-back : (v : ℤ) → shift_right_8 (shift_left_8 v) ≡ v
shift-back (pos n) = ap pos (omega arith)
shift-back (negsuc n) = ap negsuc (omega arith)

shifted-Fits : (v : ℤ) → Fits 3 v → Fits 4 (shift_left_8 v)
shifted-Fits (pos n) h = omega arith
shifted-Fits (negsuc n) h = omega arith

module _ (p : ℕ) (v : ℤ) (m : Bytes) where
  Saves-24b : Fits 3 v → Saves p v zip_int_24b m
  unfolding zip_save_integer zip_load_integer zip_int_size
  Saves-24b fits =
      let w = shift_left_8 v in
      let u = to_word 4 w / 256 in
      let small : u < 256 ^ 3 = omega (arith, to_word-lt 4 w (omega arith)) in
      record {
        after = write_word 3 u p m;
        done = refl;
        reads = λ n same.
            rw
              (
                read_word_congr 3 p n (write_word 3 u p m) same,
                read-write_self 3 u p m small,
                shifted-low v fits,
                of_word-to_word 4 w (shifted-Fits v fits),
                shift-back v,
              )
              refl;
        outside = λ c h. write_word_outside 3 u p c m h;
      }

  Saves-immediate : (n : ℕ) → v ≡ pos n → n ≤ 12 → Saves p v (0xf1 + n) m
  unfolding zip_save_integer zip_load_integer zip_int_size
  Saves-immediate n h small =
      let low : bit_and (0xf1 + n) 0x0f - 1 ≡ n = omega (arith, and_15 (0xf1 + n)) in
      record {
        after = m;
        done = ground arith;
        reads = λ k same. rw (h, ← low) (ground arith);
        outside = λ c o. refl;
      }

-- The range test of an encoding of `w` bytes, with `k` the half of its range
ranged-Fits :
    (w k : ℕ) (v : ℤ)
    → 2 * suc k ≡ 256 ^ w
    → (leb_ℤ (negsuc k) v && leb_ℤ v (pos k)) ≡ true
    → Fits w v
ranged-Fits w k (pos n) h t = ground arith
ranged-Fits w k (negsuc n) h t = ground arith

pub immediate_part :
    (v : ℤ)
    → (leb_ℤ (pos 0) v && leb_ℤ v (pos 12)) ≡ true
    → (v ≡ pos (pos_part v)) × (pos_part v ≤ 12)
immediate_part (pos n) h = (refl, ground arith)
immediate_part (negsuc n) h = absurd (ground arith)

module _ (p : ℕ) (v : ℤ) (m : Bytes) where
  choose-Saves :
      (b : Bool) (x y : ℕ)
      → (b ≡ true → Saves p v x m)
      → (b ≡ false → Saves p v y m)
      → Saves p v (if b then x else y) m
  choose-Saves true x y f g = f refl
  choose-Saves false x y f g = g refl

  -- `zipSaveInteger` of an integer of 64 bits under the encoding that `zipTryEncoding` chooses does
  -- not fail, and `zipLoadInteger` reads it back while the bytes that `zipIntSize` counts stay as
  -- they are. Memory outside these bytes is unchanged.
  pub zip_save_integer-Saves : Fits 8 v → Saves p v (int_encoding v) m
  unfolding int_encoding
  zip_save_integer-Saves fits =
      choose-Saves _ _ _
        (λ h. let i = immediate_part v h in Saves-immediate p v m (pos_part v) (i.0) (i.1))
        (λ h.
          choose-Saves _ _ _ (λ h8. Saves-8b p v m (ranged-Fits 1 (2 ^ 7 - 1) v refl h8))
            (λ h.
              choose-Saves _ _ _ (λ h16. Saves-16b p v m (ranged-Fits 2 (2 ^ 15 - 1) v refl h16))
                (λ h.
                  choose-Saves _ _ _
                    (λ h24. Saves-24b p v m (ranged-Fits 3 (2 ^ 23 - 1) v refl h24))
                    (λ h.
                      choose-Saves _ _ _
                        (λ h32. Saves-32b p v m (ranged-Fits 4 (2 ^ 31 - 1) v refl h32))
                        (λ h. Saves-64b p v m fits)))))
