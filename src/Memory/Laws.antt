-- ===== src/Memory/Laws.antt =====
-- What a read sees after a write, and the round trip of two's complement.
use native.Mathlib.Nat.{mod-eq_of_lt, pow-suc}
use my_node_redis.Prelude.{
  ℕ, zero, suc, ◌+◌, ◌-◌, ◌*◌, ◌%◌, ◌/◌, ◌^◌, ◌≤◌, ◌<◌, ◌≡◌, ◌⊎◌, refl, arith,
}
use my_node_redis.Prelude.Int.{ℤ, pos, negsuc, pos_part, neg_part}
use my_node_redis.Memory.{Bytes, update, read_word, write_word, memmove, to_word, of_word}

-- The integers that `w` bytes of two's complement can hold.
abbrev pub Fits : ℕ → ℤ → Type 0
Fits w v = (2 * pos_part v < 256 ^ w) × (2 * neg_part v ≤ 256 ^ w)

pub read_word_congr :
    (w a : ℕ) (m m' : Bytes)
    → ((c : ℕ) → a ≤ c → c < a + w → m c ≡ m' c)
    → read_word w m a ≡ read_word w m' a
unfolding read_word
read_word_congr zero a m m' h = refl
read_word_congr (suc w) a m m' h = omega (
  arith,
  h a (omega arith) (omega arith),
  read_word_congr w (a + 1) m m' (λ c p q. h c (omega arith) (omega arith)),
)

pub write_word_outside :
    (w v a c : ℕ) (m : Bytes) → (c < a) ⊎ (a + w ≤ c) → write_word w v a m c ≡ m c
unfolding write_word
write_word_outside zero v a c m h = refl
write_word_outside (suc w) v a c m h = ground (arith, write_word_outside w (v / 256) (a + 1) c m)

pub read-write_disjoint :
    (w a w' v b : ℕ) (m : Bytes)
    → (a + w ≤ b) ⊎ (b + w' ≤ a)
    → read_word w (write_word w' v b m) a ≡ read_word w m a
read-write_disjoint w a w' v b m h =
    read_word_congr w a _ m (λ c p q. write_word_outside w' v b c m (omega arith))

update_outside : (m : Bytes) (a x c : ℕ) → a < c → update m a x c ≡ m c
unfolding update
update_outside m a x c h = ground arith

pub read-write_self : (w v a : ℕ) (m : Bytes) → v < 256 ^ w → read_word w (write_word w v a m) a ≡ v
unfolding read_word write_word
read-write_self zero v a m h = omega arith
read-write_self (suc w) v a m h =
    let fits : v / 256 < 256 ^ w = omega (arith, pow-suc 256 w) in
    let tail : read_word w (write_word (suc w) v a m) (a + 1) ≡ v / 256 =
      rw
        (read_word_congr w (a + 1) (write_word (suc w) v a m) (write_word w (v / 256) (a + 1) m)
          (λ c p q. update_outside (write_word w (v / 256) (a + 1) m) a (v % 256) c (omega arith)))
        (read-write_self w (v / 256) (a + 1) m fits) in
    rw tail (ground arith)

pub read_word-lt : (w a : ℕ) (m : Bytes) → ((c : ℕ) → m c < 256) → read_word w m a < 256 ^ w
unfolding read_word
read_word-lt zero a m h = omega arith
read_word-lt (suc w) a m h = omega (arith, pow-suc 256 w, h a, read_word-lt w (a + 1) m h)

pub write_word-lt :
    (w v a : ℕ) (m : Bytes) → ((c : ℕ) → m c < 256) → (c : ℕ) → write_word w v a m c < 256
unfolding write_word
write_word-lt zero v a m h c = h c
write_word-lt (suc w) v a m h c = ground (arith, write_word-lt w (v / 256) (a + 1) m h c)

pub memmove-lt : (d s n : ℕ) (m : Bytes) → ((c : ℕ) → m c < 256) → (c : ℕ) → memmove d s n m c < 256
unfolding memmove
memmove-lt d s n m h c = ground (arith, h c, h (c - d + s))

-- A word inside the destination is the word at its place in the source.
pub read-memmove_inside :
    (w a d s n : ℕ) (m : Bytes)
    → d ≤ a
    → a + w ≤ d + n
    → read_word w (memmove d s n m) a ≡ read_word w m (a - d + s)
unfolding read_word memmove
read-memmove_inside zero a d s n m p q = refl
read-memmove_inside (suc w) a d s n m p q =
    let next : a + 1 - d + s ≡ a - d + s + 1 = omega arith in
    let tail : read_word w (memmove d s n m) (a + 1) ≡ read_word w m (a - d + s + 1) =
      rw next at (read-memmove_inside w (a + 1) d s n m (omega arith) (omega arith)) in
    rw tail (ground arith)

pub read-memmove_outside :
    (w a d s n : ℕ) (m : Bytes)
    → (a + w ≤ d) ⊎ (d + n ≤ a)
    → read_word w (memmove d s n m) a ≡ read_word w m a
unfolding memmove
read-memmove_outside w a d s n m h = read_word_congr w a _ m (λ c p q. ground arith)

pub to_word-lt : (w : ℕ) (v : ℤ) → 0 < 256 ^ w → to_word w v < 256 ^ w
unfolding to_word
to_word-lt w (pos n) h = grind arith
to_word-lt w (negsuc n) h = omega arith

-- An integer that fits is read back.
pub of_word-to_word : (w : ℕ) (v : ℤ) → Fits w v → of_word w (to_word w v) ≡ v
unfolding of_word to_word
of_word-to_word w (pos n) h = ground (arith, mod-eq_of_lt {n = n} {m = 256 ^ w})
of_word-to_word w (negsuc n) h = ground (arith, mod-eq_of_lt {n = n} {m = 256 ^ w})

pub of_word-Fits : (w u : ℕ) → 1 < 256 ^ w → u < 256 ^ w → Fits w (of_word w u)
unfolding of_word
of_word-Fits w u p h = ground arith
