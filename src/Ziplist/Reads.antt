-- ===== src/Ziplist/Reads.antt =====
-- Reading back a buffer that was copied into memory, and the masks of the encodings.
use Prim.Native.Nat.{bit_and}
use my_node_redis.Prelude.{
  ℕ, zero, suc, ◌+◌, ◌*◌, ◌/◌, ◌≤◌, ◌<◌, ◌≡◌, ◌⊎◌, ◌==◌, ==_iff, true, List, [], ◌∷◌, length,
  get_or, refl, arith,
}
use my_node_redis.Memory.{Bytes}
use my_node_redis.Memory.Table.{holds_below, holds_at}
use my_node_redis.Ziplist.{store}

-- Two memories are the same from one address up to another.
abbrev pub Same : ℕ → ℕ → Bytes → Bytes → Type 0
Same lo hi m n = (c : ℕ) → lo ≤ c → c < hi → m c ≡ n c

pub store-inside :
    (l : List ℕ) (p i : ℕ) (m : Bytes) → i < length l → store p l m (p + i) ≡ get_or l i 0
unfolding store
store-inside [] p i m h = absurd (omega arith)
store-inside (b ∷ l) p zero m h = ground arith
store-inside (b ∷ l) p (suc i) m h =
    let next : p + suc i ≡ p + 1 + i = omega arith in
    rw next (ground (arith, store-inside l (p + 1) i m))

pub store-outside :
    (l : List ℕ) (p c : ℕ) (m : Bytes) → (c < p) ⊎ (p + length l ≤ c) → store p l m c ≡ m c
unfolding store
store-outside [] p c m h = refl
store-outside (b ∷ l) p c m h = ground (arith, store-outside l (p + 1) c m)

mask_table : holds_below (λ b. bit_and b 0xc0 == b / 64 * 64) 256 ≡ true
unfolding holds_below
mask_table = refl

-- The mask of the encodings of strings, at a byte
pub and_192 : (b : ℕ) → b < 256 → bit_and b 0xc0 ≡ b / 64 * 64
and_192 b h = (==_iff _ _).0 (holds_at _ 256 b h mask_table)
