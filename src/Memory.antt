-- ===== src/Memory.antt =====
-- Byte-addressed memory: little-endian words of a given number of bytes, two's complement, and
-- `memmove`. It stands for the casts and block moves of intset.c on a little-endian machine.
pub mod Laws
pub mod Blocks
pub mod Or
pub mod Table
pub mod And
use my_node_redis.Prelude.{
  ℕ, zero, suc, ◌+◌, ◌-◌, ◌*◌, ◌%◌, ◌/◌, ◌^◌, ltb, leb, ◌==◌, ◌&&◌, if◌then◌else◌,
}
use my_node_redis.Prelude.Int.{ℤ, pos, negsuc}

-- A block of memory by its byte addresses.
abbrev pub Bytes : Type 0
Bytes = ℕ → ℕ

unfoldable pub update : Bytes → ℕ → ℕ → Bytes
update m a x b = if b == a then x else m b

unfoldable pub read_word : ℕ → Bytes → ℕ → ℕ
read_word zero m a = 0
read_word (suc w) m a = m a + 256 * read_word w m (a + 1)

unfoldable pub write_word : ℕ → ℕ → ℕ → Bytes → Bytes
unfolding update
write_word zero v a m = m
write_word (suc w) v a m = update (write_word w (v / 256) (a + 1) m) a (v % 256)

-- `memmove(dst, src, n)` within one block: all of the source is read before a byte is written.
unfoldable pub memmove : ℕ → ℕ → ℕ → Bytes → Bytes
memmove dst src n m a = if leb dst a && ltb a (dst + n) then m (a - dst + src) else m a

-- The `w`-byte two's complement pattern of an integer, as an assignment truncates it.
unfoldable pub to_word : ℕ → ℤ → ℕ
to_word w (pos n) = n % 256 ^ w
to_word w (negsuc n) = 256 ^ w - 1 - n % 256 ^ w

unfoldable pub of_word : ℕ → ℕ → ℤ
of_word w u = if ltb (2 * u) (256 ^ w) then pos u else negsuc (256 ^ w - 1 - u)
