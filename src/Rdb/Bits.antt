-- ===== src/Rdb/Bits.antt =====
-- The bit operations of the length format, as arithmetic on bytes.
use Prim.Native.Nat.{bit_and, bit_or}
use my_node_redis.Memory.Table.{holds_below, holds_at}
use my_node_redis.Prelude.{ℕ, ◌+◌, ◌*◌, ◌/◌, ◌%◌, ◌<◌, ◌≡◌, ◌==◌, ==_iff, true, refl}

table_kind : holds_below (λ b. bit_and b 0xc0 / 64 == b / 64) 256 ≡ true
unfolding holds_below
table_kind = refl

table_low6 : holds_below (λ b. bit_and b 0x3f == b % 64) 256 ≡ true
unfolding holds_below
table_low6 = refl

table_byte : holds_below (λ b. bit_and b 0xff == b % 256) 16384 ≡ true
unfolding holds_below
table_byte = refl

table_tag0 : holds_below (λ b. bit_or b 0 == b) 64 ≡ true
unfolding holds_below
table_tag0 = refl

table_tag1 : holds_below (λ b. bit_or b 64 == b + 64) 64 ≡ true
unfolding holds_below
table_tag1 = refl

table_join : holds_below (λ a. holds_below (λ b. bit_or (a * 256) b == a * 256 + b) 256) 64 ≡ true
unfolding holds_below
table_join = refl

pub kind : (b : ℕ) → b < 256 → bit_and b 0xc0 / 64 ≡ b / 64
kind b h = (==_iff _ _).0 (holds_at _ 256 b h table_kind)

pub low6 : (b : ℕ) → b < 256 → bit_and b 0x3f ≡ b % 64
low6 b h = (==_iff _ _).0 (holds_at _ 256 b h table_low6)

pub byte : (b : ℕ) → b < 16384 → bit_and b 0xff ≡ b % 256
byte b h = (==_iff _ _).0 (holds_at _ 16384 b h table_byte)

pub tag0 : (b : ℕ) → b < 64 → bit_or b 0 ≡ b
tag0 b h = (==_iff _ _).0 (holds_at _ 64 b h table_tag0)

pub tag1 : (b : ℕ) → b < 64 → bit_or b 64 ≡ b + 64
tag1 b h = (==_iff _ _).0 (holds_at _ 64 b h table_tag1)

pub join : (a b : ℕ) → a < 64 → b < 256 → bit_or (a * 256) b ≡ a * 256 + b
join a b h k = (==_iff _ _).0 (holds_at _ 256 b k (holds_at _ 64 a h table_join))
