-- ===== src/Intset/Slots.antt =====
-- The array in the block: what a read of one element sees after a write or a move of others, and
-- which integers an encoding holds.
use my_node_redis.Prelude.{ℕ, ◌+◌, ◌*◌, ◌^◌, ◌≤◌, ◌<◌, ◌≡◌, ◌≢◌, ◌⊎◌, refl, arith, ap}
use my_node_redis.Prelude.Int.{ℤ, ◌<ℤ◌, pos}
use my_node_redis.Memory.{Bytes, read_word, write_word, to_word, of_word}
use my_node_redis.Memory.Laws.{
  Fits, read-write_disjoint, read-write_self, read_word-lt, write_word-lt, to_word-lt,
  of_word-to_word, of_word-Fits,
}
use my_node_redis.Intset.{
  Encoding, int16, int32, int64, size, Intset, value_encoding, get_encoded, get_at, set_at, store,
}

abbrev pub slot : Encoding → Bytes → ℕ → ℤ
slot e m p = of_word (size e) (read_word (size e) m (p * size e))

pub get_encoded-slot :
    (is : Intset) (p : ℕ) (e : Encoding) → get_encoded is p e ≡ slot e is.contents p
unfolding get_encoded
get_encoded-slot is p int16 = refl
get_encoded-slot is p int32 = refl
get_encoded-slot is p int64 = refl

pub get_at-slot : (is : Intset) (p : ℕ) → get_at is p ≡ slot is.encoding is.contents p
unfolding get_at
get_at-slot is p = get_encoded-slot is p is.encoding

abbrev pub put : Encoding → Bytes → ℕ → ℤ → Bytes
put e m p v = write_word (size e) (to_word (size e) v) (p * size e) m

store-put : (e : Encoding) (m : Bytes) (p : ℕ) (v : ℤ) → store e m p v ≡ put e m p v
unfolding store
store-put int16 m p v = refl
store-put int32 m p v = refl
store-put int64 m p v = refl

pub set_at-put :
    (is : Intset) (p : ℕ) (v : ℤ)
    → set_at is p v ≡ record is { contents = put is.encoding is.contents p v }
unfolding set_at
set_at-put is p v = ap (λ c. record is { contents = c }) (store-put is.encoding is.contents p v)

-- A word of each encoding holds at least a byte.
pub wide : (e : Encoding) → (1 < 256 ^ size e) × (0 < size e)
wide int16 = omega arith
wide int32 = omega arith
wide int64 = omega arith

pub slot-put_self :
    (e : Encoding) (m : Bytes) (p : ℕ) (v : ℤ) → Fits (size e) v → slot e (put e m p v) p ≡ v
slot-put_self e m p v h =
    rw
      (read-write_self (size e) (to_word (size e) v) (p * size e) m
        (to_word-lt (size e) v (omega (arith, wide e))))
      (of_word-to_word (size e) v h)

pub slot-put_disjoint :
    (e e' : Encoding) (m : Bytes) (p q : ℕ) (v : ℤ)
    → (q * size e' + size e' ≤ p * size e) ⊎ (p * size e + size e ≤ q * size e')
    → slot e' (put e m p v) q ≡ slot e' m q
slot-put_disjoint e e' m p q v h =
    ap (of_word (size e')) (read-write_disjoint (size e') _ (size e) _ _ m h)

pub slots_apart : (e : Encoding) (p q : ℕ) → p < q → p * size e + size e ≤ q * size e
slots_apart e p q h = grind arith

pub slot-put_ne :
    (e : Encoding) (m : Bytes) (p q : ℕ) (v : ℤ) → p ≢ q → slot e (put e m p v) q ≡ slot e m q
slot-put_ne e m p q v h = slot-put_disjoint e e m p q v (apart e)
  where
    apart : (e : Encoding) → (q * size e + size e ≤ p * size e) ⊎ (p * size e + size e ≤ q * size e)
    apart int16 = omega arith
    apart int32 = omega arith
    apart int64 = omega arith

pub slot-Fits :
    (e : Encoding) (m : Bytes) (p : ℕ) → ((a : ℕ) → m a < 256) → Fits (size e) (slot e m p)
slot-Fits e m p h = of_word-Fits (size e) _ (wide e).0 (read_word-lt (size e) (p * size e) m h)

pub put-lt :
    (e : Encoding) (m : Bytes) (p : ℕ) (v : ℤ)
    → ((a : ℕ) → m a < 256)
    → (a : ℕ) → put e m p v a < 256
put-lt e m p v h a = write_word-lt (size e) _ _ m h a

-- A value fits the encodings that are at least as wide as the one chosen for it.
pub value_encoding-Fits :
    (e : Encoding) (v : ℤ) → Fits 8 v → size (value_encoding v) ≤ size e → Fits (size e) v
unfolding value_encoding
value_encoding-Fits int16 v f h = ground arith
value_encoding-Fits int32 v f h = ground arith
value_encoding-Fits int64 v f h = ground arith

pub Fits-value_encoding :
    (e : Encoding) (v : ℤ) → Fits (size e) v → size (value_encoding v) ≤ size e
unfolding value_encoding
Fits-value_encoding int16 v f = ground arith
Fits-value_encoding int32 v f = ground arith
Fits-value_encoding int64 v f = ground arith

-- What a wider encoding is needed for lies below or above everything that the narrower one holds.
pub value_encoding-outside :
    (e : Encoding) (v u : ℤ)
    → size e < size (value_encoding v)
    → Fits (size e) u
    → ((v <ℤ pos 0) × (v <ℤ u)) ⊎ ((pos 0 <ℤ v) × (u <ℤ v))
unfolding value_encoding
value_encoding-outside int16 v u h f = ground arith
value_encoding-outside int32 v u h f = ground arith
value_encoding-outside int64 v u h f = ground arith
