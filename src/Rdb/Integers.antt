-- ===== src/Rdb/Integers.antt =====
-- `rdbEncodeInteger` and `rdbLoadIntegerObject`.
use my_node_redis.Prelude.{
  ◌≤◌, ℕ, ◌^◌, ◌≡◌, ltb, Bool-cases, Bool, true, arith, ap, some, [], ◌∷◌, ◌++◌, length, inl, inr,
}
use my_node_redis.Prelude.Int.{ℤ, pos, negsuc}
use my_node_redis.Memory.{to_word, of_word}
use my_node_redis.Numbers.{Text}
use my_node_redis.Rdb.{
  encode_integer, load_integer, load_width, load_len, load_string, read, within, byte_of, little,
  object, made, External,
}

narrow1 : (v : ℤ) → within v (2 ^ 7) ≡ true → of_word 1 (little (byte_of v 0 ∷ [])) ≡ v
unfolding to_word of_word
narrow1 (pos n) h = ground arith
narrow1 (negsuc n) h = ground arith

narrow2 :
    (v : ℤ) → within v (2 ^ 15) ≡ true → of_word 2 (little (byte_of v 0 ∷ byte_of v 1 ∷ [])) ≡ v
unfolding to_word of_word
narrow2 (pos n) h = ground arith
narrow2 (negsuc n) h = ground arith

narrow4 :
    (v : ℤ)
    → within v (2 ^ 31) ≡ true
    → of_word 4 (little (byte_of v 0 ∷ byte_of v 1 ∷ byte_of v 2 ∷ byte_of v 3 ∷ [])) ≡ v
unfolding to_word of_word
narrow4 (pos n) h = ground arith
narrow4 (negsuc n) h = ground arith

-- `rdbEncodeInteger` produces bytes for exactly the integers of 32 bits.
pub length-encode_integer : (v : ℤ) → ltb 0 (length (encode_integer v)) ≡ within v (2 ^ 31)
unfolding encode_integer
length-encode_integer (pos n) = ground arith
length-encode_integer (negsuc n) = ground arith

pub length-encode_integer-le : (v : ℤ) → length (encode_integer v) ≤ 5
unfolding encode_integer
length-encode_integer-le v = ground arith

read_1 : (a : ℕ) (rest : Text) → read 1 (a ∷ rest) ≡ some (a ∷ [], rest)
unfolding read
read_1 a rest = ground arith

read_2 : (a b : ℕ) (rest : Text) → read 2 (a ∷ b ∷ rest) ≡ some (a ∷ b ∷ [], rest)
unfolding read
read_2 a b rest = ground arith

read_4 :
    (a b c d : ℕ) (rest : Text) → read 4 (a ∷ b ∷ c ∷ d ∷ rest) ≡ some (a ∷ b ∷ c ∷ d ∷ [], rest)
unfolding read
read_4 a b c d rest = ground arith

-- What `rdbEncodeInteger` writes for an integer of 32 bits is read back by
-- `rdbGenericLoadStringObject` as an object of this integer, and what is behind it is left.
pub load_string-encode_integer :
    (ext : External) (encode : Bool) (v : ℤ) (rest : Text)
    → within v (2 ^ 31) ≡ true
    → load_string ext encode (encode_integer v ++ rest) ≡ object (made encode v) rest
unfolding load_string encode_integer load_len load_integer load_width
load_string-encode_integer ext encode v rest h = elim (Bool-cases (within v (2 ^ 7))) [
  | inl one ↦
      rw (one, read_1 (byte_of v 0) rest) (ap (λ x. object (made encode x) rest) (narrow1 v one))
  | inr more ↦ elim (Bool-cases (within v (2 ^ 15))) [
    | inl two ↦
        rw (more, two, read_2 (byte_of v 0) (byte_of v 1) rest)
          (ap (λ x. object (made encode x) rest) (narrow2 v two))
    | inr most ↦
        rw (more, most, h, read_4 (byte_of v 0) (byte_of v 1) (byte_of v 2) (byte_of v 3) rest)
          (ap (λ x. object (made encode x) rest) (narrow4 v h))
  ]
]
