-- ===== src/Rdb/Tests.antt =====
-- Runs of the dump format, and the theorems about it at these values.
use mathlib.Core.Option.{some-injective}
use my_node_redis.Prelude.{
  ℕ, ◌≡◌, refl, some, none, true, false, Bool, arith, ◌∷◌, [], ◌++◌, length, replicate, ltb, ◌==◌,
  ==_iff, ◌&&◌, if◌then◌else◌, Option, Bool-cases, inl, inr, ap, ◌≤◌, ◌+◌,
}
use my_node_redis.Prelude.Int.{pos, negsuc}
use my_node_redis.Numbers.{Text}
use my_node_redis.Rdb.{
  Rio, External, load_len, save_len, load_string, encode_integer, object, made, raw_object,
  save_object,
}
use my_node_redis.Rdb.Lengths.{IsOpen, load_len-save_len, loaded, image, put, save_len-unnoticed}
use my_node_redis.Rdb.Stored.{Undoes, Stored}
use my_node_redis.Rdb.Strings.{content, raw_IsStorable, save_object-Stored}
use my_node_redis.Rdb.Integers.{load_string-encode_integer}

-- a C library that reads no number and a compressor that gives up
abbrev plain : External
plain = record { strtoll = λ s. (pos 0, false); compress = λ s n. none; decompress = λ s n. none }

abbrev empty_file : Rio
empty_file = record { null = false; written = []; accepts = λ w p. true }

empty_file-IsOpen : IsOpen empty_file
empty_file-IsOpen = record { present = refl; takes = λ w p. refl }

load_string-encode_integer_example :
    load_string plain true (encode_integer (negsuc 300) ++ 7 ∷ [])
    ≡ object (made true (negsuc 300)) (7 ∷ [])
load_string-encode_integer_example =
    load_string-encode_integer plain true (negsuc 300) (7 ∷ []) refl

-- a compressor of texts that repeat one byte
constant : ℕ → Text → Bool
constant c [] = true
constant c (x ∷ s) = x == c && constant c s

shrink : Text → ℕ → Option Text
unfolding constant
shrink [] n = none
shrink (c ∷ s) n = if constant c (c ∷ s) && ltb 0 n then some (c ∷ []) else none

stretch : Text → ℕ → Option Text
stretch [] n = none
stretch (c ∷ s) n = some (replicate n c)

abbrev packing : External
packing = record { strtoll = λ s. (pos 0, false); compress = shrink; decompress = stretch }

constant-replicate : (c : ℕ) (s : Text) → constant c s ≡ true → replicate (length s) c ≡ s
unfolding constant
constant-replicate c [] h = refl
constant-replicate c (x ∷ s) h = elim (Bool-cases (x == c)) [
  | inl e ↦ rw ((==_iff _ _).0 e, constant-replicate c s (rw e at h))
  | inr e ↦ cc (rw e at h)
]

shrink-bounded : (s : Text) (n : ℕ) (c : Text) → shrink s n ≡ some c → length c ≤ n
unfolding shrink
shrink-bounded [] n c e = cc
shrink-bounded (x ∷ s) n c e = elim (Bool-cases (constant x (x ∷ s) && ltb 0 n)) [
  | inr other ↦ cc (rw other at e)
  | inl same ↦ rw (← some-injective _ _ (rw same at e)) (ground arith)
]

stretch-shrink : (s : Text) (n : ℕ) (c : Text) → shrink s n ≡ some c → stretch c (length s) ≡ some s
unfolding shrink stretch
stretch-shrink [] n c e = cc
stretch-shrink (x ∷ s) n c e = elim (Bool-cases (constant x (x ∷ s) && ltb 0 n)) [
  | inr other ↦ cc (rw other at e)
  | inl same ↦
      rw (← some-injective _ _ (rw same at e))
        (ap some (constant-replicate x (x ∷ s) (ground arith)))
]

packing-Undoes : Undoes packing
packing-Undoes = record { bounded = shrink-bounded; undone = stretch-shrink }

save_object-Stored_example :
    Stored packing
      (save_object packing true (raw_object (replicate 30 b'a')))
      (content (raw_object (replicate 30 b'a')))
save_object-Stored_example =
    save_object-Stored packing packing-Undoes true (raw_object (replicate 30 b'a'))
      (raw_IsStorable (replicate 30 b'a') (omega arith))

load_len-save_len_example :
    (save_len 300 empty_file ≡ (some (length (image 300)), put (image 300) empty_file))
    × (load_len (image 300 ++ 9 ∷ []) ≡ loaded 300 (9 ∷ []))
load_len-save_len_example =
    load_len-save_len 300 empty_file (9 ∷ []) empty_file-IsOpen (omega arith)

-- a device with room for one byte
abbrev full_disk : Rio
full_disk = record { null = false; written = []; accepts = λ w p. ltb (length w + length p) 2 }

save_len-unnoticed_example : save_len 20000 full_disk ≡ (some 5, put (128 ∷ []) full_disk)
save_len-unnoticed_example = save_len-unnoticed 20000 full_disk refl (omega arith) refl refl
