-- ===== src/Ziplist.antt =====
-- redis/src/ziplist.c: the entries of a ziplist, byte by byte. A pointer stands for an address, the
-- machine is little endian, so the `memrev` calls do nothing. `none` is an assertion that fails.
pub mod Reads
pub mod Integers
pub mod Lengths
pub mod Entry
pub mod Walk
pub mod Index
pub mod Neighbours
pub mod Encodings
pub mod Contents
pub mod Entries
pub mod Tests
use Prim.Native.Nat.{bit_and, bit_or}
use my_node_redis.Prelude.{
  ℕ, zero, suc, ◌+◌, ◌-◌, ◌*◌, ◌/◌, ◌%◌, ◌^◌, ◌==◌, ltb, leb, Bool, true, false, not, ◌&&◌, ◌||◌,
  if◌then◌else◌, Option, none, some, List, [], ◌∷◌, length,
}
use my_node_redis.Prelude.Int.{ℤ, pos, negsuc, pos_part, leb_ℤ}
use my_node_redis.Memory.{Bytes, update, read_word, write_word, to_word, of_word}
use my_node_redis.Numbers.{string2ll}

-- ZIP_INT_8B, 16B, 24B, 32B and 64B
abbrev pub zip_int_8b : ℕ
zip_int_8b = 0xfe

abbrev pub zip_int_16b : ℕ
zip_int_16b = 0xc0

abbrev pub zip_int_24b : ℕ
zip_int_24b = 0xf0

abbrev pub zip_int_32b : ℕ
zip_int_32b = 0xd0

abbrev pub zip_int_64b : ℕ
zip_int_64b = 0xe0

-- ZIP_IS_STR
abbrev pub zip_is_str : ℕ → Bool
zip_is_str enc = ltb (bit_and enc 0xc0) 0xc0

-- `zipIntSize`
unfoldable pub zip_int_size : ℕ → ℕ
zip_int_size enc =
    if enc == zip_int_8b
    then 1
    else if enc == zip_int_16b
    then 2
    else if enc == zip_int_24b
    then 3
    else if enc == zip_int_32b
    then 4
    else if enc == zip_int_64b
    then 8
    else 0

-- `memcpy` of a buffer
unfoldable pub store : ℕ → List ℕ → Bytes → Bytes
unfolding update
store p [] m = m
store p (b ∷ l) m = update (store (p + 1) l m) p b

-- the buffer of `zipEncodeLength`
unfoldable pub length_bytes : ℕ → ℕ → List ℕ
length_bytes enc rawlen =
    if zip_is_str enc
    then (if leb rawlen 0x3f
        then bit_or 0 rawlen ∷ []
        else if leb rawlen 0x3fff
        then bit_or 0x40 (bit_and (rawlen / 2 ^ 8) 0x3f) ∷ bit_and rawlen 0xff ∷ []
        else 0x80
          ∷ bit_and (rawlen / 2 ^ 24) 0xff
          ∷ bit_and (rawlen / 2 ^ 16) 0xff
          ∷ bit_and (rawlen / 2 ^ 8) 0xff
          ∷ bit_and rawlen 0xff
          ∷ [])
    else enc ∷ []

-- `zipEncodeLength`; the number of bytes is what it answers for NULL
unfoldable pub zip_encode_length : ℕ → ℕ → ℕ → Bytes → Bytes × ℕ
unfolding store length_bytes
zip_encode_length p enc rawlen m =
    (store p (length_bytes enc rawlen) m, length (length_bytes enc rawlen))

-- ZIP_ENTRY_ENCODING
unfoldable pub zip_entry_encoding : ℕ → Bytes → ℕ
zip_entry_encoding p m = if ltb (m p) 0xc0 then bit_and (m p) 0xc0 else m p

pub record Length : Type 0 where
  pub encoding : ℕ
  pub lensize : ℕ
  pub len : ℕ

-- ZIP_DECODE_LENGTH
unfoldable pub zip_decode_length : ℕ → Bytes → Option Length
zip_decode_length p m =
    let enc = zip_entry_encoding p m in
    if ltb enc 0xc0
    then (if enc == 0
        then some (record { encoding = enc; lensize = 1; len = bit_and (m p) 0x3f })
        else if enc == 0x40
        then some (record {
          encoding = enc;
          lensize = 2;
          len = bit_or (bit_and (m p) 0x3f * 2 ^ 8) (m (p + 1));
        })
        else if enc == 0x80
        then some (record {
          encoding = enc;
          lensize = 5;
          len =
              bit_or (bit_or (bit_or (m (p + 1) * 2 ^ 24) (m (p + 2) * 2 ^ 16)) (m (p + 3) * 2 ^ 8))
                (m (p + 4));
        })
        else none)
    else some (record { encoding = enc; lensize = 1; len = zip_int_size enc })

-- `zipPrevEncodeLength`, for NULL
abbrev pub prev_length_size : ℕ → ℕ
prev_length_size len = if ltb len 254 then 1 else 5

-- `zipPrevEncodeLength`
unfoldable pub zip_prev_encode_length : ℕ → ℕ → Bytes → Bytes × ℕ
unfolding update write_word
zip_prev_encode_length p len m =
    if ltb len 254 then (update m p len, 1) else (write_word 4 len (p + 1) (update m p 254), 5)

-- `zipPrevEncodeLengthForceLarge`
unfoldable pub zip_prev_encode_length_force_large : ℕ → ℕ → Bytes → Bytes
unfolding update write_word
zip_prev_encode_length_force_large p len m = write_word 4 len (p + 1) (update m p 254)

-- ZIP_DECODE_PREVLENSIZE
unfoldable pub zip_decode_prevlensize : ℕ → Bytes → ℕ
zip_decode_prevlensize p m = if ltb (m p) 254 then 1 else 5

-- ZIP_DECODE_PREVLEN: the size and the length
unfoldable pub zip_decode_prevlen : ℕ → Bytes → ℕ × ℕ
unfolding zip_decode_prevlensize read_word
zip_decode_prevlen p m =
    let size = zip_decode_prevlensize p m in
    (size, if size == 1 then m p else read_word 4 m (p + 1))

-- `zipPrevLenByteDiff`
unfoldable pub zip_prev_len_byte_diff : ℕ → ℕ → Bytes → ℤ
unfolding zip_decode_prevlensize
zip_prev_len_byte_diff p len m =
    let old = zip_decode_prevlensize p m in
    let new = prev_length_size len in
    if leb old new then pos (new - old) else negsuc (old - new - 1)

-- the sum of `zipRawEntryLength`, an unsigned int
abbrev pub raw_length : ℕ → Option Length → Option ℕ
raw_length prevlensize none = none
raw_length prevlensize (some l) = some ((prevlensize + l.lensize + l.len) % 2 ^ 32)

-- `zipRawEntryLength`
unfoldable pub zip_raw_entry_length : ℕ → Bytes → Option ℕ
zip_raw_entry_length p m =
    let prevlensize = zip_decode_prevlensize p m in
    raw_length prevlensize (zip_decode_length (p + prevlensize) m)

-- the smallest encoding for a value
unfoldable pub int_encoding : ℤ → ℕ
int_encoding v =
    if leb_ℤ (pos 0) v && leb_ℤ v (pos 12)
    then 0xf1 + (pos_part v)
    else if leb_ℤ (negsuc (2 ^ 7 - 1)) v && leb_ℤ v (pos (2 ^ 7 - 1))
    then zip_int_8b
    else if leb_ℤ (negsuc (2 ^ 15 - 1)) v && leb_ℤ v (pos (2 ^ 15 - 1))
    then zip_int_16b
    else if leb_ℤ (negsuc (2 ^ 23 - 1)) v && leb_ℤ v (pos (2 ^ 23 - 1))
    then zip_int_24b
    else if leb_ℤ (negsuc (2 ^ 31 - 1)) v && leb_ℤ v (pos (2 ^ 31 - 1))
    then zip_int_32b
    else zip_int_64b

-- `zipTryEncoding`: the value and its encoding
unfoldable pub zip_try_encoding : List ℕ → Option (ℤ × ℕ)
unfolding int_encoding
zip_try_encoding entry =
    if leb 32 (length entry) || length entry == 0
    then none
    else elim (string2ll entry) [ none ↦ none | some v ↦ some (v, int_encoding v) ]

-- `v << 8` and `v >> 8` of a signed word
abbrev pub shift_left_8 : ℤ → ℤ
shift_left_8 (pos n) = pos (n * 256)
shift_left_8 (negsuc n) = negsuc (n * 256 + 255)

abbrev pub shift_right_8 : ℤ → ℤ
shift_right_8 (pos n) = pos (n / 256)
shift_right_8 (negsuc n) = negsuc (n / 256)

-- ZIP_INT_IMM_MIN <= encoding <= ZIP_INT_IMM_MAX
abbrev pub is_immediate : ℕ → Bool
is_immediate enc = leb 0xf1 enc && leb enc 0xfd

-- `zipSaveInteger`
unfoldable pub zip_save_integer : ℕ → ℤ → ℕ → Bytes → Option Bytes
unfolding write_word to_word
zip_save_integer p v enc m =
    if enc == zip_int_8b
    then some (write_word 1 (to_word 1 v) p m)
    else if enc == zip_int_16b
    then some (write_word 2 (to_word 2 v) p m)
    else if enc == zip_int_24b
    then some (write_word 3 (to_word 4 (shift_left_8 v) / 256) p m)
    else if enc == zip_int_32b
    then some (write_word 4 (to_word 4 v) p m)
    else if enc == zip_int_64b
    then some (write_word 8 (to_word 8 v) p m)
    else if is_immediate enc
    then some m
    else none

-- `zipLoadInteger`
unfoldable pub zip_load_integer : ℕ → ℕ → Bytes → Option ℤ
unfolding read_word of_word
zip_load_integer p enc m =
    if enc == zip_int_8b
    then some (of_word 1 (read_word 1 m p))
    else if enc == zip_int_16b
    then some (of_word 2 (read_word 2 m p))
    else if enc == zip_int_32b
    then some (of_word 4 (read_word 4 m p))
    else if enc == zip_int_24b
    then some (shift_right_8 (of_word 4 (256 * read_word 3 m p)))
    else if enc == zip_int_64b
    then some (of_word 8 (read_word 8 m p))
    else if is_immediate enc
    then some (pos (bit_and enc 0x0f - 1))
    else none
