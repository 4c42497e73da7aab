-- ===== src/Rdb.antt =====
-- redis/src/rdb.c: lengths, integers and strings in the dump format. `Rio` is the part of a rio
-- that the writers see: the bytes written so far, and whether the device takes the next ones (a
-- write that fails leaves what was written). A reader takes the bytes that are left.
pub mod Bits
pub mod Lengths
pub mod Integers
pub mod Stored
pub mod Compressed
pub mod Strings
pub mod Tests
use Prim.Native.Nat.{bit_and, bit_or}
use my_node_redis.Prelude.{
  ℕ, zero, suc, ◌+◌, ◌-◌, ◌*◌, ◌/◌, ◌%◌, ◌^◌, ltb, leb, ◌==◌, ◌&&◌, ◌||◌, not, if◌then◌else◌, Bool,
  true, false, Option, none, some, List, [], ◌∷◌, ◌++◌, length, take, drop,
}
use my_node_redis.Prelude.Int.{ℤ, pos, negsuc, pos_part, neg_part, eqb_ℤ, ltb_ℤ, leb_ℤ}
use my_node_redis.Memory.{to_word, of_word}
use my_node_redis.Numbers.{Text, ll2string, digits_loop, abs}

-- `strlen(a) == len && memcmp(a, s, len) == 0`
unfoldable pub same_text : Text → Text → Bool
same_text [] [] = true
same_text [] (y ∷ t) = false
same_text (x ∷ s) [] = false
same_text (x ∷ s) (y ∷ t) = x == y && same_text s t

-- `null` stands for the null pointer that callers pass to learn a size.
pub record Rio : Type 0 where
  pub null : Bool
  pub written : Text
  pub accepts : Text → Text → Bool

-- `none` is -1.
abbrev pub M : Type 0 → Type 0
M A = Rio → Option A × Rio

abbrev pub after {ℓ} : {A : Type ℓ} {B : Type 0} → Option A × Rio → (A → M B) → Option B × Rio
after (none, r) f = (none, r)
after (some a, r) f = f a r

infixl 5 ◌>>=◌
abbrev pub ◌>>=◌ : {A B : Type 0} → M A → (A → M B) → M B
◌>>=◌ m f r = after (m r) f

abbrev pub return : {A : Type 0} → A → M A
return a r = (some a, r)

-- `rdbWriteRaw`. The counts of the writers are ints: they are exact below 2 ^ 31, and theorems ask
-- for texts that stay below it.
unfoldable pub write_raw : Text → M ℕ
write_raw p r =
    if r.null
    then (some (length p), r)
    else if r.accepts r.written p
    then (some (length p), record r { written = r.written ++ p })
    else (none, r)

-- REDIS_RDB_6BITLEN, _14BITLEN, _32BITLEN and ENCVAL, in the two top bits of the first byte
abbrev pub bits6 : ℕ
bits6 = 0

abbrev pub bits14 : ℕ
bits14 = 1

abbrev pub bits32 : ℕ
bits32 = 2

abbrev pub encval : ℕ
encval = 3

-- `htonl`: a word of 32 bits in network order
abbrev pub network : ℕ → Text
network n = (n / 2 ^ 24 % 256) ∷ (n / 2 ^ 16 % 256) ∷ (n / 2 ^ 8 % 256) ∷ (n % 256) ∷ []

-- the int that a writer answers
abbrev pub answer : Option ℕ → ℤ
answer none = negsuc 0
answer (some n) = pos n

-- `rdbSaveLen`. The last write is compared with -4, not with -1.
unfoldable pub save_len : ℕ → M ℕ
save_len len =
    if ltb len (2 ^ 6)
    then (do _ ← write_raw (bit_or (bit_and len 0xff) (bits6 * 64) ∷ []); return 1)
    else if ltb len (2 ^ 14)
    then (do
      _ ← write_raw (bit_or (bit_and (len / 256) 0xff) (bits14 * 64) ∷ bit_and len 0xff ∷ [])
      return 2)
    else (do
      _ ← write_raw ((bits32 * 64) ∷ [])
      λ r.
          let w = write_raw (network len) r in
          if eqb_ℤ (answer w.0) (negsuc 3) then (none, w.1) else (some 5, w.1))

-- the bytes that are left, or `none` where `rioRead` returns 0
unfoldable pub read : ℕ → Text → Option (Text × Text)
read n s = if leb n (length s) then some (take n s, drop n s) else none

abbrev pub lenerr : ℕ
lenerr = 2 ^ 32 - 1

-- the returned length, `*isencoded`, and the bytes that are left
pub record Loaded : Type 0 where
  pub value : ℕ
  pub isencoded : Bool
  pub rest : Text

abbrev pub failed : Text → Loaded
failed s = record { value = lenerr; isencoded = false; rest = s }

-- `ntohl`
abbrev pub from_network : Text → ℕ
from_network (a ∷ b ∷ c ∷ d ∷ []) = ((a * 256 + b) * 256 + c) * 256 + d
from_network _ = 0

load_len_14 : ℕ → Text → Loaded
load_len_14 b [] = failed []
load_len_14 b (c ∷ s) = record {
  value = bit_or (bit_and b 0x3f * 256) c;
  isencoded = false;
  rest = s;
}

load_len_32 : Text → Option (Text × Text) → Loaded
load_len_32 s none = failed s
load_len_32 s (some (w, rest)) = record { value = from_network w; isencoded = false; rest = rest }

-- `rdbLoadLen`
unfoldable pub load_len : Text → Loaded
unfolding load_len_14 load_len_32
load_len [] = failed []
load_len (b ∷ s) =
    let kind : ℕ = bit_and b 0xc0 / 64 in
    if kind == encval
    then record { value = bit_and b 0x3f; isencoded = true; rest = s }
    else if kind == bits6
    then record { value = bit_and b 0x3f; isencoded = false; rest = s }
    else if kind == bits14
    then load_len_14 b s
    else load_len_32 s (read 4 s)

abbrev pub enc_int8 : ℕ
enc_int8 = 0

abbrev pub enc_int16 : ℕ
enc_int16 = 1

abbrev pub enc_int32 : ℕ
enc_int32 = 2

abbrev pub enc_lzf : ℕ
enc_lzf = 3

-- `lo <= value && value <= hi` for a signed type of 2 * half values
abbrev pub within : ℤ → ℕ → Bool
within v half = leb_ℤ (negsuc (half - 1)) v && leb_ℤ v (pos (half - 1))

-- the byte of `value >> 8 * k`, by the two's complement of the long long
abbrev pub byte_of : ℤ → ℕ → ℕ
byte_of v k = to_word 8 v / 2 ^ (8 * k) % 256

-- `rdbEncodeInteger`; the empty text is a result of 0
unfoldable pub encode_integer : ℤ → Text
encode_integer v =
    if within v (2 ^ 7)
    then (encval * 64 + enc_int8) ∷ byte_of v 0 ∷ []
    else if within v (2 ^ 15)
    then (encval * 64 + enc_int16) ∷ byte_of v 0 ∷ byte_of v 1 ∷ []
    else if within v (2 ^ 31)
    then (encval * 64 + enc_int32) ∷ byte_of v 0 ∷ byte_of v 1 ∷ byte_of v 2 ∷ byte_of v 3 ∷ []
    else []

-- The bytes are disjoint, so that `|` is a sum.
abbrev pub little : Text → ℕ
little [] = 0
little (b ∷ s) = b + 256 * little s

-- `createStringObjectFromLongLong` and `sdsfromlonglong` make these objects.
pub data Object : Type 0 where
  int_object : ℤ → Object
  raw_object : Text → Object

-- `none` is NULL; `panic` is `redisPanic`.
pub data Result : Type 0 where
  object : Object → Text → Result
  null_result : Result
  panic : Result

-- `sdsfromlonglong` of sds.c
unfoldable pub from_long_long : ℤ → Text
from_long_long v =
    if ltb_ℤ v (pos 0) then b'-' ∷ digits_loop 31 (abs v) [] else digits_loop 31 (abs v) []

-- `createStringObjectFromLongLong` of object.c, with a long of 32 bits; shared integers are
-- objects like the others
unfoldable pub from_integer : ℤ → Object
from_integer v = if within v (2 ^ 31) then int_object v else raw_object (from_long_long v)

-- the end of `rdbLoadIntegerObject`; `encode` asks for an integer object
unfoldable pub made : Bool → ℤ → Object
made encode v = if encode then from_integer v else raw_object (from_long_long v)

unfoldable pub load_width : Bool → ℕ → Option (Text × Text) → Result
load_width encode w none = null_result
load_width encode w (some (e, rest)) = object (made encode (of_word w (little e))) rest

-- `rdbLoadIntegerObject`
unfoldable pub load_integer : Bool → ℕ → Text → Result
load_integer encode enctype s =
    if enctype == enc_int8
    then load_width encode 1 (read 1 s)
    else if enctype == enc_int16
    then load_width encode 2 (read 2 s)
    else if enctype == enc_int32
    then load_width encode 4 (read 4 s)
    else panic

-- Code outside: `strtoll` of the C library gives the value and whether it stopped at the
-- terminating nul; `compress` and `decompress` of LZF take the size of the output buffer, and
-- `none` is their 0. `decompress` gives the buffer of this size that it has filled.
pub record External : Type 0 where
  pub strtoll : Text → ℤ × Bool
  pub compress : Text → ℕ → Option Text
  pub decompress : Text → ℕ → Option Text

module _ (ext : External) where
  open ext use {strtoll, compress, decompress}

  -- `rdbTryIntegerEncoding`; the empty text is a result of 0
  unfoldable pub try_integer_encoding : Text → Text
  try_integer_encoding s =
      let (value, whole) = strtoll s in
      if not whole
      then []
      else if not (same_text (ll2string 32 value) s)
      then []
      else encode_integer value

  -- `rdbSaveLzfStringObject`; 0 where it does not compress
  unfoldable pub save_compressed : ℕ → Option Text → M ℕ
  save_compressed len none = return 0
  save_compressed len (some out) = do
    a ← write_raw ((encval * 64 + enc_lzf) ∷ [])
    b ← save_len (length out % 2 ^ 32)
    c ← save_len (len % 2 ^ 32)
    d ← write_raw out
    return (a + b + c + d)

  unfoldable pub save_lzf : Text → M ℕ
  save_lzf s =
      if leb (length s) 4 then return 0 else save_compressed (length s) (compress s (length s - 4))

  -- the end of `rdbSaveRawString`
  unfoldable pub save_verbatim : Text → M ℕ
  save_verbatim s = do
    n ← save_len (length s % 2 ^ 32)
    if ltb 0 (length s) then (do _ ← write_raw s; return (n + length s)) else return n

  -- `rdbSaveRawString` behind the integer encoding
  unfoldable pub save_string : Bool → Text → M ℕ
  save_string compression s =
      if compression && ltb 20 (length s)
      then (do n ← save_lzf s; if ltb 0 n then return n else save_verbatim s)
      else save_verbatim s

  -- `rdbSaveRawString`; `compression` is `server.rdb_compression`
  unfoldable pub save_raw_string : Bool → Text → M ℕ
  save_raw_string compression s =
      let enc : Text = if leb (length s) 11 then try_integer_encoding s else [] in
      if ltb 0 (length enc)
      then (do _ ← write_raw enc; return (length enc))
      else save_string compression s

  -- `rdbSaveLongLongAsStringObject`
  unfoldable pub save_long_long : ℤ → M ℕ
  save_long_long v =
      let enc = encode_integer v in
      let text = ll2string 32 v in
      if ltb 0 (length enc)
      then write_raw enc
      else (do a ← save_len (length text); b ← write_raw text; return (a + b))

  -- `rdbSaveStringObject`; the cast of the pointer is to a long of 32 bits
  unfoldable pub save_object : Bool → Object → M ℕ
  save_object compression (int_object v) = save_long_long (of_word 4 (to_word 4 v))
  save_object compression (raw_object s) = save_raw_string compression s

  unfoldable pub decompressed : Text → Option Text → Result
  decompressed rest none = null_result
  decompressed rest (some s) = object (raw_object s) rest

  unfoldable pub load_compressed : ℕ → Option (Text × Text) → Result
  load_compressed len none = null_result
  load_compressed len (some (c, rest)) = decompressed rest (decompress c len)

  -- `rdbLoadLzfStringObject`; memory does not run out
  unfoldable pub load_lzf : Text → Result
  load_lzf s =
      let clen = load_len s in
      let len = load_len clen.rest in
      if clen.value == lenerr
      then null_result
      else if len.value == lenerr
      then null_result
      else load_compressed len.value (read clen.value len.rest)

  unfoldable pub load_verbatim : Option (Text × Text) → Result
  load_verbatim none = null_result
  load_verbatim (some (s, rest)) = object (raw_object s) rest

  -- `rdbGenericLoadStringObject`
  unfoldable pub load_string : Bool → Text → Result
  load_string encode s =
      let l = load_len s in
      if l.isencoded
      then if l.value == enc_int8 || l.value == enc_int16 || l.value == enc_int32
        then load_integer encode l.value l.rest
        else if l.value == enc_lzf
        then load_lzf l.rest
        else panic
      else if l.value == lenerr
      then null_result
      else load_verbatim (read l.value l.rest)
