-- ===== src/Rdb/Lengths.antt =====
-- `rdbSaveLen` and `rdbLoadLen`.
use Prim.Native.Nat.{bit_and, bit_or}
use my_node_redis.Prelude.{
  ℕ, ◌+◌, ◌/◌, ◌%◌, ◌^◌, ◌≤◌, ◌<◌, ◌≡◌, ltb, Bool-cases, true, false, arith, ap, ap, ◌∙◌, some,
  none, [], ◌∷◌, ◌++◌, length, append_assoc, if◌then◌else◌, inl, inr,
}
use my_node_redis.Numbers.{Text}
use my_node_redis.Rdb.{Rio, write_raw, save_len, load_len, read, Loaded, network}
use my_node_redis.Rdb.Bits.{kind, low6, byte, tag0, tag1, join}

-- A device that takes every write.
pub record IsOpen (r : Rio) : Type 0 where
  pub present : r.null ≡ false
  pub takes : (w p : Text) → r.accepts w p ≡ true

abbrev pub put : Text → Rio → Rio
put p r = record r { written = r.written ++ p }

pub put-IsOpen : (p : Text) (r : Rio) → IsOpen r → IsOpen (put p r)
put-IsOpen p r o = record { present = o.present; takes = o.takes }

pub write_raw-put : (p : Text) (r : Rio) → IsOpen r → write_raw p r ≡ (some (length p), put p r)
unfolding write_raw
write_raw-put p r o = rw (o.present, o.takes r.written p)

-- the bytes that a length is written as
abbrev pub image : ℕ → Text
image len =
    if ltb len (2 ^ 6)
    then len ∷ []
    else if ltb len (2 ^ 14)
    then (len / 256 + 64) ∷ (len % 256) ∷ []
    else 128 ∷ network len

pub length-image : (len : ℕ) → length (image len) ≤ 5
length-image len = ground arith

short_byte : (len : ℕ) → ltb len (2 ^ 6) ≡ true → bit_or (bit_and len 0xff) 0 ≡ len
short_byte len h =
    let low : bit_and len 0xff ≡ len = byte len (ground arith) ∙ ground arith in
    rw low (tag0 len (ground arith))

medium_byte :
    (len : ℕ) → ltb len (2 ^ 14) ≡ true → bit_or (bit_and (len / 256) 0xff) 64 ≡ len / 256 + 64
medium_byte len h =
    let low : bit_and (len / 256) 0xff ≡ len / 256 =
      byte (len / 256) (ground arith) ∙ ground arith in
    rw low (tag1 (len / 256) (ground arith))

-- On a device that takes every write `rdbSaveLen` writes the image and returns its size.
pub save_len-image :
    (len : ℕ) (r : Rio) → IsOpen r → save_len len r ≡ (some (length (image len)), put (image len) r)
unfolding save_len
save_len-image len r o = elim (Bool-cases (ltb len (2 ^ 6))) [
  | inl short ↦ rw (short, short_byte len short, write_raw-put (len ∷ []) r o)
  | inr long ↦ elim (Bool-cases (ltb len (2 ^ 14))) [
    | inl medium ↦ rw (
      long,
      medium,
      medium_byte len medium,
      byte len (ground arith),
      write_raw-put ((len / 256 + 64) ∷ (len % 256) ∷ []) r o,
    )
    | inr large ↦
        rw
          (
            long,
            large,
            write_raw-put (128 ∷ []) r o,
            write_raw-put (network len) (put (128 ∷ []) r) (put-IsOpen (128 ∷ []) r o),
          )
          (ap (λ w. (some 5, record r { written = w }))
            (append_assoc r.written (128 ∷ []) (network len)))
  ]
]

abbrev pub loaded : ℕ → Text → Loaded
loaded len rest = record { value = len; isencoded = false; rest = rest }

read-network : (n : ℕ) (rest : Text) → read 4 (network n ++ rest) ≡ some (network n, rest)
unfolding read
read-network n rest = ground arith

-- `rdbLoadLen` reads back every length that `rdbSaveLen` writes, and nothing of what follows it.
pub load_len-image :
    (len : ℕ) (rest : Text) → len < 2 ^ 32 → load_len (image len ++ rest) ≡ loaded len rest
unfolding load_len
load_len-image len rest h = elim (Bool-cases (ltb len (2 ^ 6))) [
  | inl short ↦ rw (short, kind len (ground arith), low6 len (ground arith)) (ground arith)
  | inr long ↦ elim (Bool-cases (ltb len (2 ^ 14))) [
    | inl medium ↦
        rw
          (
            long,
            medium,
            kind (len / 256 + 64) (ground arith),
            low6 (len / 256 + 64) (ground arith),
            join ((len / 256 + 64) % 64) (len % 256) (omega arith) (omega arith),
          )
          (ground arith)
    | inr large ↦ rw (long, large, read-network len rest) (ap (λ n. loaded n rest) (omega arith))
  ]
]

-- On a device that takes every write `rdbSaveLen` of a length of 32 bits returns the number of
-- bytes it writes, and `rdbLoadLen` reads the length back from them and leaves what is behind them.
pub load_len-save_len :
    (len : ℕ) (r : Rio) (rest : Text)
    → IsOpen r
    → len < 2 ^ 32
    → (save_len len r ≡ (some (length (image len)), put (image len) r))
      × (load_len (image len ++ rest) ≡ loaded len rest)
load_len-save_len len r rest o h = (save_len-image len r o, load_len-image len rest h)

write_raw-takes :
    (p : Text) (r : Rio)
    → r.null ≡ false
    → r.accepts r.written p ≡ true
    → write_raw p r ≡ (some (length p), put p r)
unfolding write_raw
write_raw-takes p r present h = rw (present, h)

write_raw-refuses :
    (p : Text) (r : Rio)
    → r.null ≡ false
    → r.accepts r.written p ≡ false
    → write_raw p r ≡ (none, r)
unfolding write_raw
write_raw-refuses p r present h = rw (present, h)

-- Where a device takes the first byte of a length of 2 ^ 14 or more and refuses the four bytes of
-- its value, `rdbSaveLen` still reports five bytes, as if all had been written.
pub save_len-unnoticed :
    (len : ℕ) (r : Rio)
    → r.null ≡ false
    → 2 ^ 14 ≤ len
    → r.accepts r.written (128 ∷ []) ≡ true
    → r.accepts (r.written ++ 128 ∷ []) (network len) ≡ false
    → save_len len r ≡ (some 5, put (128 ∷ []) r)
unfolding save_len
save_len-unnoticed len r present large first second =
    let long : ltb len (2 ^ 6) ≡ false = ground arith in
    let longer : ltb len (2 ^ 14) ≡ false = ground arith in
    rw (
      long,
      longer,
      write_raw-takes (128 ∷ []) r present first,
      write_raw-refuses (network len) (put (128 ∷ []) r) present second,
    )
