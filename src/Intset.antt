-- ===== src/Intset.antt =====
-- redis/src/intset.c: the integer set, a sorted array of 16, 32 or 64 bit integers in one block.
-- `contents` is the block after the header and `allocated` its size in bytes, which the code does
-- not store. The words are little-endian, for which `intrev32ifbe` and `memrev*ifbe` do nothing.
-- Lengths and positions are uint32_t.
pub mod Tests
pub mod Slots
pub mod Search
pub mod Insert
pub mod Upgrade
pub mod Add
pub mod Remove
use my_node_redis.Prelude.{
  ℕ, zero, suc, ◌+◌, ◌-◌, ◌*◌, ◌/◌, ◌%◌, ◌^◌, ltb, leb, ◌==◌, ◌&&◌, ◌||◌, if◌then◌else◌, Bool, true,
  false, Option, none, some,
}
use my_node_redis.Prelude.Int.{ℤ, pos, negsuc, ltb_ℤ, eqb_ℤ}
use my_node_redis.Memory.{Bytes, read_word, write_word, memmove, to_word, of_word}

-- INTSET_ENC_INT16, INTSET_ENC_INT32 and INTSET_ENC_INT64
pub data Encoding : Type 0 where
  int16 int32 int64 : Encoding

-- the constant's value, `sizeof(int16_t)` and so on, by which the code compares encodings
abbrev pub size : Encoding → ℕ
size int16 = 2
size int32 = 4
size int64 = 8

pub record Intset : Type 0 where
  pub encoding : Encoding
  pub length : ℕ
  pub contents : Bytes
  pub allocated : ℕ

abbrev pub u32 : ℕ → ℕ
u32 n = n % 2 ^ 32

unfoldable pub value_encoding : ℤ → Encoding
value_encoding v =
    if ltb_ℤ v (negsuc (2 ^ 31 - 1)) || ltb_ℤ (pos (2 ^ 31 - 1)) v
    then int64
    else if ltb_ℤ v (negsuc (2 ^ 15 - 1)) || ltb_ℤ (pos (2 ^ 15 - 1)) v
    then int32
    else int16

unfoldable pub get_encoded : Intset → ℕ → Encoding → ℤ
get_encoded is p int64 = of_word 8 (read_word 8 is.contents (p * 8))
get_encoded is p int32 = of_word 4 (read_word 4 is.contents (p * 4))
get_encoded is p int16 = of_word 2 (read_word 2 is.contents (p * 2))

unfoldable pub get_at : Intset → ℕ → ℤ
unfolding get_encoded
get_at is p = get_encoded is p is.encoding

store : Encoding → Bytes → ℕ → ℤ → Bytes
store int64 m p v = write_word 8 (to_word 8 v) (p * 8) m
store int32 m p v = write_word 4 (to_word 4 v) (p * 4) m
store int16 m p v = write_word 2 (to_word 2 v) (p * 2) m

unfoldable pub set_at : Intset → ℕ → ℤ → Intset
unfolding store
set_at is p v = record is { contents = store is.encoding is.contents p v }

-- The bytes of a new block are whatever the allocator gives.
unfoldable pub new : Bytes → Intset
new block = record { encoding = int16; length = 0; contents = block; allocated = 0 }

-- `zrealloc` keeps the bytes; the size is a product of uint32_t.
unfoldable pub resize : Intset → ℕ → Intset
resize is len = record is { allocated = u32 (len * size is.encoding) }

-- where the loop of `search` stands: `min`, `max + 1` (so that it is not negative), `mid` and `cur`.
-- The ints `min`, `max` and `min + max` do not overflow below 2 ^ 30 elements; theorems ask for fewer.
pub record Range : Type 0 where
  pub lo : ℕ
  pub hi : ℕ
  pub mid : ℕ
  pub cur : ℤ

-- `while (max >= min)`; every round but the one that breaks shortens the range.
unfoldable pub search_loop : ℕ → Intset → ℤ → Range → Range
search_loop zero is v r = r
search_loop (suc fuel) is v r =
    let mid : ℕ = (r.lo + (r.hi - 1)) / 2 in
    let cur : ℤ = get_at is mid in
    let right = search_loop fuel is v (record { lo = mid + 1; hi = r.hi; mid = mid; cur = cur }) in
    let left = search_loop fuel is v (record { lo = r.lo; hi = mid; mid = mid; cur = cur }) in
    if ltb r.lo r.hi
    then if ltb_ℤ cur v
      then right
      else if ltb_ℤ v cur
      then left
      else (record { lo = r.lo; hi = r.hi; mid = mid; cur = cur })
    else r

-- The result and `*pos`. The first `mid` is -1, as a uint32_t, and the first `cur` is -1.
unfoldable pub search : Intset → ℤ → Bool × ℕ
search is v =
    if is.length == 0
    then (false, 0)
    else if ltb_ℤ (get_at is (is.length - 1)) v
    then (false, is.length)
    else if ltb_ℤ v (get_at is 0)
    then (false, 0)
    else let r =
        search_loop is.length is v
          (record { lo = 0; hi = is.length; mid = 2 ^ 32 - 1; cur = negsuc 0 }) in
      if eqb_ℤ v r.cur then (true, r.mid) else (false, r.lo)

-- `while (length--)`, back to front
unfoldable pub upgrade_loop : ℕ → ℕ → Encoding → Intset → Intset
upgrade_loop zero prepend enc is = is
upgrade_loop (suc n) prepend enc is =
    upgrade_loop n prepend enc (set_at is (n + prepend) (get_encoded is n enc))

unfoldable pub upgrade_and_add : Intset → ℤ → Intset
unfolding resize
upgrade_and_add is v =
    let prepend : ℕ = if ltb_ℤ v (pos 0) then 1 else 0 in
    let wide = resize (record is { encoding = value_encoding v }) (u32 (is.length + 1)) in
    let moved = upgrade_loop is.length prepend is.encoding wide in
    let full = if prepend == 1 then set_at moved 0 v else set_at moved is.length v in
    record full { length = u32 (full.length + 1) }

-- `bytes` is a uint32_t, and so is its product with the width.
unfoldable pub move_tail : Intset → ℕ → ℕ → Intset
move_tail is from to =
    let bytes : ℕ = u32 (is.length + 2 ^ 32 - from) in
    let w : ℕ = size is.encoding in
    record is { contents = memmove (to * w) (from * w) (u32 (bytes * w)) is.contents }

-- the part of `intsetAdd` behind a search that found nothing
unfoldable pub insert_at : Intset → ℕ → ℤ → Intset
unfolding resize
insert_at is p v =
    let grown = resize is (u32 (is.length + 1)) in
    let moved = if ltb p is.length then move_tail grown p (p + 1) else grown in
    let full = set_at moved p v in record full { length = u32 (full.length + 1) }

-- the new set and `*success`
unfoldable pub add : Intset → ℤ → Intset × Bool
add is v =
    if ltb (size is.encoding) (size (value_encoding v))
    then (upgrade_and_add is v, true)
    else let (found, p) = search is v in if found then (is, false) else (insert_at is p v, true)

-- the part of `intsetRemove` behind a search that found `value`
unfoldable pub remove_at : Intset → ℕ → Intset
unfolding resize
remove_at is p =
    let len = is.length in
    let moved = if ltb p (len - 1) then move_tail is (p + 1) p else is in
    record (resize moved (len - 1)) { length = len - 1 }

unfoldable pub remove : Intset → ℤ → Intset × Bool
remove is v =
    let (found, p) = search is v in
    if leb (size (value_encoding v)) (size is.encoding) && found
    then (remove_at is p, true)
    else (is, false)

unfoldable pub find : Intset → ℤ → Bool
find is v = leb (size (value_encoding v)) (size is.encoding) && (search is v).0

-- `*value`, or `none` where the function returns 0
unfoldable pub get : Intset → ℕ → Option ℤ
get is p = if ltb p is.length then some (get_at is p) else none

-- `intsetRandom`, with what `rand()` returned
unfoldable pub random : Intset → ℕ → ℤ
random is r = get_at is (r % is.length)

unfoldable pub len : Intset → ℕ
len is = is.length

-- `sizeof(intset)` is 8: two uint32_t.
unfoldable pub blob_len : Intset → ℕ
blob_len is = 8 + u32 (is.length * size is.encoding)
