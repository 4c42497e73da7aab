-- ===== src/Sds.antt =====
-- redis/src/sds.c and sds.h: strings with a header. `Sds` is `struct sdshdr` with its block: `len`
-- and `free` are the 32 bit patterns of the int fields, and `buf` the bytes, of which the block has
-- `len + free + 1`. Sizes are size_t (64 bits). Memory does not run out, so that no function
-- returns NULL, and `zrealloc` keeps the bytes.
pub mod Content
pub mod Slice
pub mod Tests
use my_node_redis.Prelude.{
  ℕ, zero, suc, ◌+◌, ◌-◌, ◌*◌, ◌%◌, ◌^◌, ltb, leb, ◌==◌, ◌&&◌, ◌||◌, if◌then◌else◌, Bool, true,
  false, Option, none, some, List, [], ◌∷◌, length, take, replicate,
}
use my_node_redis.Prelude.Int.{ℤ, pos, negsuc, leb_ℤ, ltb_ℤ}
use my_node_redis.Memory.{Bytes, update, memmove, to_word, of_word}
use my_node_redis.Memory.Blocks.{copy, bytes}
use my_node_redis.Numbers.{Text}

pub record Sds : Type 0 where
  pub len : ℕ
  pub free : ℕ
  pub buf : Bytes

abbrev pub max_prealloc : ℕ
max_prealloc = 1024 * 1024

-- `(int)` of a size_t, as a pattern
abbrev pub to_int : ℕ → ℕ
to_int n = n % 2 ^ 32

-- an int as a size_t
abbrev pub to_size : ℕ → ℕ
to_size n = if ltb n (2 ^ 31) then n else n + (2 ^ 64 - 2 ^ 32)

-- the difference of two size_t
abbrev pub minus : ℕ → ℕ → ℕ
minus a b = (a + 2 ^ 64 - b) % 2 ^ 64

-- `sdslen`
abbrev pub sds_len : Sds → ℕ
sds_len s = to_size s.len

-- `sdsavail`
abbrev pub avail : Sds → ℕ
avail s = to_size s.free

-- `sdsnewlen`; `block` is what `zmalloc` gives, and `zcalloc` gives zeros
unfoldable pub new_len : Bytes → Option Text → ℕ → Sds
unfolding copy update
new_len block none n = record { len = to_int n; free = 0; buf = λ i. 0 }
new_len block (some init) n = record {
  len = to_int n;
  free = 0;
  buf = update (copy block 0 (take n init)) n 0;
}

-- `sdsnew` and `sdsempty`
unfoldable pub new_text : Bytes → Text → Sds
new_text block init = new_len block (some init) (length init)

-- `sdsdup`
unfoldable pub dup : Bytes → Sds → Sds
unfolding bytes
dup block s = new_len block (some (bytes s.buf 0 (sds_len s))) (sds_len s)

-- `sdsclear`
unfoldable pub clear : Sds → Sds
unfolding update
clear s = record { len = 0; free = to_int (s.free + s.len); buf = update s.buf 0 0 }

-- `sdsMakeRoomFor`
unfoldable pub make_room_for : Sds → ℕ → Sds
make_room_for s addlen =
    if leb addlen (avail s)
    then s
    else let wanted : ℕ = (sds_len s + addlen) % 2 ^ 64 in
      let newlen : ℕ =
        if ltb wanted max_prealloc then wanted * 2 % 2 ^ 64 else (wanted + max_prealloc) % 2 ^ 64 in
      record s { free = to_int (minus newlen (sds_len s)) }

-- `sdsRemoveFreeSpace`
unfoldable pub remove_free_space : Sds → Sds
remove_free_space s = record s { free = 0 }

-- `sdsAllocSize`; the header has 8 bytes
unfoldable pub alloc_size : Sds → ℕ
alloc_size s = (8 + to_size s.len + to_size s.free + 1) % 2 ^ 64

-- `sdsIncrLen`; `none` is a failed assertion
unfoldable pub incr_len : Sds → ℤ → Option Sds
unfolding update
incr_len s incr =
    let len : ℕ = to_int (s.len + to_word 4 incr) in
    let free : ℕ = to_int (s.free + 2 ^ 32 - to_word 4 incr) in
    if leb_ℤ incr (of_word 4 s.free) && leb_ℤ (pos 0) (of_word 4 free)
    then some (record { len = len; free = free; buf = update s.buf len 0 })
    else none

-- `memset(buf + a, 0, n)`
unfoldable pub zeros : Bytes → ℕ → ℕ → Bytes
unfolding copy
zeros m a n = copy m a (replicate n 0)

-- `sdsgrowzero`
unfoldable pub grow_zero : Sds → ℕ → Sds
unfolding zeros
grow_zero s n =
    let curlen : ℕ = to_size s.len in
    if leb n curlen
    then s
    else let r = make_room_for s (n - curlen) in
      let totlen : ℕ = to_size (to_int (r.len + r.free)) in
      record {
        len = to_int n;
        free = to_int (minus totlen (to_size (to_int n)));
        buf = zeros r.buf curlen (n - curlen + 1);
      }

-- `sdscatlen`, and by it `sdscat` and `sdscatsds`
unfoldable pub cat_len : Sds → Text → Sds
unfolding copy update
cat_len s t =
    let curlen : ℕ = sds_len s in
    let r = make_room_for s (length t) in
    record {
      len = to_int (curlen + length t);
      free = to_int (minus (to_size r.free) (length t));
      buf = update (copy r.buf curlen t) (curlen + length t) 0;
    }

unfoldable pub cat_sds : Sds → Sds → Sds
unfolding bytes
cat_sds s t = cat_len s (bytes t.buf 0 (sds_len t))

-- `sdscpylen` and `sdscpy`
unfoldable pub cpy_len : Sds → Text → Sds
unfolding copy update
cpy_len s t =
    let r =
      if ltb (to_size (to_int (s.free + s.len))) (length t)
      then make_room_for s (minus (length t) (to_size s.len))
      else s in
    record {
      len = to_int (length t);
      free = to_int (minus (to_size (to_int (r.free + r.len))) (length t));
      buf = update (copy r.buf 0 t) (length t) 0;
    }

-- `strchr(cset, c)` finds the terminating nul as well
unfoldable pub in_set : Text → ℕ → Bool
in_set [] c = c == 0
in_set (x ∷ cset) c = c == x || in_set cset c

-- `while(sp <= end && strchr(cset, *sp)) sp++`, with the end one past the last byte
unfoldable pub trim_front : ℕ → Text → Bytes → ℕ → ℕ → ℕ
trim_front zero cset m sp last = sp
trim_front (suc fuel) cset m sp last =
    let rest = trim_front fuel cset m (sp + 1) last in
    if ltb sp last && in_set cset (m sp) then rest else sp

-- `while(ep > start && strchr(cset, *ep)) ep--`, for `ep + 1`
unfoldable pub trim_back : Text → Bytes → ℕ → ℕ
trim_back cset m zero = zero
trim_back cset m (suc ep) =
    let rest = trim_back cset m ep in if ltb 0 ep && in_set cset (m ep) then rest else suc ep

-- `sdstrim`
unfoldable pub trim : Sds → Text → Sds
unfolding update memmove
trim s cset =
    let n : ℕ = sds_len s in
    let sp : ℕ = trim_front n cset s.buf 0 n in
    let ep : ℕ = trim_back cset s.buf n in
    let len : ℕ = if ltb ep (sp + 1) then 0 else ep - sp in
    let moved : Bytes = if sp == 0 then s.buf else memmove 0 sp len s.buf in
    record {
      len = to_int len;
      free = to_int (s.free + to_int (minus (to_size s.len) len));
      buf = update moved len 0;
    }

-- `if (i < 0) { i = len + i; if (i < 0) i = 0; }`
abbrev pub from_end : ℕ → ℤ → ℕ
from_end len (pos n) = n
from_end len (negsuc n) = len - suc n

-- `(start > end) ? 0 : (end - start) + 1`
abbrev pub span : ℕ → ℕ → ℕ
span start last = if ltb last start then 0 else last - start + 1

-- `newlen` of `sdsrange`
unfoldable pub range_len : ℕ → ℕ → ℕ → ℕ
range_len len start last =
    if span start last == 0
    then 0
    else if leb len start
    then 0
    else if leb len last
    then span start (len - 1)
    else span start last

-- `sdsrange`, for ints whose sum with the length does not overflow
unfoldable pub range : Sds → ℤ → ℤ → Sds
unfolding update memmove
range s first last =
    let n : ℕ = sds_len s in
    if n == 0
    then s
    else let start : ℕ = from_end n first in
      let newlen : ℕ = range_len n start (from_end n last) in
      let moved : Bytes =
        if start == 0 || newlen == 0 then s.buf else memmove 0 start newlen s.buf in
      record {
        len = to_int newlen;
        free = to_int (s.free + minus (to_size s.len) newlen);
        buf = update moved newlen 0;
      }

-- `memcmp` as the sign of the first difference; -1, 0 and 1 for less, equal and greater
unfoldable pub mem_cmp : Text → Text → ℤ
mem_cmp [] t = pos 0
mem_cmp (x ∷ s) [] = pos 0
mem_cmp (x ∷ s) (y ∷ t) = if ltb x y then negsuc 0 else if ltb y x then pos 1 else mem_cmp s t

-- `(int)(l1 - l2)`
abbrev pub difference : ℕ → ℕ → ℤ
difference l1 l2 = of_word 4 (to_int (minus l1 l2))

-- `sdscmp`
unfoldable pub cmp : Sds → Sds → ℤ
unfolding bytes
cmp s1 s2 =
    let minlen : ℕ = if ltb (sds_len s1) (sds_len s2) then sds_len s1 else sds_len s2 in
    let c = mem_cmp (bytes s1.buf 0 minlen) (bytes s2.buf 0 minlen) in
    if leb_ℤ c (pos 0) && leb_ℤ (pos 0) c then difference (sds_len s1) (sds_len s2) else c
