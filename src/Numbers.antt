-- ===== src/Numbers.antt =====
-- redis/src/util.c: `ll2string`, `string2ll` and `string2l`, the decimal form of a 64 bit integer.
-- A text is the list of its bytes, without the terminating nul. Unsigned sums and products are
-- written with their modulus.
pub mod Print
pub mod Parse
pub mod Tests
use my_node_redis.Prelude.{
  ℕ, zero, suc, ◌+◌, ◌-◌, ◌*◌, ◌/◌, ◌%◌, ◌^◌, ltb, leb, ◌==◌, ◌&&◌, ◌||◌, not, if◌then◌else◌, Bool,
  true, false, Option, none, some, List, [], ◌∷◌, length, take,
}
use my_node_redis.Prelude.Int.{ℤ, pos, negsuc, pos_part, neg_part, ltb_ℤ}

abbrev pub Text : Type 0
Text = List ℕ

abbrev pub ullong_max : ℕ
ullong_max = 2 ^ 64 - 1

abbrev pub llong_max : ℕ
llong_max = 2 ^ 63 - 1

-- `do { *p-- = '0'+(v%10); v /= 10; } while(v)`, which writes in front of what it has written. The
-- fuel counts the bytes of the buffer in front of `p`.
unfoldable pub digits_loop : ℕ → ℕ → Text → Text
digits_loop zero v written = written
digits_loop (suc n) v written =
    let longer : Text = (b'0' + v % 10) ∷ written in
    let rest = digits_loop n (v / 10) longer in if v / 10 == 0 then longer else rest

-- The loop over `unsigned long` (32 bits) and the one over `unsigned long long`.
unfoldable pub magnitude : ℕ → Text
magnitude v =
    let vl : ℕ = v % 2 ^ 32 in if vl == v then digits_loop 32 vl [] else digits_loop 32 v []

-- `value < 0 ? -value : value`, as an unsigned number
abbrev pub abs : ℤ → ℕ
abs v = pos_part v + neg_part v

-- `ll2string`: the text that is written to `s`, which has `len` bytes
unfoldable pub ll2string : ℕ → ℤ → Text
ll2string len value =
    if len == 0
    then []
    else let text : Text =
        if ltb_ℤ value (pos 0) then b'-' ∷ magnitude (abs value) else magnitude (abs value) in
      if ltb len (length text + 1) then take (len - 1) text else text

-- the loop over the digits behind the first, and the test that all bytes were used
unfoldable pub parse_loop : ℕ → Text → Option ℕ
parse_loop v [] = some v
parse_loop v (c ∷ r) =
    let next = parse_loop (v * 10 % 2 ^ 64 + (c - b'0')) r in
    if leb b'0' c && leb c b'9'
    then if ltb (ullong_max / 10) v
      then none
      else if ltb (ullong_max - (c - b'0')) (v * 10 % 2 ^ 64)
      then none
      else next
    else none

-- from the first digit on; a lone "0" is no number behind a sign
unfoldable pub parse_magnitude : Text → Option ℕ
parse_magnitude [] = none
parse_magnitude (c ∷ r) = if leb b'1' c && leb c b'9' then parse_loop (c - b'0') r else none

-- the range test at the end; `-v` of an unsigned number that fits
unfoldable pub signed : Bool → Option ℕ → Option ℤ
signed negative none = none
signed true (some v) =
    if ltb (2 ^ 63) v then none else if v == 0 then some (pos 0) else some (negsuc (v - 1))
signed false (some v) = if ltb llong_max v then none else some (pos v)

-- `string2ll`: the value, or `none` for a result of 0
unfoldable pub string2ll : Text → Option ℤ
string2ll [] = none
string2ll (c ∷ r) =
    if c == b'0' && length r == 0
    then some (pos 0)
    else if c == b'-'
    then signed true (parse_magnitude r)
    else signed false (parse_magnitude (c ∷ r))

-- `string2l`, with a long of 32 bits as on Windows
abbrev pub long_max : ℕ
long_max = 2 ^ 31 - 1

in_long : Option ℤ → Option ℤ
in_long none = none
in_long (some v) = if ltb_ℤ v (negsuc long_max) || ltb_ℤ (pos long_max) v then none else some v

unfoldable pub string2l : Text → Option ℤ
unfolding in_long
string2l s = in_long (string2ll s)
