-- ===== src/Numbers/Parse.antt =====
-- `string2ll` and `ll2string` are inverse to one another.
use mathlib.Core.Option.{some-injective}
use my_node_redis.Prelude.{
  ℕ, zero, suc, ◌+◌, ◌-◌, ◌*◌, ◌/◌, ◌%◌, ◌^◌, ◌≤◌, ◌<◌, ◌≡◌, ltb, leb, ◌==◌, ==_iff, ◌&&◌,
  Bool-cases, true, false, inl, inr, Option, none, some, [], ◌∷◌, length, refl, arith, ap, ◌∙◌,
}
use my_node_redis.Prelude.Int.{ℤ, pos, negsuc}
use my_node_redis.Memory.Laws.{Fits}
use my_node_redis.Numbers.{
  Text, digits_loop, magnitude, parse_loop, parse_magnitude, ll2string, string2ll, signed,
  ullong_max,
}
use my_node_redis.Numbers.Print.{digits_loop-Digits, magnitude-digits, length-digits, digits_fuel}

-- A positive magnitude is read back.
parse-magnitude : (v : ℕ) → 0 < v → v < 2 ^ 64 → parse_magnitude (magnitude v) ≡ some v
unfolding parse_magnitude parse_loop
parse-magnitude v p h =
    let d = digits_loop-Digits 32 v [] p (omega arith) h in
    let first_digit : (leb b'1' d.first && leb d.first b'9') ≡ true =
      ground (arith, d.low, d.high) in
    rw (magnitude-digits v h, d.parts, first_digit) d.reads

pub magnitude-length : (v : ℕ) → v ≤ 2 ^ 63 → length (magnitude v) ≤ 19
magnitude-length v h =
    rw (magnitude-digits v (omega arith)) (omega (arith, length-digits 32 v [] 18 (omega arith)))

-- the text when the buffer is large enough
pub ll2string-pos : (len n : ℕ) → 21 ≤ len → n < 2 ^ 63 → ll2string len (pos n) ≡ magnitude n
unfolding ll2string
ll2string-pos len n room h =
    let some_room : (len == 0) ≡ false = ground arith in
    let fits : ltb len (length (magnitude n) + 1) ≡ false = ground (arith, magnitude-length n) in
    ground arith

pub ll2string-negsuc :
    (len n : ℕ) → 21 ≤ len → n < 2 ^ 63 → ll2string len (negsuc n) ≡ b'-' ∷ magnitude (suc n)
unfolding ll2string
ll2string-negsuc len n room h =
    let some_room : (len == 0) ≡ false = ground arith in
    let fits : ltb len (length (b'-' ∷ magnitude (suc n)) + 1) ≡ false =
      ground (arith, magnitude-length (suc n)) in
    ground arith

string2ll-magnitude : (n : ℕ) → 0 < n → n < 2 ^ 63 → string2ll (magnitude n) ≡ some (pos n)
unfolding string2ll signed
string2ll-magnitude n p h =
    let d = digits_loop-Digits 32 n [] p (omega arith) (omega arith) in
    let same : magnitude n ≡ d.first ∷ d.rest = magnitude-digits n (omega arith) ∙ d.parts in
    let read : parse_magnitude (d.first ∷ d.rest) ≡ some n =
      rw same at (parse-magnitude n p (omega arith)) in
    let not_zero : (d.first == b'0') ≡ false = ground (arith, d.low) in
    let not_minus : (d.first == b'-') ≡ false = ground (arith, d.low) in
    rw (same, not_zero, not_minus, read) (ground arith)

string2ll-minus : (n : ℕ) → n < 2 ^ 63 → string2ll (b'-' ∷ magnitude (suc n)) ≡ some (negsuc n)
unfolding string2ll signed
string2ll-minus n h = rw (parse-magnitude (suc n) (omega arith) (omega arith)) (ground arith)

-- `string2ll` reads back every integer of 64 bits that `ll2string` prints into a buffer of at least
-- 21 bytes.
pub string2ll-ll2string :
    (len : ℕ) (v : ℤ) → 21 ≤ len → Fits 8 v → string2ll (ll2string len v) ≡ some v
string2ll-ll2string len (pos zero) room f =
    rw (ll2string-pos len 0 room (omega arith)) (unfold string2ll magnitude digits_loop in refl)
string2ll-ll2string len (pos (suc n)) room f =
    rw (ll2string-pos len (suc n) room (omega arith))
      (string2ll-magnitude (suc n) (omega arith) (omega arith))
string2ll-ll2string len (negsuc n) room f =
    rw (ll2string-negsuc len n room (omega arith)) (string2ll-minus n (omega arith))

-- A further digit is written behind the others.
digits_push :
    (f a d : ℕ) (w : Text)
    → 0 < a
    → d < 10
    → digits_loop (suc f) (a * 10 + d) w ≡ digits_loop f a ((b'0' + d) ∷ w)
unfolding digits_loop
digits_push f a d w p q =
    let front : (a * 10 + d) / 10 ≡ a = omega arith in
    let back : (a * 10 + d) % 10 ≡ d = omega arith in
    let more : (a == 0) ≡ false = ground arith in rw (front, back, more)

-- What the loop has read is what the digits of the result look like.
record Read (a : ℕ) (s : Text) (v : ℕ) : Type 0 where
  pos_v : 0 < v
  small : v < 2 ^ 64
  printed : digits_loop 32 v [] ≡ digits_loop 32 a s

-- A digit that was accepted.
record Accepted (a c : ℕ) (r : Text) (v : ℕ) : Type 0 where
  digit : (b'0' ≤ c) × (c ≤ b'9')
  small : a * 10 + (c - b'0') < 2 ^ 64
  reads : parse_loop (a * 10 + (c - b'0')) r ≡ some v

parse_loop-Accepted :
    (a c : ℕ) (r : Text) (v : ℕ) → a < 2 ^ 64 → parse_loop a (c ∷ r) ≡ some v → Accepted a c r v
unfolding parse_loop
parse_loop-Accepted a c r v h e = elim (Bool-cases (leb b'0' c && leb c b'9')) [
  | inr other ↦ cc (rw other at e)
  | inl digit ↦ elim (Bool-cases (ltb (ullong_max / 10) a)) [
    | inl large ↦ cc (rw (digit, large) at e)
    | inr room ↦ elim (Bool-cases (ltb (ullong_max - (c - b'0')) (a * 10 % 2 ^ 64))) [
      | inl over ↦ cc (rw (digit, room, over) at e)
      | inr fits ↦
          let low : a * 10 % 2 ^ 64 ≡ a * 10 = ground arith in
          record {
            digit = ground arith;
            small = ground arith;
            reads = rw (digit, room, fits, low) at e;
          }
    ]
  ]
]

parse_loop-Read : (s : Text) (a v : ℕ) → 0 < a → a < 2 ^ 64 → parse_loop a s ≡ some v → Read a s v
unfolding parse_loop
parse_loop-Read [] a v p h e =
    let same : a ≡ v = some-injective a v e in
    rw (← same) (record { pos_v = p; small = h; printed = refl })
parse_loop-Read (c ∷ r) a v p h e =
    let t = parse_loop-Accepted a c r v h e in
    let ih = parse_loop-Read r (a * 10 + (c - b'0')) v (omega arith) t.small t.reads in
    let char : b'0' + (c - b'0') ≡ c = omega (arith, t.digit) in
    let step = digits_push 31 a (c - b'0') r p (omega (arith, t.digit)) in
    record {
      pos_v = ih.pos_v;
      small = ih.small;
      printed =
          ih.printed
          ∙ step
          ∙ (rw char (
              digits_fuel 31 32 a (c ∷ r) (omega arith) (omega arith) (omega arith) (omega arith)));
    }

digits_one : (f d : ℕ) (w : Text) → d < 10 → digits_loop (suc f) d w ≡ (b'0' + d) ∷ w
unfolding digits_loop
digits_one f d w h =
    let last : (d / 10 == 0) ≡ true = ground arith in
    rw last (ap (λ x. (b'0' + x) ∷ w) (omega arith))

parse_magnitude-printed :
    (s : Text) (v : ℕ) → parse_magnitude s ≡ some v → (0 < v) × (v < 2 ^ 64) × (magnitude v ≡ s)
unfolding parse_magnitude
parse_magnitude-printed [] v e = cc
parse_magnitude-printed (c ∷ r) v e = elim (Bool-cases (leb b'1' c && leb c b'9')) [
  | inr other ↦ cc (rw other at e)
  | inl digit ↦
      let read = parse_loop-Read r (c - b'0') v (ground arith) (ground arith) (rw digit at e) in
      let one : digits_loop 32 (c - b'0') r ≡ c ∷ r =
        digits_one 31 (c - b'0') r (ground arith) ∙ ap (λ x. x ∷ r) (ground arith) in
      (read.pos_v, read.small, magnitude-digits v read.small ∙ read.printed ∙ one)
]

signed-positive :
    (o : Option ℕ) (v : ℤ)
    → signed false o ≡ some v
    → (n : ℕ) × (o ≡ some n) × (n < 2 ^ 63) × (v ≡ pos n)
unfolding signed
signed-positive none v e = cc
signed-positive (some n) v e = (n, refl, ground arith, ground arith)

signed-negative :
    (o : Option ℕ) (v : ℤ)
    → signed true o ≡ some v
    → (n : ℕ) × (o ≡ some n) × (n ≤ 2 ^ 63) × (0 < n → v ≡ negsuc (n - 1))
unfolding signed
signed-negative none v e = cc
signed-negative (some n) v e = (n, refl, ground arith, λ p. ground arith)

lone : (r : Text) → (length r == 0) ≡ true → r ≡ []
lone [] h = refl
lone (x ∷ r) h = absurd (ground arith)

zero_text : (len : ℕ) → 21 ≤ len → ll2string len (pos 0) ≡ b'0' ∷ []
unfolding magnitude digits_loop
zero_text len room = rw (ll2string-pos len 0 room (omega arith))

module _ (len : ℕ) (c : ℕ) (r : Text) (v : ℤ) (room : 21 ≤ len) where
  positive_text :
      signed false (parse_magnitude (c ∷ r)) ≡ some v → Fits 8 v × (ll2string len v ≡ c ∷ r)
  positive_text e =
      let (n, read, small, same) = signed-positive _ v e in
      let (pos_n, _, text) = parse_magnitude-printed (c ∷ r) n read in
      rw same ((omega arith, omega arith), ll2string-pos len n room small ∙ text)

  negative_text : signed true (parse_magnitude r) ≡ some v → Fits 8 v × (ll2string len v ≡ b'-' ∷ r)
  negative_text e =
      let (n, read, small, same) = signed-negative _ v e in
      let (pos_n, _, text) = parse_magnitude-printed r n read in
      let back : suc (n - 1) ≡ n = omega arith in
      rw (same pos_n) (
        (omega arith, omega arith),
        ll2string-negsuc len (n - 1) room (omega arith)
            ∙ ap (λ x. b'-' ∷ x) (ap magnitude back ∙ text),
      )

-- A text that `string2ll` accepts is the one that `ll2string` prints for its value into a buffer of
-- at least 21 bytes, and the value is an integer of 64 bits: no other spelling of a number is
-- accepted.
pub ll2string-string2ll :
    (len : ℕ) (s : Text) (v : ℤ)
    → 21 ≤ len
    → string2ll s ≡ some v
    → Fits 8 v × (ll2string len v ≡ s)
unfolding string2ll
ll2string-string2ll len [] v room e = cc
ll2string-string2ll len (c ∷ r) v room e = elim (Bool-cases (c == b'0' && length r == 0)) [
  | inl zero_only ↦
      let is_zero : pos 0 ≡ v = some-injective _ _ (rw zero_only at e) in
      let nothing : r ≡ [] = lone r (ground arith) in
      let char : c ≡ b'0' = ground arith in
      rw (← is_zero, nothing, char) ((omega arith, omega arith), zero_text len room)
  | inr other ↦ elim (Bool-cases (c == b'-')) [
    | inr plain ↦ positive_text len c r v room (rw (other, plain) at e)
    | inl minus ↦
        let char : c ≡ b'-' = (==_iff _ _).0 minus in
        rw char (negative_text len c r v room (rw (other, minus) at e))
  ]
]
