-- ===== src/Numbers/Print.antt =====
-- The digits that `ll2string` writes.
use native.Mathlib.Nat.{pow-suc}
use my_node_redis.Prelude.{
  ℕ, zero, suc, ◌+◌, ◌-◌, ◌*◌, ◌/◌, ◌%◌, ◌^◌, ◌≤◌, ◌<◌, ◌≡◌, ◌≢◌, ltb, leb, ◌==◌, ==_iff, ◌&&◌,
  Bool-cases, true, false, inl, inr, [], ◌∷◌, length, refl, arith, ap, ◌∙◌,
}
use my_node_redis.Numbers.{Text, digits_loop, magnitude, parse_loop, ullong_max}

pub ten_pow : (f : ℕ) → 10 ^ suc f ≡ 10 * 10 ^ f
ten_pow f = omega (arith, pow-suc 10 f)

rounds_left : (f v : ℕ) → v < 10 ^ suc f → v / 10 ≢ 0 → 0 < f
rounds_left zero v p ne = absurd (omega arith)
rounds_left (suc f) v p ne = omega arith

-- Enough rounds give the same digits.
pub digits_fuel :
    (f g v : ℕ) (w : Text)
    → v < 10 ^ f
    → v < 10 ^ g
    → 0 < f
    → 0 < g
    → digits_loop f v w ≡ digits_loop g v w
unfolding digits_loop
digits_fuel zero g v w p q a b = absurd (omega arith)
digits_fuel (suc f) zero v w p q a b = absurd (omega arith)
digits_fuel (suc f) (suc g) v w p q a b = elim (Bool-cases (v / 10 == 0)) [
  | inl last ↦ rw last
  | inr more ↦ rw more (
      digits_fuel f g (v / 10) _ (omega (arith, ten_pow f)) (omega (arith, ten_pow g))
        (rounds_left f v p (ground arith)) (rounds_left g v q (ground arith)))
]

-- One digit is read as it was written.
pub parse_digit :
    (a d : ℕ) (w : Text)
    → d < 10
    → a * 10 + d < 2 ^ 64
    → parse_loop a ((b'0' + d) ∷ w) ≡ parse_loop (a * 10 + d) w
unfolding parse_loop
parse_digit a d w p q =
    let digit : (leb b'0' (b'0' + d) && leb (b'0' + d) b'9') ≡ true = ground arith in
    let room : ltb (ullong_max / 10) a ≡ false = ground arith in
    let sum : a * 10 % 2 ^ 64 + (b'0' + d - b'0') ≡ a * 10 + d = omega arith in
    let fits : ltb (ullong_max - (b'0' + d - b'0')) (a * 10 % 2 ^ 64) ≡ false = ground arith in
    rw (digit, room, fits, sum)

-- Digits start with none of value 0, and are read back with all that follows them.
pub record Digits (v : ℕ) (w out : Text) : Type 0 where
  pub first : ℕ
  pub rest : Text
  pub parts : out ≡ first ∷ rest
  pub low : b'1' ≤ first
  pub high : first ≤ b'9'
  pub reads : parse_loop (first - b'0') rest ≡ parse_loop v w

pub digits_loop-Digits :
    (f v : ℕ) (w : Text) → 0 < v → v < 10 ^ f → v < 2 ^ 64 → Digits v w (digits_loop f v w)
unfolding digits_loop
digits_loop-Digits zero v w pos h small = absurd (omega arith)
digits_loop-Digits (suc f) v w pos h small = elim (Bool-cases (v / 10 == 0)) [
  | inl last ↦ rw last (record {
    first = b'0' + v % 10;
    rest = w;
    parts = refl;
    low = ground arith;
    high = omega arith;
    reads = ap (λ n. parse_loop n w) (ground arith);
  })
  | inr more ↦
      let left : 0 < v / 10 = ground arith in
      let ih =
        digits_loop-Digits f (v / 10) ((b'0' + v % 10) ∷ w) left (omega (arith, ten_pow f))
          (omega arith) in
      let whole : v / 10 * 10 + v % 10 ≡ v = omega arith in
      rw more (record {
        first = ih.first;
        rest = ih.rest;
        parts = ih.parts;
        low = ih.low;
        high = ih.high;
        reads =
            ih.reads ∙ (rw whole at (parse_digit (v / 10) (v % 10) w (omega arith) (omega arith)));
      })
]

-- `ll2string` writes the digits of the whole number, with either loop.
pub magnitude-digits : (v : ℕ) → v < 2 ^ 64 → magnitude v ≡ digits_loop 32 v []
unfolding magnitude
magnitude-digits v h = elim (Bool-cases (v % 2 ^ 32 == v)) [
  | inl small ↦ rw (small, (==_iff _ _).0 small)
  | inr large ↦ rw large
]

digit_only : (v : ℕ) → v < 10 ^ 1 → (v / 10 == 0) ≡ true
digit_only v h = ground arith

pub length-digits :
    (f v : ℕ) (w : Text) (k : ℕ) → v < 10 ^ suc k → length (digits_loop f v w) ≤ suc k + length w
unfolding digits_loop
length-digits zero v w k h = omega arith
length-digits (suc f) v w zero h = rw (digit_only v h) (omega arith)
length-digits (suc f) v w (suc k) h = elim (Bool-cases (v / 10 == 0)) [
  | inl last ↦ rw last (omega arith)
  | inr more ↦ rw more (
      omega
        (arith, length-digits f (v / 10) ((b'0' + v % 10) ∷ w) k (omega (arith, ten_pow (suc k)))))
]
