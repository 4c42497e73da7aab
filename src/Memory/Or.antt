-- ===== src/Memory/Or.antt =====
-- `|` of numbers that have no digit in common.
use Prim.Native.Nat.{bit_or, digits, max, bit_or-bitwise}
use native.Mathlib.Nat.{pow-suc}
use my_node_redis.Prelude.{ℕ, zero, suc, ◌+◌, ◌*◌, ◌/◌, ◌%◌, ◌^◌, ◌≤◌, ◌<◌, ◌≡◌, refl, arith}

abbrev or_digits : ℕ → ℕ → ℕ → ℕ
or_digits n x y = digits (λ r. r) max n x y

-- More rounds than the first number needs change nothing.
or_rounds : (x y n k : ℕ) → x ≤ k → x ≤ n → or_digits n x y ≡ or_digits k x y
or_rounds zero y zero zero p q = refl
or_rounds zero y (suc n) zero p q = refl
or_rounds zero y zero (suc k) p q = refl
or_rounds zero y (suc n) (suc k) p q = refl
or_rounds (suc x) y zero k p q = absurd (omega arith)
or_rounds (suc x) y (suc n) zero p q = absurd (omega arith)
or_rounds (suc x) y (suc n) (suc k) p q =
    omega (arith, or_rounds (suc x / 2) (y / 2) n k (omega arith) (omega arith))

or_none : (y : ℕ) → bit_or 0 y ≡ y
or_none y = bit_or-bitwise 0 y

bit_or-digit : (x y : ℕ) → bit_or x y ≡ 2 * bit_or (x / 2) (y / 2) + max (x % 2) (y % 2)
bit_or-digit zero y = ground (arith, or_none y, or_none (y / 2))
bit_or-digit (suc x) y = omega (
  arith,
  bit_or-bitwise (suc x) y,
  bit_or-bitwise (suc x / 2) (y / 2),
  or_rounds (suc x / 2) (y / 2) x (suc x / 2) (omega arith) (omega arith),
)

or_zero : (n x : ℕ) → x ≤ n → bit_or x 0 ≡ x
or_zero n zero h = or_none 0
or_zero zero (suc x) h = absurd (omega arith)
or_zero (suc n) (suc x) h =
    ground (arith, bit_or-digit (suc x) 0, or_zero n (suc x / 2) (omega arith))

-- A number below 2 ^ k goes beside one that is shifted by k.
pub bit_or-shift : (k a b : ℕ) → b < 2 ^ k → bit_or (a * 2 ^ k) b ≡ a * 2 ^ k + b
bit_or-shift zero a b h =
    let none : b ≡ 0 = omega (arith, h) in
    let same : a * 2 ^ 0 ≡ a = omega arith in
    rw (none, same, or_zero a a (omega arith)) (omega arith)
bit_or-shift (suc k) a b h =
    let twice : a * 2 ^ suc k ≡ 2 * (a * 2 ^ k) = rw (pow-suc 2 k) (grind arith) in
    let half : b / 2 < 2 ^ k = omega (arith, pow-suc 2 k) in
    let halved : 2 * (a * 2 ^ k) / 2 ≡ a * 2 ^ k = omega arith in
    let even : 2 * (a * 2 ^ k) % 2 ≡ 0 = omega arith in
    rw (twice, bit_or-digit (2 * (a * 2 ^ k)) b, halved, even, bit_or-shift k a (b / 2) half)
      (ground arith)
