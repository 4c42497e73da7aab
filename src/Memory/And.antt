-- ===== src/Memory/And.antt =====
-- `&` with a mask of ones, digit by digit.
use Prim.Native.Nat.{bit_and, digits, min, bit_and-bitwise}
use my_node_redis.Prelude.{ℕ, zero, suc, ◌+◌, ◌*◌, ◌/◌, ◌%◌, ◌≤◌, ◌≡◌, refl, ◌∙◌, arith}

abbrev and_loop : ℕ → ℕ → ℕ → ℕ
and_loop n x y = digits (λ r. 0) min n x y

and_loop-rounds : (x y n k : ℕ) → x ≤ k → x ≤ n → and_loop n x y ≡ and_loop k x y
and_loop-rounds zero y zero zero p q = refl
and_loop-rounds zero y (suc n) zero p q = refl
and_loop-rounds zero y zero (suc k) p q = refl
and_loop-rounds zero y (suc n) (suc k) p q = refl
and_loop-rounds (suc x) y zero k p q = absurd (omega arith)
and_loop-rounds (suc x) y (suc n) zero p q = absurd (omega arith)
and_loop-rounds (suc x) y (suc n) (suc k) p q =
    omega (arith, and_loop-rounds (suc x / 2) (y / 2) n k (omega arith) (omega arith))

and_none : (y : ℕ) → bit_and 0 y ≡ 0
and_none y = bit_and-bitwise 0 y

bit_and-digit : (x y : ℕ) → bit_and x y ≡ 2 * bit_and (x / 2) (y / 2) + min (x % 2) (y % 2)
bit_and-digit zero y = ground (arith, and_none y, and_none (y / 2))
bit_and-digit (suc x) y = omega (
  arith,
  bit_and-bitwise (suc x) y,
  bit_and-bitwise (suc x / 2) (y / 2),
  and_loop-rounds (suc x / 2) (y / 2) x (suc x / 2) (omega arith) (omega arith),
)

and_zero : (n x : ℕ) → x ≤ n → bit_and x 0 ≡ 0
and_zero n zero h = and_none 0
and_zero zero (suc x) h = absurd (omega arith)
and_zero (suc n) (suc x) h =
    ground (arith, bit_and-digit (suc x) 0, and_zero n (suc x / 2) (omega arith))

-- One more digit of the mask.
and_more : (c x : ℕ) → bit_and x (2 * c + 1) ≡ 2 * bit_and (x / 2) c + x % 2
and_more c x =
    let half : (2 * c + 1) / 2 ≡ c = omega arith in
    bit_and-digit x (2 * c + 1) ∙ rw half (omega arith)

and_1 : (x : ℕ) → bit_and x 1 ≡ x % 2
and_1 x = omega (arith, and_more 0 x, and_zero (x / 2) (x / 2) (omega arith))

and_7 : (x : ℕ) → bit_and x 7 ≡ x % 8
and_7 x = omega (arith, and_more 3 x, and_more 1 (x / 2), and_1 (x / 2 / 2))

pub and_15 : (x : ℕ) → bit_and x 15 ≡ x % 16
and_15 x = omega (arith, and_more 7 x, and_7 (x / 2))

pub and_63 : (x : ℕ) → bit_and x 63 ≡ x % 64
and_63 x =
    omega (arith, and_more 31 x, and_more 15 (x / 2), and_more 7 (x / 2 / 2), and_7 (x / 2 / 2 / 2))

pub and_255 : (x : ℕ) → bit_and x 255 ≡ x % 256
and_255 x = omega (arith, and_more 127 x, and_more 63 (x / 2), and_63 (x / 2 / 2))
