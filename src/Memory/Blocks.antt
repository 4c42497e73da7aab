-- ===== src/Memory/Blocks.antt =====
-- Runs of bytes in a block: `memcpy` into it, and the text that stands at an address.
use my_node_redis.Prelude.{
  ℕ, zero, suc, ◌+◌, ◌-◌, ◌≤◌, ◌<◌, ◌≡◌, ◌⊎◌, ◌==◌, true, false, refl, arith, ap, ◌∙◌, min, List,
  [], ◌∷◌, ◌++◌, length, take, drop,
}
use my_node_redis.Memory.{Bytes, update}

-- `memcpy(m + a, s, length s)`
unfoldable pub copy : Bytes → ℕ → List ℕ → Bytes
unfolding update
copy m a [] = m
copy m a (x ∷ s) = update (copy m (a + 1) s) a x

-- the `n` bytes from `a` on
unfoldable pub bytes : Bytes → ℕ → ℕ → List ℕ
bytes m a zero = []
bytes m a (suc n) = m a ∷ bytes m (a + 1) n

pub bytes_ext :
    (m m' : Bytes) (a b n : ℕ)
    → ((i : ℕ) → i < n → m (a + i) ≡ m' (b + i))
    → bytes m a n ≡ bytes m' b n
unfolding bytes
bytes_ext m m' a b zero h = refl
bytes_ext m m' a b (suc n) h =
    let here : m a ≡ m' b = rw (a_zero a, a_zero b) at (h 0 (omega arith)) in
    rw (
      here,
      bytes_ext m m' (a + 1) (b + 1) n
          (λ i lt. rw (shift a i, shift b i) (h (suc i) (omega arith))),
    )
  where
    a_zero : (a : ℕ) → a + 0 ≡ a
    a_zero a = omega arith

    shift : (a i : ℕ) → a + 1 + i ≡ a + suc i
    shift a i = omega arith

pub bytes-append : (m : Bytes) (a n k : ℕ) → bytes m a (n + k) ≡ bytes m a n ++ bytes m (a + n) k
unfolding bytes
bytes-append m a zero k = rw (k_zero, a_zero)
  where
    k_zero : 0 + k ≡ k
    k_zero = omega arith

    a_zero : a + 0 ≡ a
    a_zero = omega arith
bytes-append m a (suc n) k = rw (suc_front n k) (rw (bytes-append m (a + 1) n k, step a n))
  where
    suc_front : (n k : ℕ) → suc n + k ≡ suc (n + k)
    suc_front n k = omega arith

    step : (a n : ℕ) → a + 1 + n ≡ a + suc n
    step a n = omega arith

pub length-bytes : (m : Bytes) (a n : ℕ) → length (bytes m a n) ≡ n
unfolding bytes
length-bytes m a zero = refl
length-bytes m a (suc n) = ap suc (length-bytes m (a + 1) n)

pub copy_outside :
    (m : Bytes) (a : ℕ) (s : List ℕ) (i : ℕ) → (i < a) ⊎ (a + length s ≤ i) → copy m a s i ≡ m i
unfolding copy
copy_outside m a [] i h = refl
copy_outside m a (x ∷ s) i h =
    let other : (i == a) ≡ false = ground arith in
    rw (other, copy_outside m (a + 1) s i (omega arith))

pub bytes-copy : (m : Bytes) (a : ℕ) (s : List ℕ) → bytes (copy m a s) a (length s) ≡ s
unfolding copy bytes
bytes-copy m a [] = refl
bytes-copy m a (x ∷ s) =
    let self : (a == a) ≡ true = ground arith in
    rw self (
      ap (λ t. x ∷ t)
        (bytes_ext _ (copy m (a + 1) s) (a + 1) (a + 1) (length s) (λ i h. later i)
          ∙ bytes-copy m (a + 1) s))
  where
    later : (i : ℕ) → update (copy m (a + 1) s) a x (a + 1 + i) ≡ copy m (a + 1) s (a + 1 + i)
    later i = let beyond : (a + 1 + i == a) ≡ false = ground arith in rw beyond

pub take-bytes : (m : Bytes) (a n k : ℕ) → take k (bytes m a n) ≡ bytes m a (min k n)
unfolding bytes
take-bytes m a n zero = ap (λ x. bytes m a x) {x = 0} (omega arith)
take-bytes m a zero (suc k) = ap (λ x. bytes m a x) {x = 0} (omega arith)
take-bytes m a (suc n) (suc k) = rw (minimum n k) (rw (take-bytes m (a + 1) n k))
  where
    minimum : (n k : ℕ) → min (suc k) (suc n) ≡ suc (min k n)
    minimum n k = omega arith

pub drop-bytes : (m : Bytes) (a n k : ℕ) → drop k (bytes m a n) ≡ bytes m (a + k) (n - k)
unfolding bytes
drop-bytes m a n zero = rw (a_zero, n_zero)
  where
    a_zero : a + 0 ≡ a
    a_zero = omega arith

    n_zero : n - 0 ≡ n
    n_zero = omega arith
drop-bytes m a zero (suc k) = ap (λ x. bytes m (a + suc k) x) {x = 0} (omega arith)
drop-bytes m a (suc n) (suc k) = drop-bytes m (a + 1) n k ∙ rw (shift, less)
  where
    shift : a + 1 + k ≡ a + suc k
    shift = omega arith

    less : suc n - suc k ≡ n - k
    less = omega arith
