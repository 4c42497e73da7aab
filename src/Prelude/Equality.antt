-- ===== src/Prelude/Equality.antt =====
-- Types with a Boolean equality, and how often a list holds a value.
use my_node_redis.Prelude.{
  ℕ, Bool-cases, inl, inr, ◌+◌, ◌-◌, ◌≤◌, ◌≡◌, ◌↔◌, ◌==◌, ◌<◌, ==_iff, Bool, true, false,
  if◌then◌else◌, List, [], ◌∷◌, ◌++◌, length, refl, sym, arith, bool_ext,
}

pub record Eq {ℓ} (A : Type ℓ) : Type ℓ where
  pub equal : A → A → Bool
  pub equal_iff : (a b : A) → (equal a b ≡ true) ↔ (a ≡ b)

instance abbrev pub number_eq : Eq ℕ
number_eq = record { equal = ◌==◌; equal_iff = ==_iff }

module _ {ℓ} {A : Type ℓ} where
  -- how many values of a list pass a test
  unfoldable pub number : (A → Bool) → List A → ℕ
  number f [] = 0
  number f (x ∷ xs) = (if f x then 1 else 0) + number f xs

  pub number-append :
      (f : A → Bool) (xs ys : List A) → number f (xs ++ ys) ≡ number f xs + number f ys
  unfolding number
  number-append f [] ys = omega arith
  number-append f (x ∷ xs) ys = omega (arith, number-append f xs ys)

module _ {ℓ} {A : Type ℓ} ⦃e : Eq A⦄ where
  infix 50 ◌=?◌
  abbrev pub ◌=?◌ : A → A → Bool
  a =? b = e.equal a b

  abbrev pub indicator : A → A → ℕ
  indicator a b = if a =? b then 1 else 0

  -- `listSearchKey` by value, and the removal of the node it finds
  unfoldable pub contains : A → List A → Bool
  contains a [] = false
  contains a (x ∷ xs) = if a =? x then true else contains a xs

  unfoldable pub erase : A → List A → List A
  erase a [] = []
  erase a (x ∷ xs) = if a =? x then xs else x ∷ erase a xs

  unfoldable pub count : A → List A → ℕ
  count a [] = 0
  count a (x ∷ xs) = indicator a x + count a xs

  pub equal_refl : (a : A) → (a =? a) ≡ true
  equal_refl a = (e.equal_iff a a).1 refl

  pub equal_sym : (a b : A) → (a =? b) ≡ (b =? a)
  equal_sym a b =
      bool_ext _ _ (λ h. (e.equal_iff b a).1 (sym ((e.equal_iff a b).0 h)))
        (λ h. (e.equal_iff a b).1 (sym ((e.equal_iff b a).0 h)))

  pub equal_trans : (a b c : A) → (a =? b) ≡ true → (a =? c) ≡ (b =? c)
  equal_trans a b c h = rw ((e.equal_iff a b).0 h)

  pub contains-count :
      (a : A) (xs : List A) → contains a xs ≡ (if count a xs == 0 then false else true)
  unfolding contains count
  contains-count a [] = refl
  contains-count a (x ∷ xs) = ground (arith, contains-count a xs)

  pub count-append : (a : A) (xs ys : List A) → count a (xs ++ ys) ≡ count a xs + count a ys
  unfolding count
  count-append a [] ys = omega arith
  count-append a (x ∷ xs) ys = omega (arith, count-append a xs ys)

  -- One occurrence goes, if there is one.
  pub count-erase :
      (a b : A) (xs : List A) → count b (erase a xs) ≡ count b xs - (if a =? b then 1 else 0)
  unfolding count erase
  count-erase a b [] = ground arith
  count-erase a b (x ∷ xs) = ground (
    arith,
    count-erase a b xs,
    equal_trans a x b,
    equal_trans a b x,
    equal_sym x b,
    equal_sym b x,
  )

  pub count-le-length : (a : A) (xs : List A) → count a xs ≤ length xs
  unfolding count
  count-le-length a [] = omega arith
  count-le-length a (x ∷ xs) = ground (arith, count-le-length a xs)

  number-erase :
      (f : A → Bool) (a : A) (xs : List A)
      → 0 < count a xs
      → number f xs ≡ (if f a then 1 else 0) + number f (erase a xs)
  unfolding number count erase
  number-erase f a [] h = absurd (omega arith)
  number-erase f a (x ∷ xs) h = elim (Bool-cases (a =? x)) [
    | inl same ↦ rw (same, (e.equal_iff a x).0 same) refl
    | inr other ↦ rw other (omega (arith, number-erase f a xs (ground (arith, h, other))))
  ]

  -- Lists that hold the same values as often have as many values that pass a test.
  pub number-same_counts :
      (f : A → Bool) (xs ys : List A)
      → ((a : A) → count a xs ≡ count a ys)
      → number f xs ≡ number f ys
  unfolding number count
  number-same_counts f [] [] h = refl
  number-same_counts f [] (y ∷ ys) h = absurd (ground (arith, h y, equal_refl y))
  number-same_counts f (x ∷ xs) ys h = omega (
    arith,
    number-erase f x ys (ground (arith, h x, equal_refl x)),
    number-same_counts f xs (erase x ys)
        (λ a. ground (arith, h a, count-erase x a ys, equal_sym a x)),
  )
