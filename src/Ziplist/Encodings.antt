-- ===== src/Ziplist/Encodings.antt =====
-- Which encodings `zipTryEncoding` chooses, and for which values.
use mathlib.Core.Option.{some-injective}
use my_node_redis.Prelude.{
  ℕ, ◌+◌, ◌≤◌, ◌<◌, ◌≡◌, ◌==◌, leb, Bool, Bool-cases, Option-cases, true, false, ◌&&◌, ◌||◌,
  if◌then◌else◌, Option, none, some, List, [], ◌∷◌, length, inl, inr, refl, arith, ap, sym, ◌∙◌,
}
use my_node_redis.Prelude.Int.{ℤ, pos_part}
use my_node_redis.Memory.Laws.{Fits}
use my_node_redis.Numbers.{signed, parse_magnitude, string2ll}
use my_node_redis.Ziplist.{
  zip_is_str, int_encoding, zip_try_encoding, zip_int_8b, zip_int_16b, zip_int_24b, zip_int_32b,
  zip_int_64b,
}
use my_node_redis.Ziplist.Reads.{and_192}
use my_node_redis.Ziplist.Integers.{immediate_part}

-- the encodings of integers: bytes that are no encoding of a string
abbrev pub IsInteger : ℕ → Type 0
IsInteger enc = (enc < 256) × (zip_is_str enc ≡ false)

choose-IsInteger :
    (b : Bool) (x y : ℕ) → (b ≡ true → IsInteger x) → IsInteger y → IsInteger (if b then x else y)
choose-IsInteger true x y f h = f refl
choose-IsInteger false x y f h = h

immediate-IsInteger : (n : ℕ) → n ≤ 12 → IsInteger (0xf1 + n)
immediate-IsInteger n h = (omega arith, ground (arith, and_192 (0xf1 + n)))

pub int_encoding-IsInteger : (v : ℤ) → IsInteger (int_encoding v)
unfolding int_encoding
int_encoding-IsInteger v =
    let w8 : IsInteger zip_int_8b = (omega arith, refl) in
    let w16 : IsInteger zip_int_16b = (omega arith, refl) in
    let w24 : IsInteger zip_int_24b = (omega arith, refl) in
    let w32 : IsInteger zip_int_32b = (omega arith, refl) in
    let w64 : IsInteger zip_int_64b = (omega arith, refl) in
    choose-IsInteger _ _ _ (λ h. immediate-IsInteger (pos_part v) ((immediate_part v h).1))
      (choose-IsInteger _ _ _ (λ h. w8)
        (choose-IsInteger _ _ _ (λ h. w16)
          (choose-IsInteger _ _ _ (λ h. w24) (choose-IsInteger _ _ _ (λ h. w32) w64))))

signed-Fits : (b : Bool) (o : Option ℕ) (v : ℤ) → signed b o ≡ some v → Fits 8 v
unfolding signed
signed-Fits b none v h = cc
signed-Fits true (some n) v h = ground arith
signed-Fits false (some n) v h = ground arith

string2ll-Fits : (s : List ℕ) (v : ℤ) → string2ll s ≡ some v → Fits 8 v
unfolding string2ll
string2ll-Fits [] v h = cc
string2ll-Fits (c ∷ r) v h = elim (Bool-cases (c == b'0' && length r == 0)) [
  | inl zero ↦ ground arith
  | inr other ↦ elim (Bool-cases (c == b'-')) [
    | inl minus ↦ signed-Fits true (parse_magnitude r) v (rw (other, minus) at h)
    | inr plus ↦ signed-Fits false (parse_magnitude (c ∷ r)) v (rw (other, plus) at h)
  ]
]

pub zip_try_encoding-some :
    (s : List ℕ) (v : ℤ) (enc : ℕ)
    → zip_try_encoding s ≡ some (v, enc)
    → Fits 8 v × (enc ≡ int_encoding v) × (string2ll s ≡ some v)
unfolding zip_try_encoding
zip_try_encoding-some s v enc h = elim (Bool-cases (leb 32 (length s) || length s == 0)) [
  | inl long ↦ absurd (cc (rw long at h))
  | inr short ↦ elim (Option-cases (string2ll s)) [
    | inl lacks ↦ absurd (cc (rw (short, lacks) at h))
    | inr (u, some_u) ↦
        let same : (u, int_encoding u) ≡ (v, enc) = some-injective _ _ (rw (short, some_u) at h) in
        let same_v : u ≡ v = ap (λ x. x.0) same in
        (
          rw (← same_v) (string2ll-Fits s u some_u),
          sym (ap (λ x. x.1) same) ∙ ap int_encoding same_v,
          rw (← same_v) some_u,
        )
  ]
]
