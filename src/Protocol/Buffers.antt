-- ===== src/Protocol/Buffers.antt =====
-- What a buffer holds of a stream: what a search in it finds, and what is left behind a part.
use my_node_redis.Prelude.{
  ℕ, zero, suc, ◌+◌, ◌≤◌, ◌<◌, ◌≡◌, ◌⊎◌, inl, inr, ◌==◌, none, some, List, [], ◌∷◌, ◌++◌, length,
  take, drop, refl, ap, arith, false, ◌∙◌,
}
use my_node_redis.Numbers.{Text}
use my_node_redis.Protocol.{find_char}
use my_node_redis.Protocol.Encode.{AreDigits}

module _ {ℓ} {A : Type ℓ} where
  pub drop_eq : {j k : ℕ} (s : List A) → j ≡ k → drop j s ≡ drop k s
  drop_eq s e = ap (λ k. drop k s) e

  pub drop-drop : (m n : ℕ) (s : List A) → drop (m + n) s ≡ drop n (drop m s)
  drop-drop zero n s = drop_eq s (omega arith)
  drop-drop (suc m) zero [] = drop_eq {j = suc m + 0} {k = suc m} [] (omega arith)
  drop-drop (suc m) (suc n) [] = drop_eq {j = suc m + suc n} {k = suc (m + suc n)} [] (omega arith)
  drop-drop (suc m) n (x ∷ s) =
      drop_eq {j = suc m + n} {k = suc (m + n)} (x ∷ s) (omega arith) ∙ drop-drop m n s

  pub drop_all : (n : ℕ) (s : List A) → length s ≤ n → drop n s ≡ []
  drop_all zero [] h = refl
  drop_all zero (x ∷ s) h = absurd (omega arith)
  drop_all (suc n) [] h = refl
  drop_all (suc n) (x ∷ s) h = drop_all n s (omega arith)

-- A buffer that holds all of a part of the stream starts with it.
pub buffer-starts :
    (a t later more : Text)
    → t ++ later ≡ a ++ more
    → length a ≤ length t
    → (take (length a) t ≡ a) × (drop (length a) t ++ later ≡ more)
buffer-starts [] t later more e h = (refl, e)
buffer-starts (x ∷ a) [] later more e h = absurd (omega arith)
buffer-starts (x ∷ a) (y ∷ t) later more e h =
    let same : t ++ later ≡ a ++ more = cc in
    let first : y ≡ x = cc in
    let rest = buffer-starts a t later more same (omega arith) in (rw (first, rest.0), rest.1)

-- The search for the end of a length line
abbrev pub FindsEnd : Text → Text → Type 0
FindsEnd s t =
    ((find_char b'\r' t ≡ some (length s)) × (length s < length t))
    ⊎ ((find_char b'\r' t ≡ none) × (length t ≤ length s))

pub find_char-digits :
    (s t later more : Text) → AreDigits s → t ++ later ≡ s ++ b'\r' ∷ more → FindsEnd s t
unfolding find_char
find_char-digits [] [] later more d e = inr (refl, omega arith)
find_char-digits [] (y ∷ t) later more d e =
    let first : y ≡ b'\r' = cc in inl (rw first, omega arith)
find_char-digits (x ∷ s) [] later more d e = inr (refl, omega arith)
find_char-digits (x ∷ s) (y ∷ t) later more d e =
    let same : t ++ later ≡ s ++ b'\r' ∷ more = cc in
    let first : y ≡ x = cc in
    let end : (y == b'\r') ≡ false = ground arith in
    let nul : (y == 0) ≡ false = ground arith in
    elim (find_char-digits s t later more d.2 same) [
      | inl f ↦ inl (rw (end, nul, f.0), omega (arith, f.1))
      | inr f ↦ inr (rw (end, nul, f.0), omega (arith, f.1))
    ]
