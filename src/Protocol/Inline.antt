-- ===== src/Protocol/Inline.antt =====
-- A request of one line is split at its blanks.
use my_node_redis.Prelude.{
  ℕ, zero, suc, ◌+◌, ◌<◌, ◌≡◌, ◌≢◌, ◌==◌, false, some, List, [], ◌∷◌, ◌++◌, length, take, drop,
  replicate, append_assoc, append-nil, refl, ap, sym, arith, ◌∙◌,
}
use my_node_redis.Numbers.{Text}
use my_node_redis.Protocol.{
  Client, done, find_crlf, split_loop, split_len, full_tokens, split_line, process_inline_buffer,
}
use my_node_redis.Protocol.Encode.{crlf}
use my_node_redis.Protocol.Buffers.{drop_eq}

-- No byte is a blank, a carriage return or a nul.
abbrev pub AreWordBytes : Text → Type 0
AreWordBytes [] = Unit {0}
AreWordBytes (c ∷ w) = (c ≢ b' ') × (c ≢ b'\r') × (c ≢ 0) × AreWordBytes w

-- Words, each with the number of blanks behind it, which is 0 for the last at most
abbrev pub AreWords : List (Text × ℕ) → Type 0
AreWords [] = Unit {0}
AreWords ((w, n) ∷ []) = (0 < length w) × AreWordBytes w
AreWords ((w, n) ∷ (v ∷ l)) = ((0 < length w) × AreWordBytes w) × (0 < n) × AreWords (v ∷ l)

abbrev pub blanks : ℕ → Text
blanks n = replicate n b' '

unfoldable pub spaced : List (Text × ℕ) → Text
spaced [] = []
spaced ((w, n) ∷ l) = w ++ (blanks n ++ spaced l)

unfoldable pub words : List (Text × ℕ) → List Text
words [] = []
words ((w, n) ∷ l) = w ∷ words l

split_loop-blanks :
    (n : ℕ) (t : Text)
    → full_tokens (split_loop b' ' [] (blanks n ++ t)) ≡ full_tokens (split_loop b' ' [] t)
unfolding split_loop full_tokens
split_loop-blanks zero t = refl
split_loop-blanks (suc n) t = split_loop-blanks n t

split_loop-word :
    (w token t : Text)
    → AreWordBytes w
    → split_loop b' ' token (w ++ t) ≡ split_loop b' ' (token ++ w) t
unfolding split_loop
split_loop-word [] token t h = ap (λ s. split_loop b' ' s t) (sym (append-nil token))
split_loop-word (c ∷ w) token t h =
    let other : (c == b' ') ≡ false = ground (arith, h.0) in
    rw other (
      split_loop-word w (token ++ c ∷ []) t h.3
      ∙ ap (λ s. split_loop b' ' s t) (append_assoc token (c ∷ []) w))

-- a word that has been read, in front of what follows
full_tokens-word :
    (w : Text) (l : List Text) → 0 < length w → full_tokens (w ∷ l) ≡ w ∷ full_tokens l
unfolding full_tokens
full_tokens-word w l h = let full : (length w == 0) ≡ false = ground (arith, h) in rw full refl

split_loop-next :
    (w t : Text)
    → 0 < length w
    → full_tokens (split_loop b' ' w (b' ' ∷ t)) ≡ w ∷ full_tokens (split_loop b' ' [] t)
unfolding split_loop
split_loop-next w t h = full_tokens-word w (split_loop b' ' [] t) h

split_loop-end :
    (n : ℕ) (w : Text) → 0 < length w → full_tokens (split_loop b' ' w (blanks n ++ [])) ≡ w ∷ []
unfolding split_loop full_tokens
split_loop-end zero w h = full_tokens-word w [] h
split_loop-end (suc n) w h =
    full_tokens-word w (split_loop b' ' [] (blanks n ++ [])) h
    ∙ ap (λ l. w ∷ l) (split_loop-blanks n [])

split_loop-spaced :
    (l : List (Text × ℕ)) → AreWords l → full_tokens (split_loop b' ' [] (spaced l)) ≡ words l
unfolding spaced words
split_loop-spaced [] h = unfold split_loop full_tokens in refl
split_loop-spaced ((w, n) ∷ []) h =
    ap full_tokens (split_loop-word w [] (blanks n ++ []) h.1) ∙ split_loop-end n w h.0
split_loop-spaced ((w, zero) ∷ (v ∷ l)) h = absurd (omega (arith, h.1))
split_loop-spaced ((w, suc n) ∷ (v ∷ l)) h =
    let later = blanks n ++ spaced (v ∷ l) in
    ap full_tokens (split_loop-word w [] (b' ' ∷ later) h.0.1)
    ∙ split_loop-next w later h.0.0
    ∙ ap (λ r. w ∷ r) (split_loop-blanks n (spaced (v ∷ l)) ∙ split_loop-spaced (v ∷ l) h.2)

-- No byte ends a line or a string.
abbrev StaysInLine : Text → Type 0
StaysInLine [] = Unit {0}
StaysInLine (c ∷ t) = (c ≢ b'\r') × (c ≢ 0) × StaysInLine t

append-StaysInLine : (s t : Text) → StaysInLine s → StaysInLine t → StaysInLine (s ++ t)
append-StaysInLine [] t h k = k
append-StaysInLine (c ∷ s) t h k = (h.0, h.1, append-StaysInLine s t h.2 k)

blanks-StaysInLine : (n : ℕ) → StaysInLine (blanks n)
blanks-StaysInLine zero = tt
blanks-StaysInLine (suc n) =
    ((λ e. absurd (omega (arith, e))), (λ e. absurd (omega (arith, e))), blanks-StaysInLine n)

word-StaysInLine : (w : Text) → AreWordBytes w → StaysInLine w
word-StaysInLine [] h = tt
word-StaysInLine (c ∷ w) h = (h.1, h.2, word-StaysInLine w h.3)

spaced-StaysInLine : (l : List (Text × ℕ)) → AreWords l → StaysInLine (spaced l)
unfolding spaced
spaced-StaysInLine [] h = tt
spaced-StaysInLine ((w, n) ∷ []) h =
    append-StaysInLine w (blanks n ++ []) (word-StaysInLine w h.1)
      (append-StaysInLine (blanks n) [] (blanks-StaysInLine n) tt)
spaced-StaysInLine ((w, n) ∷ (v ∷ l)) h =
    append-StaysInLine w (blanks n ++ spaced (v ∷ l)) (word-StaysInLine w h.0.1) (
      append-StaysInLine (blanks n) (spaced (v ∷ l)) (blanks-StaysInLine n)
        (spaced-StaysInLine (v ∷ l) h.2))

find_crlf-line : (t rest : Text) → StaysInLine t → find_crlf (t ++ (crlf ++ rest)) ≡ some (length t)
unfolding find_crlf
find_crlf-line [] rest h = refl
find_crlf-line (c ∷ t) rest h =
    let inside : (c == b'\r') ≡ false = ground (arith, h.0) in
    let full : (c == 0) ≡ false = ground (arith, h.1) in
    rw (inside, full, find_crlf-line t rest h.2) refl

take-line : (t rest : Text) → take (length t) (t ++ rest) ≡ t
take-line [] rest = refl
take-line (c ∷ t) rest = ap (λ s. c ∷ s) (take-line t rest)

drop-line : (t rest : Text) → drop (length t + 2) (t ++ (crlf ++ rest)) ≡ rest
drop-line [] rest = refl
drop-line (c ∷ t) rest =
    drop_eq {j = suc (length t) + 2} {k = suc (length t + 2)} (c ∷ (t ++ (crlf ++ rest)))
      (omega arith)
    ∙ drop-line t rest

split_len-loop : (t : Text) → full_tokens (split_len t b' ') ≡ full_tokens (split_loop b' ' [] t)
unfolding split_len split_loop full_tokens
split_len-loop [] = refl
split_len-loop (c ∷ t) = refl

-- A line of words with blanks between, in front and behind, none of which holds a carriage return
-- or a nul, is read by `processInlineBuffer` as these words, and what is behind its end is left in
-- the buffer.
pub process_inline_buffer-words :
    {S : Type 0} (c : Client S) (front : ℕ) (l : List (Text × ℕ)) (rest : Text)
    → AreWords l
    → c.querybuf ≡ (blanks front ++ spaced l) ++ (crlf ++ rest)
    → process_inline_buffer c ≡ done (record c { argv = words l; querybuf = rest })
unfolding process_inline_buffer split_line
process_inline_buffer-words c front l rest h e =
    let line = blanks front ++ spaced l in
    let found : find_crlf c.querybuf ≡ some (length line) =
      ap find_crlf e
      ∙ find_crlf-line line rest (
          append-StaysInLine (blanks front) (spaced l) (blanks-StaysInLine front)
            (spaced-StaysInLine l h)) in
    let args : full_tokens (split_len (take (length line) c.querybuf) b' ') ≡ words l =
      ap (λ s. full_tokens (split_len s b' '))
        (ap (take (length line)) e ∙ take-line line (crlf ++ rest))
      ∙ split_len-loop line
      ∙ split_loop-blanks front (spaced l)
      ∙ split_loop-spaced l h in
    let left : drop (length line + 2) c.querybuf ≡ rest =
      ap (drop (length line + 2)) e ∙ drop-line line rest in
    rw (found, args, left) refl
