-- ===== src/Protocol/Header.antt =====
-- A length line at the front of a buffer: a mark, a decimal number, and the end of the line.
use my_node_redis.Prelude.{
  ℕ, suc, ◌+◌, ◌-◌, ◌^◌, ◌≤◌, ◌<◌, ◌≡◌, ◌⊎◌, inl, inr, ◌==◌, false, none, some, [], ◌∷◌, ◌++◌,
  length, length-append, ltb, Bool-cases, take, drop, append_assoc, refl, ap, arith, ◌∙◌,
}
use my_node_redis.Prelude.Int.{pos}
use my_node_redis.Numbers.{Text, ll2string, string2ll}
use my_node_redis.Protocol.{find_char, head_or, next_index}
use my_node_redis.Protocol.Encode.{crlf, length_line, ll2string-Decimal}
use my_node_redis.Protocol.Buffers.{buffer-starts, find_char-digits}

-- The number as it is written
abbrev pub decimal : ℕ → Text
decimal n = ll2string 31 (pos n)

-- The buffer ends within the line.
pub record IsCut (t later : Text) : Type 0 where
  pub short : length t ≤ 22
  pub more : 0 < length later
  pub absent :
      (find_char b'\r' t ≡ none) ⊎ ((i : ℕ) × (find_char b'\r' t ≡ some i) × (length t < i + 2))

-- The buffer has the line.
pub record IsWhole (mark n : ℕ) (t later rest : Text) : Type 0 where
  pub end : ℕ
  pub found : find_char b'\r' t ≡ some end
  pub fits : end + 2 ≤ length t
  pub marked : head_or t 0 ≡ mark
  pub reads : string2ll (take (end - 1) (drop 1 t)) ≡ some (pos n)
  pub left : drop (end + 2) t ++ later ≡ rest

module _ (mark n : ℕ) (later rest : Text) (small : n < 2 ^ 62) (plain : (mark == b'\r') ≡ false)
    (some_mark : (mark == 0) ≡ false) where
  pub length_line-cases :
      (t : Text)
      → t ++ later ≡ length_line mark n ++ rest
      → IsCut t later ⊎ IsWhole mark n t later rest
  unfolding length_line find_char
  length_line-cases [] e =
      let d = ll2string-Decimal n small in
      inl (record { short = omega arith; more = rw e (omega arith); absent = inl refl })
  length_line-cases (y ∷ t) e =
      let d = ll2string-Decimal n small in
      let first : y ≡ mark = cc in
      let behind : t ++ later ≡ (decimal n ++ crlf) ++ rest = cc in
      let line : t ++ later ≡ decimal n ++ (crlf ++ rest) =
        behind ∙ append_assoc (decimal n) crlf rest in
      let sizes : length t + length later ≡ length (decimal n) + 2 + length rest =
        omega (
          arith,
          ap length line,
          length-append t later,
          length-append (decimal n) (crlf ++ rest),
        ) in
      let next : find_char b'\r' (y ∷ t) ≡ next_index (find_char b'\r' t) =
        rw (first, plain, some_mark) refl in
      elim (find_char-digits (decimal n) t later (b'\n' ∷ rest) d.digits line) [
        | inr (absent, short) ↦ inl (record {
          short = omega (arith, d.short);
          more = omega arith;
          absent = inl (next ∙ ap next_index absent);
        })
        | inl (found, inside) ↦
            let here : find_char b'\r' (y ∷ t) ≡ some (suc (length (decimal n))) =
              next ∙ ap next_index found in
            elim (Bool-cases (ltb (length t) (length (decimal n) + 2))) [
              | inl cut ↦ inl (record {
                short = ground (arith, d.short, cut);
                more = ground (arith, cut, sizes);
                absent = inr (suc (length (decimal n)), here, ground (arith, cut));
              })
              | inr whole ↦
                  let room : length (decimal n ++ crlf) ≤ length t =
                    ground (arith, whole, length-append (decimal n) crlf) in
                  let size = length-append (decimal n) crlf in
                  let less : suc (length (decimal n)) - 1 ≡ length (decimal n) = omega arith in
                  let skip : suc (length (decimal n)) + 2 ≡ suc (length (decimal n ++ crlf)) =
                    omega (arith, size) in
                  let number =
                    buffer-starts (decimal n) t later (crlf ++ rest) line (omega arith) in
                  inr (record {
                    end = suc (length (decimal n));
                    found = here;
                    fits = ground (arith, whole);
                    marked = first;
                    reads = rw (less, number.0) (d.reads);
                    left = rw skip ((buffer-starts (decimal n ++ crlf) t later rest behind room).1);
                  })
            ]
      ]
