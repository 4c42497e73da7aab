-- ===== src/Protocol/Encode.antt =====
-- redis/src/aof.c: `catAppendOnlyGenericCommand`, which writes a command in the form that clients
-- send it in.
use my_node_redis.Prelude.{
  ℕ, zero, suc, ◌+◌, ◌/◌, ◌%◌, ◌^◌, ◌≤◌, ◌<◌, ◌≡◌, ◌==◌, Bool-cases, inl, inr, some, List, [], ◌∷◌,
  ◌++◌, length, append_assoc, append-nil, sym, ◌∙◌, arith,
}
use my_node_redis.Prelude.Int.{pos}
use my_node_redis.Numbers.{Text, digits_loop, ll2string, string2ll}
use my_node_redis.Numbers.Print.{magnitude-digits, length-digits}
use my_node_redis.Numbers.Parse.{string2ll-ll2string, ll2string-pos}

abbrev pub crlf : Text
crlf = b'\r' ∷ b'\n' ∷ []

-- `buf` with a mark in front of a number
unfoldable pub length_line : ℕ → ℕ → Text
length_line mark n = mark ∷ (ll2string 31 (pos n) ++ crlf)

-- the loop over the arguments
unfoldable pub cat_arguments : Text → List Text → Text
cat_arguments dst [] = dst
cat_arguments dst (o ∷ argv) =
    cat_arguments (((dst ++ length_line b'$' (length o)) ++ o) ++ crlf) argv

-- `catAppendOnlyGenericCommand`; an sds is a text, as long as its length fits the int `len`, which
-- theorems ask for
unfoldable pub cat_append_only_generic_command : Text → List Text → Text
cat_append_only_generic_command dst argv =
    cat_arguments (dst ++ length_line b'*' (length argv)) argv

-- The same with no accumulator
unfoldable pub bulks : List Text → Text
bulks [] = []
bulks (a ∷ l) = length_line b'$' (length a) ++ (a ++ (crlf ++ bulks l))

unfoldable pub request : List Text → Text
request argv = length_line b'*' (length argv) ++ bulks argv

cat_arguments-bulks : (dst : Text) (l : List Text) → cat_arguments dst l ≡ dst ++ bulks l
unfolding cat_arguments bulks
cat_arguments-bulks dst [] = sym (append-nil dst)
cat_arguments-bulks dst (a ∷ l) =
    cat_arguments-bulks (((dst ++ length_line b'$' (length a)) ++ a) ++ crlf) l ∙ simp append_assoc

pub cat-request :
    (dst : Text) (argv : List Text) → cat_append_only_generic_command dst argv ≡ dst ++ request argv
unfolding cat_append_only_generic_command request
cat-request dst argv = simp (cat_arguments-bulks, append_assoc)

abbrev pub AreDigits : Text → Type 0
AreDigits [] = Unit {0}
AreDigits (c ∷ s) = (b'0' ≤ c) × (c ≤ b'9') × AreDigits s

digits_loop-AreDigits : (f v : ℕ) (w : Text) → AreDigits w → AreDigits (digits_loop f v w)
unfolding digits_loop
digits_loop-AreDigits zero v w h = h
digits_loop-AreDigits (suc f) v w h =
    let longer : AreDigits ((b'0' + v % 10) ∷ w) = (omega arith, omega arith, h) in
    elim (Bool-cases (v / 10 == 0)) [
      | inl last ↦ rw last longer
      | inr more ↦ rw more (digits_loop-AreDigits f (v / 10) ((b'0' + v % 10) ∷ w) longer)
    ]

-- The number of a length line
pub record Decimal (n : ℕ) (s : Text) : Type 0 where
  pub digits : AreDigits s
  pub short : length s ≤ 20
  pub reads : string2ll s ≡ some (pos n)

pub ll2string-Decimal : (n : ℕ) → n < 2 ^ 62 → Decimal n (ll2string 31 (pos n))
ll2string-Decimal n h = record {
  digits =
      rw (ll2string-pos 31 n (omega arith) (omega arith), magnitude-digits n (omega arith))
        (digits_loop-AreDigits 32 n [] tt);
  short =
      rw (ll2string-pos 31 n (omega arith) (omega arith), magnitude-digits n (omega arith))
        (omega (arith, length-digits 32 n [] 18 (omega arith)));
  reads = string2ll-ll2string 31 (pos n) (omega arith) (omega arith, omega arith);
}
