-- ===== src/Rdb/Stored.antt =====
-- What it means that a writer stores a text, and the two plain forms: verbatim and as an integer
-- (`rdbSaveRawString`, `rdbTryIntegerEncoding`).
use my_node_redis.Prelude.{
  ℕ, suc, ◌-◌, ◌%◌, ◌^◌, ◌≤◌, ◌<◌, ◌≡◌, ◌==◌, ==_iff, ltb, leb, Bool-cases, true, false, refl,
  arith, ap, sym, ◌∙◌, some, [], ◌∷◌, ◌++◌, length, length-append, append_assoc, append-nil, take,
  drop, inl, inr,
}
use my_node_redis.Prelude.Int.{ℤ, pos, negsuc}
use my_node_redis.Memory.Laws.{Fits}
use my_node_redis.Numbers.{Text, ll2string, digits_loop}
use my_node_redis.Numbers.Print.{magnitude-digits, digits_fuel}
use my_node_redis.Numbers.Parse.{ll2string-pos, ll2string-negsuc}
use my_node_redis.Rdb.{
  Rio, M, External, raw_object, object, read, within, lenerr, encode_integer, same_text,
  from_long_long, made, load_string, load_verbatim, try_integer_encoding, save_verbatim,
}
use my_node_redis.Rdb.Lengths.{
  IsOpen, put, put-IsOpen, image, length-image, write_raw-put, save_len-image, load_len-image,
}
use my_node_redis.Rdb.Integers.{length-encode_integer, load_string-encode_integer}

-- What is asked of the compressor: its output is no larger than the buffer, and is undone.
pub record Undoes (ext : External) : Type 0 where
  pub bounded : (s : Text) (n : ℕ) (c : Text) → ext.compress s n ≡ some c → length c ≤ n
  pub undone :
      (s : Text) (n : ℕ) (c : Text)
      → ext.compress s n ≡ some c
      → ext.decompress c (length s) ≡ some s

-- The writer returns the number of bytes it writes, an int, and these are read as the text.
pub record Stored (ext : External) (m : M ℕ) (s : Text) : Type 0 where
  pub bytes : Text
  pub is_int : length bytes < 2 ^ 31
  pub writes : (r : Rio) → IsOpen r → m r ≡ (some (length bytes), put bytes r)
  pub reads : (rest : Text) → load_string ext false (bytes ++ rest) ≡ object (raw_object s) rest

drop-append : (s rest : Text) → drop (length s) (s ++ rest) ≡ rest
drop-append [] rest = refl
drop-append (x ∷ s) rest = drop-append s rest

take-append : (s rest : Text) → take (length s) (s ++ rest) ≡ s
take-append [] rest = refl
take-append (x ∷ s) rest = ap (λ t. x ∷ t) (take-append s rest)

pub read-append : (s rest : Text) → read (length s) (s ++ rest) ≡ some (s, rest)
unfolding read
read-append s rest =
    let enough : leb (length s) (length (s ++ rest)) ≡ true =
      rw (length-append s rest) (ground arith) in
    rw (enough, take-append s rest, drop-append s rest)

pub put-put : (p q : Text) (r : Rio) → put q (put p r) ≡ put (p ++ q) r
put-put p q r = ap (λ w. record r { written = w }) (append_assoc r.written p q)

same_text-eq : (s t : Text) → same_text s t ≡ true → s ≡ t
unfolding same_text
same_text-eq [] [] h = refl
same_text-eq [] (y ∷ t) h = cc
same_text-eq (x ∷ s) [] h = cc
same_text-eq (x ∷ s) (y ∷ t) h = elim (Bool-cases (x == y)) [
  | inl e ↦ rw ((==_iff _ _).0 e, same_text-eq s t (rw e at h))
  | inr e ↦ cc (rw e at h)
]

empty : (s : Text) → length s ≡ 0 → s ≡ []
empty [] h = refl
empty (x ∷ s) h = absurd (omega arith)

module _ (ext : External) (s : Text) (short : length s < 2 ^ 31 - 16) where
  pub verbatim-reads :
      (rest : Text)
      → load_string ext false ((image (length s) ++ s) ++ rest) ≡ object (raw_object s) rest
  unfolding load_string load_verbatim
  verbatim-reads rest =
      let whole : (length s == lenerr) ≡ false = ground arith in
      rw (
        append_assoc (image (length s)) s rest,
        load_len-image (length s) (s ++ rest) (omega arith),
        whole,
        read-append s rest,
      )

  verbatim-writes :
      (r : Rio)
      → IsOpen r
      → save_verbatim ext s r
        ≡ (some (length (image (length s) ++ s)), put (image (length s) ++ s) r)
  unfolding save_verbatim
  verbatim-writes r o =
      let low : length s % 2 ^ 32 ≡ length s = omega arith in
      let head : Text = image (length s) in
      rw (low, save_len-image (length s) r o)
        (elim (Bool-cases (ltb 0 (length s))) [
          | inl some_text ↦
              rw (some_text, write_raw-put s (put head r) (put-IsOpen head r o), put-put head s r)
                (ap (λ n. (some n, put (head ++ s) r)) (sym (length-append head s)))
          | inr no_text ↦
              let nothing : s ≡ [] = empty s (ground arith) in
              rw (no_text, nothing, append-nil (image 0))
        ])

  pub verbatim-Stored : Stored ext (save_verbatim ext s) s
  verbatim-Stored = record {
    bytes = image (length s) ++ s;
    is_int = omega (arith, length-append (image (length s)) s, length-image (length s));
    writes = verbatim-writes;
    reads = verbatim-reads;
  }

from_long_long-pos : (n : ℕ) → from_long_long (pos n) ≡ digits_loop 31 n []
unfolding from_long_long
from_long_long-pos n = ground arith

from_long_long-negsuc : (n : ℕ) → from_long_long (negsuc n) ≡ b'-' ∷ digits_loop 31 (suc n) []
unfolding from_long_long
from_long_long-negsuc n = ground arith

-- `sdsfromlonglong` and `ll2string` agree.
pub from_long_long-ll2string : (v : ℤ) → Fits 8 v → from_long_long v ≡ ll2string 32 v
from_long_long-ll2string (pos n) f =
    from_long_long-pos n
    ∙ digits_fuel 31 32 n [] (omega arith) (omega arith) (omega arith) (omega arith)
    ∙ sym (magnitude-digits n (omega arith))
    ∙ sym (ll2string-pos 32 n (omega arith) (omega arith))
from_long_long-ll2string (negsuc n) f =
    from_long_long-negsuc n
    ∙ ap (λ t. b'-' ∷ t)
        (digits_fuel 31 32 (suc n) [] (omega arith) (omega arith) (omega arith) (omega arith)
          ∙ sym (magnitude-digits (suc n) (omega arith)))
    ∙ sym (ll2string-negsuc 32 n (omega arith) (omega arith))

within-Fits : (v : ℤ) → within v (2 ^ 31) ≡ true → Fits 8 v
within-Fits (pos n) h = (ground arith, ground arith)
within-Fits (negsuc n) h = (ground arith, ground arith)

module _ (ext : External) (v : ℤ) (small : within v (2 ^ 31) ≡ true) where
  pub encoded-reads :
      (rest : Text)
      → load_string ext false (encode_integer v ++ rest) ≡ object (raw_object (ll2string 32 v)) rest
  unfolding made
  encoded-reads rest =
      load_string-encode_integer ext false v rest small
      ∙ ap (λ t. object (raw_object t) rest) (from_long_long-ll2string v (within-Fits v small))

pub record Integer (ext : External) (s : Text) : Type 0 where
  pub value : ℤ
  pub small : within value (2 ^ 31) ≡ true
  pub text : s ≡ ll2string 32 value
  pub bytes : try_integer_encoding ext s ≡ encode_integer value

pub try_integer_encoding-Integer :
    (ext : External) (s : Text) → ltb 0 (length (try_integer_encoding ext s)) ≡ true → Integer ext s
unfolding try_integer_encoding
try_integer_encoding-Integer ext s h = elim (Bool-cases (ext.strtoll s).1) [
  | inr part ↦ cc (rw part at h)
  | inl whole ↦ elim (Bool-cases (same_text (ll2string 32 (ext.strtoll s).0) s)) [
    | inr other ↦ cc (rw (whole, other) at h)
    | inl same ↦ record {
      value = (ext.strtoll s).0;
      small = sym (length-encode_integer (ext.strtoll s).0) ∙ (rw (whole, same) at h);
      text = sym (same_text-eq _ _ same);
      bytes = rw (whole, same);
    }
  ]
]
