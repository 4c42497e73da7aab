-- ===== src/Sds/Slice.antt =====
-- `sdsrange` as a slice of the text.
use my_node_redis.Prelude.{
  ℕ, suc, ◌+◌, ◌-◌, ◌≤◌, ◌<◌, ◌≡◌, inl, inr, ltb, leb, ◌==◌, ==_iff, ◌||◌, ◌&&◌, if◌then◌else◌,
  true, Bool-cases, [], take, drop, min, refl, arith, ap, sym, ◌∙◌,
}
use my_node_redis.Prelude.Int.{ℤ}
use my_node_redis.Memory.{Bytes, memmove}
use my_node_redis.Memory.Blocks.{bytes, bytes_ext, take-bytes, drop-bytes}
use my_node_redis.Numbers.{Text}
use my_node_redis.Sds.{Sds, sds_len, to_int, minus, from_end, range_len, range}
use my_node_redis.Sds.Content.{IsValid, Holds, content, ended-Holds}

-- The part of a text from `start` to `last`, both of which may lie behind its end.
abbrev pub slice : ℕ → ℕ → Text → Text
slice start last t = take (suc last - start) (drop start t)

range_len-min :
    (len start last : ℕ) → range_len len start last ≡ min (suc last - start) (len - start)
unfolding range_len
range_len-min len start last = ground arith

slice-bytes :
    (m : Bytes) (len start last : ℕ)
    → slice start last (bytes m 0 len) ≡ bytes m start (range_len len start last)
slice-bytes m len start last =
    ap (take (suc last - start)) (drop-bytes m 0 len start)
    ∙ take-bytes m (0 + start) (len - start) (suc last - start)
    ∙ rw (front, sym (range_len-min len start last))
  where
    front : 0 + start ≡ start
    front = omega arith

module _ (m : Bytes) (start n : ℕ) where
  moved : (i : ℕ) → i < n → memmove 0 start n m (0 + i) ≡ m (start + i)
  unfolding memmove
  moved i h =
      let inside : (leb 0 (0 + i) && ltb (0 + i) (0 + n)) ≡ true = ground arith in
      rw inside (ap m (omega arith))

moved-bytes :
    (m : Bytes) (start n : ℕ)
    → bytes (if start == 0 || n == 0 then m else memmove 0 start n m) 0 n ≡ bytes m start n
moved-bytes m start n = elim (Bool-cases (start == 0)) [
  | inl front ↦ rw (front, (==_iff _ _).0 front)
  | inr later ↦ elim (Bool-cases (n == 0)) [
    | inl nothing ↦ rw (later, nothing, (==_iff _ _).0 nothing) (unfold bytes in refl)
    | inr some_bytes ↦ rw (later, some_bytes) (bytes_ext _ m 0 start n (λ i h. moved m start n i h))
  ]
]

bytes_none : (m : Bytes) (a n : ℕ) → n ≡ 0 → bytes m a n ≡ []
unfolding bytes
bytes_none m a n e = rw e

-- `sdsrange` on a valid string gives a valid string whose text is the slice between the two
-- positions, which count from the end where they are negative, and may lie outside the text.
pub range-Holds :
    (s : Sds) (first last : ℤ)
    → IsValid s
    → Holds (slice (from_end s.len first) (from_end s.len last) (content s)) (range s first last)
unfolding range content
range-Holds s first last valid =
    let cur : sds_len s ≡ s.len = ground (arith, valid.small) in
    let start = from_end s.len first in
    let end_ = from_end s.len last in
    let n : ℕ = range_len s.len start end_ in
    let fits : n ≤ s.len = omega (arith, range_len-min s.len start end_) in
    let low : to_int n ≡ n = omega (arith, valid.small, fits) in
    let left : to_int (s.free + minus s.len n) ≡ s.free + (s.len - n) =
      omega (arith, valid.small, fits) in
    elim (Bool-cases (s.len == 0)) [
      | inl empty ↦
          let none_left : n ≡ 0 = ground (arith, fits) in
          rw (cur, empty)
            (record {
              valid = valid;
              text =
                  bytes_none s.buf 0 s.len (ground arith)
                  ∙ sym (slice-bytes s.buf s.len start end_ ∙ bytes_none s.buf start n none_left);
            })
      | inr text ↦
          rw (cur, text, low, left)
            (ended-Holds (if start == 0 || n == 0 then s.buf else memmove 0 start n s.buf) n
              (s.free + (s.len - n)) (slice start end_ (bytes s.buf 0 s.len))
              (omega (arith, valid.small, fits))
              (moved-bytes s.buf start n ∙ sym (slice-bytes s.buf s.len start end_)))
    ]
