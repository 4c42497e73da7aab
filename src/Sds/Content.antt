-- ===== src/Sds/Content.antt =====
-- The text that a string stands for, and the operations that make a longer one.
use my_node_redis.Prelude.{
  ℕ, ◌+◌, ◌-◌, ◌^◌, ◌≤◌, ◌<◌, ◌≡◌, inl, inr, ltb, leb, ◌==◌, false, Bool-cases, [], ◌++◌, length,
  refl, arith, ◌∙◌,
}
use my_node_redis.Memory.{Bytes, update}
use my_node_redis.Memory.Blocks.{
  copy, bytes, bytes_ext, bytes-append, length-bytes, copy_outside, bytes-copy,
}
use my_node_redis.Numbers.{Text}
use my_node_redis.Sds.{
  Sds, sds_len, avail, to_int, to_size, minus, make_room_for, clear, cat_len, cat_sds, cpy_len,
}

-- The block of a string has at most 2 ^ 31 bytes, and the text is terminated.
pub record IsValid (s : Sds) : Type 0 where
  pub small : s.len + s.free < 2 ^ 31
  pub terminated : s.buf s.len ≡ 0

-- what may be written without that `newlen` leaves an int
abbrev pub max_text : ℕ
max_text = 2 ^ 31 - 2 ^ 20

unfoldable pub content : Sds → Text
content s = bytes s.buf 0 s.len

record Roomy (s : Sds) (n : ℕ) (r : Sds) : Type 0 where
  same_len : r.len ≡ s.len
  same_buf : r.buf ≡ s.buf
  room : n ≤ r.free
  small : r.len + r.free < 2 ^ 31

make_room_for-Roomy :
    (s : Sds) (n : ℕ)
    → s.len + s.free < 2 ^ 31
    → s.len + n < max_text
    → Roomy s n (make_room_for s n)
unfolding make_room_for
make_room_for-Roomy s n small few = record {
  same_len = ground arith;
  same_buf = elim (Bool-cases (leb n (avail s))) [ inl e ↦ rw e | inr e ↦ rw e ];
  room = ground arith;
  small = ground arith;
}

-- A write of the terminator behind the text leaves the text.
terminated_text : (m : Bytes) (n : ℕ) → bytes (update m n 0) 0 n ≡ bytes m 0 n
unfolding update
terminated_text m n = bytes_ext (update m n 0) m 0 0 n (λ i h. other i h)
  where
    other : (i : ℕ) → i < n → update m n 0 (0 + i) ≡ m (0 + i)
    other i h = let e : (0 + i == n) ≡ false = ground arith in rw e

terminator : (m : Bytes) (n : ℕ) → update m n 0 n ≡ 0
unfolding update
terminator m n = ground arith

-- A valid string with the text `t`.
pub record Holds (t : Text) (s : Sds) : Type 0 where
  pub valid : IsValid s
  pub text : content s ≡ t

pub ended-Holds :
    (m : Bytes) (n f : ℕ) (t : Text)
    → n + f < 2 ^ 31
    → bytes m 0 n ≡ t
    → Holds t (record { len = n; free = f; buf = update m n 0 })
unfolding content
ended-Holds m n f t small text = record {
  valid = record { small = small; terminated = terminator m n };
  text = terminated_text m n ∙ text;
}

-- Appending at the end of a text.
bytes-extended :
    (m : Bytes) (n : ℕ) (t : Text) → bytes (copy m n t) 0 (n + length t) ≡ bytes m 0 n ++ t
bytes-extended m n t =
    bytes-append (copy m n t) 0 n (length t) ∙ rw (front, zero_n, bytes-copy m n t)
  where
    zero_n : 0 + n ≡ n
    zero_n = omega arith

    front : bytes (copy m n t) 0 n ≡ bytes m 0 n
    front = bytes_ext (copy m n t) m 0 0 n (λ i h. copy_outside m n t (0 + i) (omega arith))

-- `sdscatlen` on a valid string, for a length of the result below 2 ^ 31 - 2 ^ 20, gives a valid
-- string whose text is the old one followed by the added one, with and without a larger block.
pub cat_len-Holds :
    (s : Sds) (t : Text)
    → IsValid s
    → s.len + length t < max_text
    → Holds (content s ++ t) (cat_len s t)
unfolding cat_len content
cat_len-Holds s t valid few =
    let room = make_room_for-Roomy s (length t) valid.small few in
    let cur : sds_len s ≡ s.len = ground (arith, valid.small) in
    let n : ℕ = s.len + length t in
    let low : to_int n ≡ n = omega arith in
    let r : Sds = make_room_for s (length t) in
    let left : to_int (minus (to_size r.free) (length t)) ≡ r.free - length t =
      ground (arith, room.small, room.room) in
    rw (cur, low, left, room.same_buf)
      (ended-Holds (copy s.buf s.len t) n (r.free - length t) (content s ++ t)
        (omega (arith, room.small, room.room, room.same_len)) (bytes-extended s.buf s.len t))

-- `sdscatsds` of two valid strings, for a length of the result below 2 ^ 31 - 2 ^ 20, gives a valid
-- string with the texts of both.
pub cat_sds-Holds :
    (s t : Sds)
    → IsValid s
    → IsValid t
    → s.len + t.len < max_text
    → Holds (content s ++ content t) (cat_sds s t)
unfolding cat_sds content
cat_sds-Holds s t valid valid_t few =
    let cur : sds_len t ≡ t.len = ground (arith, valid_t.small) in
    rw cur (cat_len-Holds s (bytes t.buf 0 t.len) valid (omega (arith, length-bytes t.buf 0 t.len)))

bytes-replaced : (m : Bytes) (t : Text) → bytes (copy m 0 t) 0 (length t) ≡ t
bytes-replaced m t = bytes-copy m 0 t

copied-Holds :
    (s : Sds) (t : Text)
    → s.len + s.free < 2 ^ 31
    → length t ≤ s.len + s.free
    → Holds t (record {
      len = to_int (length t);
      free = to_int (minus (to_size (to_int (s.free + s.len))) (length t));
      buf = update (copy s.buf 0 t) (length t) 0;
    })
copied-Holds s t small room =
    let low : to_int (length t) ≡ length t = omega arith in
    let left : to_int (minus (to_size (to_int (s.free + s.len))) (length t))
        ≡ s.len + s.free - length t =
      ground arith in
    rw (low, left)
      (ended-Holds (copy s.buf 0 t) (length t) (s.len + s.free - length t) t (omega arith)
        (bytes-copy s.buf 0 t))

-- `sdscpylen` of a text shorter than 2 ^ 31 - 2 ^ 20 to a valid string gives a valid string with
-- exactly this text.
pub cpy_len-Holds : (s : Sds) (t : Text) → IsValid s → length t < max_text → Holds t (cpy_len s t)
unfolding cpy_len
cpy_len-Holds s t valid few =
    elim (Bool-cases (ltb (to_size (to_int (s.free + s.len))) (length t))) [
      | inr fits ↦ rw fits (copied-Holds s t valid.small (ground (arith, valid.small)))
      | inl short ↦
          let more : minus (length t) (to_size s.len) ≡ length t - s.len =
            ground (arith, valid.small) in
          let room =
            make_room_for-Roomy s (length t - s.len) valid.small (ground (arith, valid.small)) in
          rw (short, more)
            (copied-Holds (make_room_for s (length t - s.len)) t room.small
              (omega (arith, room.room, room.same_len)))
    ]

pub clear-Holds : (s : Sds) → IsValid s → Holds [] (clear s)
unfolding clear bytes
clear-Holds s valid =
    let low : to_int (s.free + s.len) ≡ s.free + s.len = omega (arith, valid.small) in
    rw low (ended-Holds s.buf 0 (s.free + s.len) [] (omega (arith, valid.small)) refl)
