-- ===== src/Rdb/Strings.antt =====
-- `rdbSaveStringObject` and `rdbGenericLoadStringObject`.
use my_node_redis.Prelude.{
  ℕ, suc, ◌-◌, ◌^◌, ◌≤◌, ◌<◌, ◌≡◌, ltb, leb, Bool-cases, Option-cases, Bool, true, false, refl,
  arith, ap, sym, ◌∙◌, some, none, ◌++◌, length, length-append, inl, inr, ◌&&◌,
}
use my_node_redis.Prelude.Int.{ℤ, pos, negsuc}
use my_node_redis.Memory.Laws.{Fits, of_word-to_word}
use my_node_redis.Numbers.{Text, ll2string}
use my_node_redis.Numbers.Parse.{ll2string-pos, ll2string-negsuc, magnitude-length}
use my_node_redis.Rdb.{
  Rio, M, External, Object, int_object, raw_object, write_raw, within, encode_integer,
  try_integer_encoding, save_compressed, save_lzf, save_string, save_raw_string, save_long_long,
  save_object,
}
use my_node_redis.Rdb.Lengths.{
  IsOpen, put, put-IsOpen, image, length-image, write_raw-put, save_len-image,
}
use my_node_redis.Rdb.Integers.{length-encode_integer, length-encode_integer-le}
use my_node_redis.Rdb.Stored.{
  Undoes, Stored, put-put, verbatim-reads, verbatim-Stored, encoded-reads,
  try_integer_encoding-Integer,
}
use my_node_redis.Rdb.Compressed.{lzf_pos, lzf-Stored, lzf-writes}

gave_up : (ext : External) (n : ℕ) (r : Rio) → save_compressed ext n none r ≡ (some 0, r)
unfolding save_compressed
gave_up ext n r = refl

module _ (ext : External) where
  integer-Stored :
      (v : ℤ)
      → within v (2 ^ 31) ≡ true
      → Stored ext (λ r. write_raw (encode_integer v) r) (ll2string 32 v)
  integer-Stored v small = record {
    bytes = encode_integer v;
    is_int = omega (arith, length-encode_integer-le v);
    writes = λ r o. write_raw-put (encode_integer v) r o;
    reads = encoded-reads ext v small;
  }

  -- Writers that agree on open devices store the same.
  Stored-eq :
      {m m' : M ℕ} {s : Text}
      → ((r : Rio) → IsOpen r → m' r ≡ m r)
      → Stored ext m s
      → Stored ext m' s
  Stored-eq e t = record {
    bytes = t.bytes;
    is_int = t.is_int;
    writes = λ r o. e r o ∙ t.writes r o;
    reads = t.reads;
  }

  module _ (undoes : Undoes ext) (s : Text) (short : length s < 2 ^ 31 - 16) where
    save_string-Stored : (compression : Bool) → Stored ext (save_string ext compression s) s
    unfolding save_string save_lzf
    save_string-Stored compression = elim (Bool-cases (compression && ltb 20 (length s))) [
      | inr plain ↦ Stored-eq (λ r o. rw plain) (verbatim-Stored ext s short)
      | inl try ↦
          let long : leb (length s) 4 ≡ false = ground arith in
          elim (Option-cases (ext.compress s (length s - 4))) [
            | inl larger ↦
                Stored-eq (λ r o. rw (try, long, larger, gave_up ext (length s) r))
                  (verbatim-Stored ext s short)
            | inr (c, comp) ↦
                let room : length s - 4 ≤ length s = omega arith in
                Stored-eq
                  (λ r o. rw (
                    try,
                    long,
                    comp,
                    lzf-writes ext undoes s c (length s - 4) comp short room r o,
                    lzf_pos ext undoes s c (length s - 4) comp short room,
                  ))
                  (lzf-Stored ext undoes s c (length s - 4) comp short room)
          ]
    ]

    -- `rdbSaveRawString`, for every way it may choose.
    pub save_raw_string-Stored :
        (compression : Bool) → Stored ext (save_raw_string ext compression s) s
    unfolding save_raw_string
    save_raw_string-Stored compression = elim (Bool-cases (leb (length s) 11)) [
      | inr long ↦ Stored-eq (λ r o. rw long) (save_string-Stored compression)
      | inl few ↦ elim (Bool-cases (ltb 0 (length (try_integer_encoding ext s)))) [
        | inr text ↦ Stored-eq (λ r o. rw (few, text)) (save_string-Stored compression)
        | inl number ↦
            let i = try_integer_encoding-Integer ext s number in
            Stored-eq (λ r o. rw (few, number, i.bytes, write_raw-put (encode_integer i.value) r o))
              (rw (← i.text) at (integer-Stored i.value i.small))
      ]
    ]

length-ll2string : (v : ℤ) → Fits 8 v → length (ll2string 32 v) ≤ 20
length-ll2string (pos n) f =
    rw (ll2string-pos 32 n (omega arith) (omega arith)) (omega (arith, magnitude-length n))
length-ll2string (negsuc n) f =
    rw (ll2string-negsuc 32 n (omega arith) (omega arith)) (omega (arith, magnitude-length (suc n)))

-- the text that an object stands for
pub content : Object → Text
content (int_object v) = ll2string 32 v
content (raw_object s) = s

-- an integer that the long of an object holds, or a text so short that its counts are ints
pub IsStorable : Object → Type 0
IsStorable (int_object v) = Fits 4 v
IsStorable (raw_object s) = length s < 2 ^ 31 - 16

pub raw_IsStorable : (s : Text) → length s < 2 ^ 31 - 16 → IsStorable (raw_object s)
unfolding IsStorable
raw_IsStorable s h = h

module _ (ext : External) where
  save_long_long-Stored : (v : ℤ) → Fits 8 v → Stored ext (save_long_long ext v) (ll2string 32 v)
  unfolding save_long_long
  save_long_long-Stored v f = elim (Bool-cases (ltb 0 (length (encode_integer v)))) [
    | inl narrow ↦
        Stored-eq ext (λ r o. rw narrow)
          (integer-Stored ext v (sym (length-encode_integer v) ∙ narrow))
    | inr wide ↦
        let text : Text = ll2string 32 v in
        let head : Text = image (length text) in
        record {
          bytes = head ++ text;
          is_int =
              omega
                (arith, length-append head text, length-image (length text), length-ll2string v f);
          writes = λ r o.
              rw
                (
                  wide,
                  save_len-image (length text) r o,
                  write_raw-put text (put head r) (put-IsOpen head r o),
                  put-put head text r,
                )
                (ap (λ n. (some n, put (head ++ text) r)) (sym (length-append head text)));
          reads = verbatim-reads ext text (omega (arith, length-ll2string v f));
        }
  ]

  -- With a compressor whose output is no larger than its buffer and is undone by the decompressor,
  -- `rdbSaveStringObject` of an integer that a long of 32 bits holds or of a text of fewer than 2 ^
  -- 31 - 16 bytes, on a device that takes every write, returns the number of bytes it writes, which
  -- an int holds, and `rdbGenericLoadStringObject` reads these bytes, with anything behind them, as
  -- the object's text, whichever encoding was chosen, and leaves what is behind them.
  pub save_object-Stored :
      (undoes : Undoes ext) (compression : Bool) (o : Object)
      → IsStorable o
      → Stored ext (save_object ext compression o) (content o)
  unfolding save_object content IsStorable
  save_object-Stored undoes compression (int_object v) f =
      rw (of_word-to_word 4 v f) (save_long_long-Stored v (omega (arith, f.0), omega (arith, f.1)))
  save_object-Stored undoes compression (raw_object s) f =
      save_raw_string-Stored ext undoes s f compression
