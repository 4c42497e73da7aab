-- ===== src/Ziplist/Entries.antt =====
-- An entry that `__ziplistInsert` writes is the entry that is read.
use my_node_redis.Prelude.{
  ℕ, ◌+◌, ◌-◌, ◌%◌, ◌^◌, ◌≤◌, ◌<◌, ◌≡◌, ◌==◌, ltb, leb, Bool-cases, true, false, if◌then◌else◌,
  Option, none, some, List, length, inl, inr, refl, arith, ap, ◌∙◌,
}
use my_node_redis.Prelude.Int.{ℤ}
use my_node_redis.Memory.{Bytes, update}
use my_node_redis.Memory.Laws.{write_word_outside}
use my_node_redis.Ziplist.{
  zip_is_str, zip_int_size, store, length_bytes, zip_encode_length, Length, zip_decode_length,
  prev_length_size, zip_prev_encode_length, zip_decode_prevlensize, zip_decode_prevlen,
  zip_raw_entry_length, zip_try_encoding, zip_load_integer,
}
use my_node_redis.Ziplist.Reads.{store-outside}
use my_node_redis.Ziplist.Lengths.{
  large_first, read_encoding, zip_decode_length-encode, zip_decode_prevlen-encode,
}
use my_node_redis.Ziplist.Encodings.{int_encoding-IsInteger, zip_try_encoding-some}
use my_node_redis.Ziplist.Contents.{Outside, Contents, write_content-Contents}
use my_node_redis.Ziplist.Entry.{
  Zlentry, zip_entry, encoding_of, content_length, required_length, write_entry, Element, text,
  integer, bytes_from, ziplist_get,
}

zip_prev_encode_length-size :
    (p len : ℕ) (m : Bytes) → (zip_prev_encode_length p len m).1 ≡ prev_length_size len
unfolding zip_prev_encode_length
zip_prev_encode_length-size p len m = ground arith

zip_prev_encode_length-Outside :
    (p len : ℕ) (m : Bytes)
    → Outside p (p + prev_length_size len) ((zip_prev_encode_length p len m).0) m
unfolding zip_prev_encode_length
zip_prev_encode_length-Outside p len m c h = elim (Bool-cases (ltb len 254)) [
  | inl short ↦ rw short (unfold update in ground (arith, h, short))
  | inr long ↦ rw long (
      write_word_outside 4 len (p + 1) c (update m p 254) (ground (arith, h, long))
      ∙ (unfold update in ground (arith, h, long)))
]

-- What the content of an entry is read as
abbrev pub element : List ℕ → Option (ℤ × ℕ) → Element
element s none = text s
element s (some (v, enc)) = integer v

abbrev pub written_as : ℕ → Option (ℤ × ℕ) → ℕ → Zlentry
written_as prevlen o slen =
    let ls = length (length_bytes (encoding_of o) slen) in
    record {
      prevrawlensize = prev_length_size prevlen;
      prevrawlen = prevlen;
      lensize = ls;
      len = content_length o slen;
      headersize = prev_length_size prevlen + ls;
      encoding = read_encoding (encoding_of o) slen;
    }

-- what `zipEntry` says of the entry of a string
abbrev pub written : ℕ → List ℕ → Zlentry
written prevlen s = written_as prevlen (zip_try_encoding s) (length s)

encoding_of-lt : (s : List ℕ) (o : Option (ℤ × ℕ)) → zip_try_encoding s ≡ o → encoding_of o < 256
encoding_of-lt s none h = omega arith
encoding_of-lt s (some (v, enc)) h =
    rw ((zip_try_encoding-some s v enc h).1) ((int_encoding-IsInteger v).0)

encoding_of-length :
    (s : List ℕ) (o : Option (ℤ × ℕ))
    → zip_try_encoding s ≡ o
    → (if zip_is_str (encoding_of o) then length s else zip_int_size (encoding_of o))
      ≡ content_length o (length s)
encoding_of-length s none h = refl
encoding_of-length s (some (v, enc)) h =
    let int : zip_is_str enc ≡ false =
      rw ((zip_try_encoding-some s v enc h).1) ((int_encoding-IsInteger v).1) in
    rw int refl

add_assoc' : (p a b : ℕ) → p + (a + b) ≡ p + a + b
add_assoc' p a b = omega arith

first_byte : (p len : ℕ) (m : Bytes) → (((zip_prev_encode_length p len m).0) p == 255) ≡ false
unfolding zip_prev_encode_length
first_byte p len m = elim (Bool-cases (ltb len 254)) [
  | inl short ↦ rw short (unfold update in ground arith)
  | inr long ↦ rw (long, large_first p len m) refl
]

zip_entry-read :
    (p prevlensize prevlen : ℕ) (l : Length) (n : Bytes)
    → zip_decode_prevlen p n ≡ (prevlensize, prevlen)
    → zip_decode_length (p + prevlensize) n ≡ some l
    → zip_entry p n
      ≡ some (record {
        prevrawlensize = prevlensize;
        prevrawlen = prevlen;
        lensize = l.lensize;
        len = l.len;
        headersize = prevlensize + l.lensize;
        encoding = l.encoding;
      })
unfolding zip_entry
zip_entry-read p prevlensize prevlen l n prev len = rw (prev, len) refl

zip_raw_entry_length-read :
    (p prevlensize prevlen : ℕ) (l : Length) (n : Bytes)
    → zip_decode_prevlen p n ≡ (prevlensize, prevlen)
    → zip_decode_length (p + prevlensize) n ≡ some l
    → prevlensize + l.lensize + l.len < 2 ^ 32
    → zip_raw_entry_length p n ≡ some (prevlensize + l.lensize + l.len)
unfolding zip_raw_entry_length
zip_raw_entry_length-read p prevlensize prevlen l n prev len small =
    let size : zip_decode_prevlensize p n ≡ prevlensize =
      (unfold zip_decode_prevlen in ap (λ x. x.0) prev) in
    let exact : (prevlensize + l.lensize + l.len) % 2 ^ 32 ≡ prevlensize + l.lensize + l.len =
      omega (arith, small) in
    rw (size, len, exact) refl

read_encoding-string : (len : ℕ) → zip_is_str (read_encoding 0 len) ≡ true
read_encoding-string len = elim (Bool-cases (leb len 0x3f)) [
  | inl short ↦ rw short refl
  | inr longer ↦ elim (Bool-cases (leb len 0x3fff)) [
    | inl middle ↦ rw (longer, middle) refl
    | inr long ↦ rw (longer, long) refl
  ]
]

-- What `ziplistGet` makes of a header and a content
ziplist_get-string :
    (p len : ℕ) (e : Zlentry) (s : List ℕ) (n : Bytes)
    → (n p == 255) ≡ false
    → zip_entry p n ≡ some e
    → zip_is_str e.encoding ≡ true
    → bytes_from (p + e.headersize) e.len n ≡ s
    → ziplist_get p n ≡ some (text s)
unfolding ziplist_get
ziplist_get-string p len e s n more entry str content =
    rw (more, entry, ziplist_get, str, content) refl

ziplist_get-integer :
    (p : ℕ) (e : Zlentry) (v : ℤ) (n : Bytes)
    → (n p == 255) ≡ false
    → zip_entry p n ≡ some e
    → zip_is_str e.encoding ≡ false
    → zip_load_integer (p + e.headersize) e.encoding n ≡ some v
    → ziplist_get p n ≡ some (integer v)
unfolding ziplist_get
ziplist_get-integer p e v n more entry int content =
    rw (more, entry, ziplist_get, int, content) refl

ziplist_get-written :
    (s : List ℕ) (o : Option (ℤ × ℕ)) (p prevlen : ℕ) (m : Bytes)
    → zip_try_encoding s ≡ o
    → (w : Contents s o
        (p + prev_length_size prevlen + length (length_bytes (encoding_of o) (length s)))
        m)
    → (w.after p == 255) ≡ false
    → zip_entry p w.after ≡ some (written_as prevlen o (length s))
    → ziplist_get p w.after ≡ some (element s o)
ziplist_get-written s none p prevlen m h w more entry =
    let e = written_as prevlen none (length s) in
    ziplist_get-string p (length s) e s w.after more entry (read_encoding-string (length s))
      (rw (add_assoc' p (prev_length_size prevlen) e.lensize) (w.string refl))
ziplist_get-written s (some (v, enc)) p prevlen m h w more entry =
    let e = written_as prevlen (some (v, enc)) (length s) in
    let int : zip_is_str enc ≡ false =
      rw ((zip_try_encoding-some s v enc h).1) ((int_encoding-IsInteger v).1) in
    ziplist_get-integer p e v w.after more entry (rw int int)
      (rw (int, add_assoc' p (prev_length_size prevlen) e.lensize) (w.number int))

length-length_bytes : (enc len : ℕ) → length (length_bytes enc len) ≤ 5
unfolding length_bytes
length-length_bytes enc len = ground arith

content_length-le : (s : List ℕ) (o : Option (ℤ × ℕ)) → content_length o (length s) ≤ length s + 8
content_length-le s none = omega arith
content_length-le s (some (v, enc)) = unfold zip_int_size in ground arith

required_length-lt :
    (prevlen : ℕ) (s : List ℕ)
    → length s < 2 ^ 32 - 18
    → content_length (zip_try_encoding s) (length s)
        + prev_length_size prevlen
        + length (length_bytes (encoding_of (zip_try_encoding s)) (length s))
      < 2 ^ 32
required_length-lt prevlen s h = ground (
  arith,
  length-length_bytes (encoding_of (zip_try_encoding s)) (length s),
  content_length-le s (zip_try_encoding s),
)

-- An entry is written in the bytes that `__ziplistInsert` reserves for it, and read back: its parts
-- by `zipEntry`, its content by `ziplistGet` and its size by `zipRawEntryLength`.
pub record Writes (p prevlen : ℕ) (s : List ℕ) (m : Bytes) : Type 0 where
  pub after : Bytes
  pub done : write_entry p prevlen s m ≡ some after
  pub entry : zip_entry p after ≡ some (written prevlen s)
  pub content : ziplist_get p after ≡ some (element s (zip_try_encoding s))
  pub size : zip_raw_entry_length p after ≡ some (required_length prevlen s)
  pub outside : Outside p (p + required_length prevlen s) after m

-- An entry that `__ziplistInsert` writes for a text of fewer than 2 ^ 32 - 18 bytes and a previous
-- length below 2 ^ 32 is read back: `zipEntry` gives its parts, `ziplistGet` the text, or the
-- integer that `zipTryEncoding` found in it, and `zipRawEntryLength` the number of bytes that were
-- required for it. Memory outside these bytes is unchanged.
pub write_entry-Writes :
    (p prevlen : ℕ) (s : List ℕ) (m : Bytes)
    → prevlen < 2 ^ 32
    → length s < 2 ^ 32 - 18
    → Writes p prevlen s m
write_entry-Writes p prevlen s m hp hs =
    let o = zip_try_encoding s in
    let enc = encoding_of o in
    let ps = prev_length_size prevlen in
    let bytes = length_bytes enc (length s) in
    let m1 = (zip_prev_encode_length p prevlen m).0 in
    let m2 = store (p + ps) bytes m1 in
    let w = write_content-Contents s o (p + ps + length bytes) m2 refl in
    let n = w.after in
    let prev : zip_decode_prevlen p n ≡ (ps, prevlen) =
      zip_decode_prevlen-encode p prevlen m n hp (λ c low high.
        w.outside c (inl (omega arith)) ∙ store-outside bytes (p + ps) c m1 (inl high)) in
    let len =
      zip_decode_length-encode (p + ps) enc (length s) m1 n (encoding_of-lt s o refl) (omega arith)
        (λ c low high. w.outside c (inl high)) in
    let entry = zip_entry-read p ps prevlen _ n prev len in
    let length_same = encoding_of-length s o refl in
    let fits = required_length-lt prevlen s hs in
    let whole : zip_entry p n ≡ some (written prevlen s) =
      entry ∙ ap (λ (k : ℕ). some (record (written prevlen s) { len = k })) length_same in
    let first : (n p == 255) ≡ false =
      rw (w.outside p (inl (ground arith)), store-outside bytes (p + ps) p m1 (inl (ground arith)))
        (first_byte p prevlen m) in
    record {
      after = n;
      done =
          unfold write_entry zip_encode_length in
          rw (zip_prev_encode_length-size p prevlen m) w.done;
      entry = whole;
      content = ziplist_get-written s o p prevlen m2 refl w first whole;
      size =
          zip_raw_entry_length-read p ps prevlen _ n prev len (omega (arith, fits, length_same))
          ∙ ap (λ (k : ℕ). some k) (unfold required_length in omega (arith, length_same));
      outside = λ c h. elim h [
        | inl low ↦
            w.outside c (inl (omega arith))
            ∙ store-outside bytes (p + ps) c m1 (inl (omega arith))
            ∙ zip_prev_encode_length-Outside p prevlen m c (inl low)
        | inr high ↦
            let past : p + ps + length bytes + content_length o (length s) ≤ c =
              unfold required_length in omega (arith, high) in
            w.outside c (inr past)
            ∙ store-outside bytes (p + ps) c m1 (inr (omega arith))
            ∙ zip_prev_encode_length-Outside p prevlen m c (inr (omega arith))
      ];
    }
