-- ===== src/Ziplist/Lengths.antt =====
-- The header of an entry: the length of the entry before, the encoding and the length.
use Prim.Native.Nat.{bit_and, bit_or}
use my_node_redis.Prelude.{
  ℕ, ◌+◌, ◌*◌, ◌/◌, ◌%◌, ◌^◌, ◌≤◌, ◌<◌, ◌≡◌, ltb, leb, Bool-cases, false, if◌then◌else◌, some, List,
  [], ◌∷◌, length, get_or, inl, inr, refl, arith, ap, ◌∙◌,
}
use my_node_redis.Memory.{Bytes, update, read_word, write_word}
use my_node_redis.Memory.Laws.{read_word_congr, write_word_outside, read-write_self}
use my_node_redis.Memory.And.{and_63, and_255}
use my_node_redis.Memory.Or.{bit_or-shift}
use my_node_redis.Ziplist.{
  zip_is_str, zip_int_size, store, length_bytes, zip_entry_encoding, zip_decode_length,
  prev_length_size, zip_prev_encode_length, zip_decode_prevlensize, zip_decode_prevlen,
}
use my_node_redis.Ziplist.Reads.{Same, store-inside, and_192}

-- the encoding that an entry is read with
abbrev pub read_encoding : ℕ → ℕ → ℕ
read_encoding enc rawlen =
    if zip_is_str enc
    then (if leb rawlen 0x3f then 0 else if leb rawlen 0x3fff then 0x40 else 0x80)
    else enc

read_byte :
    (l : List ℕ) (p : ℕ) (m n : Bytes)
    → Same p (p + length l) n (store p l m)
    → (i : ℕ) → i < length l
    → n (p + i) ≡ get_or l i 0
read_byte l p m n same i h = same (p + i) (omega arith) (omega arith) ∙ store-inside l p i m h

at_start : (p : ℕ) (n : Bytes) → n p ≡ n (p + 0)
at_start p n = ap n (omega arith)

-- The encoding of a string, from the upper two bits of its first byte
string_encoding : (p b : ℕ) (n : Bytes) → n p ≡ b → b < 0xc0 → zip_entry_encoding p n ≡ b / 64 * 64
unfolding zip_entry_encoding
string_encoding p b n h lt = rw h (ground (arith, and_192 b))

decode_short :
    (p rawlen : ℕ) (n : Bytes)
    → rawlen ≤ 0x3f
    → n p ≡ bit_or 0 rawlen
    → zip_decode_length p n ≡ some (record { encoding = 0; lensize = 1; len = rawlen })
unfolding zip_decode_length
decode_short p rawlen n h b =
    let byte : n p ≡ rawlen = b ∙ bit_or-shift 6 0 rawlen (omega arith) ∙ omega arith in
    let enc : zip_entry_encoding p n ≡ 0 =
      string_encoding p rawlen n byte (omega arith) ∙ omega arith in
    let low : bit_and (n p) 0x3f ≡ rawlen = and_63 (n p) ∙ omega arith in rw (enc, low) refl

decode_middle :
    (p rawlen : ℕ) (n : Bytes)
    → rawlen ≤ 0x3fff
    → n p ≡ bit_or 0x40 (bit_and (rawlen / 2 ^ 8) 0x3f)
    → n (p + 1) ≡ bit_and rawlen 0xff
    → zip_decode_length p n ≡ some (record { encoding = 0x40; lensize = 2; len = rawlen })
unfolding zip_decode_length
decode_middle p rawlen n h b0 b1 =
    let high = rawlen / 2 ^ 8 % 64 in
    let first : n p ≡ 64 + high =
      b0 ∙ rw (and_63 (rawlen / 2 ^ 8)) (bit_or-shift 6 1 high (omega arith)) in
    let second : n (p + 1) ≡ rawlen % 256 = b1 ∙ and_255 rawlen in
    let enc : zip_entry_encoding p n ≡ 0x40 =
      string_encoding p (64 + high) n first (omega arith) ∙ omega arith in
    let low : bit_and (n p) 0x3f ≡ high = and_63 (n p) ∙ omega arith in
    let value : bit_or (high * 2 ^ 8) (n (p + 1)) ≡ rawlen =
      bit_or-shift 8 high (n (p + 1)) (omega arith) ∙ omega arith in
    rw (enc, low, value) refl

-- Four bytes, the highest first
join4 :
    (a b c d : ℕ)
    → a < 256
    → b < 256
    → c < 256
    → d < 256
    → bit_or (bit_or (bit_or (a * 2 ^ 24) (b * 2 ^ 16)) (c * 2 ^ 8)) d
      ≡ a * 2 ^ 24 + b * 2 ^ 16 + c * 2 ^ 8 + d
join4 a b c d pa pb pc pd =
    let ab : bit_or (a * 2 ^ 24) (b * 2 ^ 16) ≡ (a * 256 + b) * 2 ^ 16 =
      bit_or-shift 24 a (b * 2 ^ 16) (omega arith) ∙ omega arith in
    let abc : bit_or ((a * 256 + b) * 2 ^ 16) (c * 2 ^ 8) ≡ ((a * 256 + b) * 256 + c) * 2 ^ 8 =
      bit_or-shift 16 (a * 256 + b) (c * 2 ^ 8) (omega arith) ∙ omega arith in
    rw (ab, abc, bit_or-shift 8 ((a * 256 + b) * 256 + c) d pd) (omega arith)

decode_long :
    (p rawlen : ℕ) (n : Bytes)
    → rawlen < 2 ^ 32
    → n p ≡ 0x80
    → n (p + 1) ≡ bit_and (rawlen / 2 ^ 24) 0xff
    → n (p + 2) ≡ bit_and (rawlen / 2 ^ 16) 0xff
    → n (p + 3) ≡ bit_and (rawlen / 2 ^ 8) 0xff
    → n (p + 4) ≡ bit_and rawlen 0xff
    → zip_decode_length p n ≡ some (record { encoding = 0x80; lensize = 5; len = rawlen })
unfolding zip_decode_length
decode_long p rawlen n h b0 b1 b2 b3 b4 =
    let enc : zip_entry_encoding p n ≡ 0x80 = string_encoding p 0x80 n b0 (omega arith) in
    let c1 : n (p + 1) ≡ rawlen / 2 ^ 24 % 256 = b1 ∙ and_255 (rawlen / 2 ^ 24) in
    let c2 : n (p + 2) ≡ rawlen / 2 ^ 16 % 256 = b2 ∙ and_255 (rawlen / 2 ^ 16) in
    let c3 : n (p + 3) ≡ rawlen / 2 ^ 8 % 256 = b3 ∙ and_255 (rawlen / 2 ^ 8) in
    let c4 : n (p + 4) ≡ rawlen % 256 = b4 ∙ and_255 rawlen in
    let value =
      join4 (n (p + 1)) (n (p + 2)) (n (p + 3)) (n (p + 4)) (omega arith) (omega arith)
        (omega arith) (omega arith) in
    let back : n (p + 1) * 2 ^ 24 + n (p + 2) * 2 ^ 16 + n (p + 3) * 2 ^ 8 + n (p + 4) ≡ rawlen =
      omega arith in
    rw (enc, value, back) refl

decode_integer :
    (p enc : ℕ) (n : Bytes)
    → enc < 256
    → zip_is_str enc ≡ false
    → n p ≡ enc
    → zip_decode_length p n ≡ some (record { encoding = enc; lensize = 1; len = zip_int_size enc })
unfolding zip_decode_length zip_entry_encoding
decode_integer p enc n h int b = rw b (ground (arith, and_192 enc))

-- What `zipEncodeLength` writes is what ZIP_DECODE_LENGTH reads, while those bytes stay.
pub zip_decode_length-encode :
    (p enc rawlen : ℕ) (m n : Bytes)
    → enc < 256
    → rawlen < 2 ^ 32
    → Same p (p + length (length_bytes enc rawlen)) n (store p (length_bytes enc rawlen) m)
    → zip_decode_length p n
      ≡ some (record {
        encoding = read_encoding enc rawlen;
        lensize = length (length_bytes enc rawlen);
        len = if zip_is_str enc then rawlen else zip_int_size enc;
      })
zip_decode_length-encode p enc rawlen m n h small same =
    let byte =
      λ (l : List ℕ) (e : length_bytes enc rawlen ≡ l). read_byte l p m n (rw (← e) same) in
    elim (Bool-cases (zip_is_str enc)) [
      | inr int ↦
          let e : length_bytes enc rawlen ≡ enc ∷ [] = unfold length_bytes in rw int refl in
          rw (e, int)
            (decode_integer p enc n h int (at_start p n ∙ byte (enc ∷ []) e 0 (omega arith)))
      | inl str ↦ elim (Bool-cases (leb rawlen 0x3f)) [
        | inl short ↦
            let l = bit_or 0 rawlen ∷ [] in
            let e : length_bytes enc rawlen ≡ l = unfold length_bytes in rw (str, short) refl in
            rw (e, str, short)
              (decode_short p rawlen n (ground arith) (at_start p n ∙ byte l e 0 (omega arith)))
        | inr longer ↦ elim (Bool-cases (leb rawlen 0x3fff)) [
          | inl middle ↦
              let l = bit_or 0x40 (bit_and (rawlen / 2 ^ 8) 0x3f) ∷ bit_and rawlen 0xff ∷ [] in
              let e : length_bytes enc rawlen ≡ l =
                unfold length_bytes in rw (str, longer, middle) refl in
              rw (e, str, longer, middle)
                (decode_middle p rawlen n (ground arith) (at_start p n ∙ byte l e 0 (omega arith))
                  (byte l e 1 (omega arith)))
          | inr long ↦
              let l =
                0x80
                ∷ bit_and (rawlen / 2 ^ 24) 0xff
                ∷ bit_and (rawlen / 2 ^ 16) 0xff
                ∷ bit_and (rawlen / 2 ^ 8) 0xff
                ∷ bit_and rawlen 0xff
                ∷ [] in
              let e : length_bytes enc rawlen ≡ l =
                unfold length_bytes in rw (str, longer, long) refl in
              rw (e, str, longer, long)
                (decode_long p rawlen n small (at_start p n ∙ byte l e 0 (omega arith))
                  (byte l e 1 (omega arith)) (byte l e 2 (omega arith)) (byte l e 3 (omega arith))
                  (byte l e 4 (omega arith)))
        ]
      ]
    ]

pub large_first : (p len : ℕ) (m : Bytes) → write_word 4 len (p + 1) (update m p 254) p ≡ 254
large_first p len m =
    write_word_outside 4 len (p + 1) p (update m p 254) (inl (omega arith))
    ∙ (unfold update in ground arith)

-- What `zipPrevEncodeLength` writes is what ZIP_DECODE_PREVLEN reads, while those bytes stay.
pub zip_decode_prevlen-encode :
    (p len : ℕ) (m n : Bytes)
    → len < 2 ^ 32
    → Same p (p + prev_length_size len) n ((zip_prev_encode_length p len m).0)
    → zip_decode_prevlen p n ≡ (prev_length_size len, len)
unfolding zip_decode_prevlen zip_decode_prevlensize zip_prev_encode_length
zip_decode_prevlen-encode p len m n small same = elim (Bool-cases (ltb len 254)) [
  | inl short ↦
      let first : n p ≡ len =
        same p (omega arith) (rw short (omega arith)) ∙ rw short (ground arith) in
      rw (short, first, short) refl
  | inr long ↦
      let first : n p ≡ 254 =
        same p (omega arith) (rw long (omega arith)) ∙ rw long (large_first p len m) in
      let word : read_word 4 n (p + 1) ≡ len =
        read_word_congr 4 (p + 1) n (write_word 4 len (p + 1) (update m p 254))
          (λ c low high. same c (omega arith) (rw long (omega arith)) ∙ rw long refl)
        ∙ read-write_self 4 len (p + 1) (update m p 254) small in
      rw (long, first) (λ i. (5, word i))
]
