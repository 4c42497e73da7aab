-- ===== src/Ziplist/Entry.antt =====
-- Whole entries of a ziplist: how `__ziplistInsert` writes one, and how one is read.
use my_node_redis.Prelude.{
  ℕ, zero, suc, ◌+◌, ◌==◌, if◌then◌else◌, Option, none, some, List, [], ◌∷◌, length,
}
use my_node_redis.Prelude.Int.{ℤ, pos}
use my_node_redis.Memory.{Bytes}
use my_node_redis.Ziplist.{
  zip_is_str, zip_int_size, store, length_bytes, zip_encode_length, Length, zip_decode_length,
  prev_length_size, zip_prev_encode_length, zip_decode_prevlen, zip_try_encoding, zip_save_integer,
  zip_load_integer,
}

-- `zlentry`, without the pointer
pub record Zlentry : Type 0 where
  pub prevrawlensize : ℕ
  pub prevrawlen : ℕ
  pub lensize : ℕ
  pub len : ℕ
  pub headersize : ℕ
  pub encoding : ℕ

abbrev pub entry_of : ℕ × ℕ → Option Length → Option Zlentry
entry_of (size, len) none = none
entry_of (size, len) (some l) = some (record {
  prevrawlensize = size;
  prevrawlen = len;
  lensize = l.lensize;
  len = l.len;
  headersize = size + l.lensize;
  encoding = l.encoding;
})

-- `zipEntry`
unfoldable pub zip_entry : ℕ → Bytes → Option Zlentry
zip_entry p m =
    let prev = zip_decode_prevlen p m in entry_of prev (zip_decode_length (p + prev.0) m)

-- `encoding` and `value` after `zipTryEncoding`
abbrev pub encoding_of : Option (ℤ × ℕ) → ℕ
encoding_of none = 0
encoding_of (some (v, enc)) = enc

abbrev pub value_of : Option (ℤ × ℕ) → ℤ
value_of none = pos 123456789
value_of (some (v, enc)) = v

-- the bytes of the content
abbrev pub content_length : Option (ℤ × ℕ) → ℕ → ℕ
content_length none slen = slen
content_length (some (v, enc)) slen = zip_int_size enc

-- `reqlen`
unfoldable pub required_length : ℕ → List ℕ → ℕ
required_length prevlen s =
    content_length (zip_try_encoding s) (length s)
    + prev_length_size prevlen
    + length (length_bytes (encoding_of (zip_try_encoding s)) (length s))

-- the content: `memcpy` of a string, or `zipSaveInteger`
unfoldable pub write_content : ℕ → List ℕ → Option (ℤ × ℕ) → Bytes → Option Bytes
write_content q s tried m =
    if zip_is_str (encoding_of tried)
    then some (store q s m)
    else zip_save_integer q (value_of tried) (encoding_of tried) m

-- "Write the entry"
unfoldable pub write_entry : ℕ → ℕ → List ℕ → Bytes → Option Bytes
write_entry p prevlen s m =
    let enc = encoding_of (zip_try_encoding s) in
    let prev = zip_prev_encode_length p prevlen m in
    let head = zip_encode_length (p + prev.1) enc (length s) (prev.0) in
    write_content (p + prev.1 + head.1) s (zip_try_encoding s) (head.0)

-- what `ziplistGet` finds: the end, a string or an integer
pub data Element : Type 0 where
  end : Element
  text : List ℕ → Element
  integer : ℤ → Element

abbrev pub bytes_from : ℕ → ℕ → Bytes → List ℕ
bytes_from p zero m = []
bytes_from p (suc n) m = m p ∷ bytes_from (p + 1) n m

-- `ziplistGet`, with the string that it points to
unfoldable pub ziplist_get : ℕ → Bytes → Option Element
ziplist_get p m = if m p == 255 then some end else elim (zip_entry p m) [
  | none ↦ none
  | some e ↦
      if zip_is_str e.encoding
      then some (text (bytes_from (p + e.headersize) e.len m))
      else elim (zip_load_integer (p + e.headersize) e.encoding m) [
        | none ↦ none
        | some v ↦ some (integer v)
      ]
]
