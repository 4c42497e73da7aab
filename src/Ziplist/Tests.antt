-- ===== src/Ziplist/Tests.antt =====
-- Entries in a memory of zeros, and the theorems on them.
use my_node_redis.Prelude.{some, ltb, get_or, none, if◌then◌else◌, ◌-◌, ◌≡◌, [], ◌∷◌, refl, arith}
use my_node_redis.Prelude.Int.{pos, negsuc}
use my_node_redis.Memory.{Bytes, read_word}
use my_node_redis.Ziplist.{
  zip_decode_prevlen, zip_decode_length, zip_entry_encoding, zip_raw_entry_length, zip_try_encoding,
  zip_int_size, length_bytes,
}
use my_node_redis.Numbers.{string2ll, signed, parse_magnitude, parse_loop}
use my_node_redis.Ziplist.Entry.{zip_entry, required_length}
use my_node_redis.Ziplist.Walk.{entry_head, ziplist_index, ziplist_next, ziplist_prev}
use my_node_redis.Ziplist.Neighbours.{ziplist_prev-ziplist_next}
use my_node_redis.Ziplist.Index.{HasEntry, IsZiplist, address, ziplist_index_lem}
use my_node_redis.Ziplist.Entries.{Writes, write_entry-Writes}

abbrev zeros : Bytes
zeros a = 0

-- the text "-300" after an entry of 500 bytes
write_entry-Writes_example : Writes 10 500 (b'-' ∷ b'3' ∷ b'0' ∷ b'0' ∷ []) zeros
write_entry-Writes_example =
    write_entry-Writes 10 500 (b'-' ∷ b'3' ∷ b'0' ∷ b'0' ∷ []) zeros (omega arith) (omega arith)

-- It takes five bytes for the length before, one for its encoding and two for the integer.
required_length_test : required_length 500 (b'-' ∷ b'3' ∷ b'0' ∷ b'0' ∷ []) ≡ 8
unfolding required_length zip_try_encoding string2ll signed parse_magnitude parse_loop zip_int_size
    length_bytes
required_length_test = refl

-- A ziplist of the integer 2 and the text "hi"
abbrev pair : Bytes
pair a =
    get_or (17 ∷ 0 ∷ 0 ∷ 0 ∷ 12 ∷ 0 ∷ 0 ∷ 0 ∷ 2 ∷ 0 ∷ 0 ∷ 0xf3 ∷ 2 ∷ 2 ∷ b'h' ∷ b'i' ∷ 255 ∷ []) a 0

pair_first : HasEntry pair 10 0 2
unfolding zip_entry zip_decode_prevlen zip_decode_length zip_entry_encoding zip_raw_entry_length
    zip_int_size
pair_first = record {
  parts = record {
    prevrawlensize = 1;
    prevrawlen = 0;
    lensize = 1;
    len = 0;
    headersize = 2;
    encoding = 0xf3;
  };
  entry = refl;
  before = refl;
  raw = refl;
  more = refl;
  positive = omega arith;
}

pair_second : HasEntry pair 12 2 4
unfolding zip_entry zip_decode_prevlen zip_decode_length zip_entry_encoding zip_raw_entry_length
    zip_int_size
pair_second = record {
  parts = record {
    prevrawlensize = 1;
    prevrawlen = 2;
    lensize = 1;
    len = 2;
    headersize = 2;
    encoding = 0;
  };
  entry = refl;
  before = refl;
  raw = refl;
  more = refl;
  positive = omega arith;
}

pair-IsZiplist : IsZiplist 0 pair (2 ∷ 4 ∷ [])
unfolding read_word
pair-IsZiplist = record { chain = (pair_first, (pair_second, refl)); tail = refl }

ziplist_index_example :
    (ziplist_index 0 (pos 1) pair
      ≡ some (if ltb 1 2 then some (address 1 (entry_head 0) (2 ∷ 4 ∷ [])) else none))
    × (ziplist_index 0 (negsuc 1) pair
        ≡ some (if ltb 1 2 then some (address (2 - 1 - 1) (entry_head 0) (2 ∷ 4 ∷ [])) else none))
ziplist_index_example = ziplist_index_lem 0 pair (2 ∷ 4 ∷ []) pair-IsZiplist 1

ziplist_prev-ziplist_next_example :
    (ziplist_next (address 0 (entry_head 0) (2 ∷ 4 ∷ [])) pair
      ≡ some (some (address 1 (entry_head 0) (2 ∷ 4 ∷ []))))
    × (ziplist_prev 0 (address 1 (entry_head 0) (2 ∷ 4 ∷ [])) pair
        ≡ some (some (address 0 (entry_head 0) (2 ∷ 4 ∷ []))))
ziplist_prev-ziplist_next_example =
    ziplist_prev-ziplist_next 0 pair (2 ∷ 4 ∷ []) pair-IsZiplist 0 (omega arith)
