-- ===== src/Rdb/Compressed.antt =====
-- `rdbSaveLzfStringObject` and `rdbLoadLzfStringObject`.
use my_node_redis.Prelude.{
  ◌-◌, ℕ, suc, ◌+◌, ◌%◌, ◌^◌, ◌≤◌, ◌<◌, ◌≡◌, ◌==◌, ltb, true, false, refl, arith, ap, ◌∙◌, some, [],
  ◌∷◌, ◌++◌, length, length-append, append_assoc,
}
use my_node_redis.Numbers.{Text}
use my_node_redis.Rdb.{
  Rio, External, raw_object, object, load_len, lenerr, load_string, load_lzf, load_compressed,
  decompressed, save_compressed,
}
use my_node_redis.Rdb.Lengths.{
  IsOpen, put, put-IsOpen, image, length-image, write_raw-put, save_len-image, load_len-image,
}
use my_node_redis.Rdb.Stored.{Undoes, Stored, read-append, put-put}

pos_test : (n : ℕ) → ltb 0 (suc n) ≡ true
pos_test n = ground arith

lzf_byte : (s : Text) → load_len (195 ∷ s) ≡ record { value = 3; isencoded = true; rest = s }
unfolding load_len
lzf_byte s = refl

module _ (ext : External) (undoes : Undoes ext) (s c : Text) (n : ℕ)
    (comp : ext.compress s n ≡ some c) (short : length s < 2 ^ 31 - 16) (room : n ≤ length s) where
  abbrev pub lzf_bytes : Text
  lzf_bytes = (195 ∷ []) ++ (image (length c) ++ (image (length s) ++ c))

  lzf-reads : (rest : Text) → load_string ext false (lzf_bytes ++ rest) ≡ object (raw_object s) rest
  unfolding load_string load_lzf load_compressed decompressed
  lzf-reads rest =
      let fits : length c ≤ n = undoes.bounded s n c comp in
      let whole : (length s == lenerr) ≡ false = ground arith in
      let whole_c : (length c == lenerr) ≡ false = ground arith in
      rw (
        append_assoc (image (length c)) (image (length s) ++ c) rest,
        append_assoc (image (length s)) c rest,
        lzf_byte (image (length c) ++ (image (length s) ++ (c ++ rest))),
        load_len-image (length c) (image (length s) ++ (c ++ rest)) (omega arith),
        load_len-image (length s) (c ++ rest) (omega arith),
        whole,
        whole_c,
        read-append c rest,
        undoes.undone s n c comp,
      )

  total : 1 + length (image (length c)) + length (image (length s)) + length c ≡ length lzf_bytes
  total = omega (
    arith,
    length-append (image (length c)) (image (length s) ++ c),
    length-append (image (length s)) c,
  )

  joined :
      (r : Rio)
      → put c (put (image (length s)) (put (image (length c)) (put (195 ∷ []) r))) ≡ put lzf_bytes r
  joined r =
      put-put (image (length s)) c _
      ∙ put-put (image (length c)) (image (length s) ++ c) _
      ∙ put-put (195 ∷ []) (image (length c) ++ (image (length s) ++ c)) r

  pub lzf-writes :
      (r : Rio)
      → IsOpen r
      → save_compressed ext (length s) (some c) r ≡ (some (length lzf_bytes), put lzf_bytes r)
  unfolding save_compressed
  lzf-writes r o =
      let fits : length c ≤ n = undoes.bounded s n c comp in
      let low : length s % 2 ^ 32 ≡ length s = omega arith in
      let low_c : length c % 2 ^ 32 ≡ length c = omega arith in
      let r1 = put (195 ∷ []) r in
      let o1 = put-IsOpen (195 ∷ []) r o in
      let r2 = put (image (length c)) r1 in
      let o2 = put-IsOpen (image (length c)) r1 o1 in
      let r3 = put (image (length s)) r2 in
      let o3 = put-IsOpen (image (length s)) r2 o2 in
      rw
        (
          write_raw-put (195 ∷ []) r o,
          low_c,
          low,
          save_len-image (length c) r1 o1,
          save_len-image (length s) r2 o2,
          write_raw-put c r3 o3,
        )
        (ap (λ k. (some k, put c r3)) total ∙ ap (λ q. (some (length lzf_bytes), q)) (joined r))

  pub lzf_pos : ltb 0 (length lzf_bytes) ≡ true
  lzf_pos = pos_test (length (image (length c) ++ (image (length s) ++ c)))

  pub lzf-Stored : Stored ext (save_compressed ext (length s) (some c)) s
  lzf-Stored = record {
    bytes = lzf_bytes;
    is_int =
        omega (
          arith,
          total,
          undoes.bounded s n c comp,
          length-image (length c),
          length-image (length s),
        );
    writes = lzf-writes;
    reads = lzf-reads;
  }
