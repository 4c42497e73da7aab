-- ===== src/Ziplist/Contents.antt =====
-- The content of an entry: a string, or an integer.
use my_node_redis.Prelude.{
  ℕ, ◌+◌, ◌≤◌, ◌<◌, ◌≡◌, ◌⊎◌, true, false, Option, none, some, List, [], ◌∷◌, length, refl, arith,
  ◌∙◌,
}
use my_node_redis.Prelude.Int.{ℤ}
use my_node_redis.Memory.{Bytes}
use my_node_redis.Ziplist.{zip_is_str, store, zip_try_encoding, zip_load_integer}
use my_node_redis.Ziplist.Reads.{Same, store-outside}
use my_node_redis.Ziplist.Integers.{Saves, zip_save_integer-Saves}
use my_node_redis.Ziplist.Encodings.{int_encoding-IsInteger, zip_try_encoding-some}
use my_node_redis.Ziplist.Entry.{encoding_of, value_of, content_length, write_content, bytes_from}

-- Nothing changes outside of a stretch of memory.
abbrev pub Outside : ℕ → ℕ → Bytes → Bytes → Type 0
Outside lo hi n m = (c : ℕ) → (c < lo) ⊎ (hi ≤ c) → n c ≡ m c

bytes_from-store :
    (s : List ℕ) (q : ℕ) (m n : Bytes)
    → Same q (q + length s) n (store q s m)
    → bytes_from q (length s) n ≡ s
unfolding store
bytes_from-store [] q m n same = refl
bytes_from-store (b ∷ l) q m n same =
    let first : n q ≡ b = same q (omega arith) (omega arith) ∙ ground arith in
    rw
      (
        first,
        bytes_from-store l (q + 1) m n
            (λ c low high. same c (omega arith) (omega arith) ∙ ground arith),
      )
      refl

-- The content of an entry is written in the bytes that it takes, and read back while they stay.
pub record Contents (s : List ℕ) (o : Option (ℤ × ℕ)) (q : ℕ) (m : Bytes) : Type 0 where
  pub after : Bytes
  pub done : write_content q s o m ≡ some after
  pub outside : Outside q (q + content_length o (length s)) after m
  pub string : zip_is_str (encoding_of o) ≡ true → bytes_from q (length s) after ≡ s
  pub number :
      zip_is_str (encoding_of o) ≡ false
      → zip_load_integer q (encoding_of o) after ≡ some (value_of o)

pub write_content-Contents :
    (s : List ℕ) (o : Option (ℤ × ℕ)) (q : ℕ) (m : Bytes)
    → zip_try_encoding s ≡ o
    → Contents s o q m
unfolding write_content
write_content-Contents s none q m h = record {
  after = store q s m;
  done = refl;
  outside = λ c out. store-outside s q c m out;
  string = λ str. bytes_from-store s q m (store q s m) (λ c low high. refl);
  number = λ int. cc;
}
write_content-Contents s (some (v, enc)) q m h =
    let (fits, chosen, read) = zip_try_encoding-some s v enc h in
    let w : Saves q v enc m = rw chosen (zip_save_integer-Saves q v m fits) in
    let int : zip_is_str enc ≡ false = rw chosen ((int_encoding-IsInteger v).1) in
    record {
      after = w.after;
      done = rw int w.done;
      outside = w.outside;
      string = λ str. absurd (cc);
      number = λ no. w.reads w.after (λ c low high. refl);
    }
