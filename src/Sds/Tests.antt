-- ===== src/Sds/Tests.antt =====
-- Runs of the strings, and the theorems about them at these strings.
use my_node_redis.Prelude.{◌≡◌, refl, arith, [], ◌∷◌, ◌++◌}
use my_node_redis.Prelude.Int.{pos, negsuc}
use my_node_redis.Memory.Blocks.{bytes, copy}
use my_node_redis.Memory.{update, memmove}
use my_node_redis.Numbers.{Text}
use my_node_redis.Sds.{
  Sds, new_len, new_text, cat_len, range, range_len, from_end, trim, trim_front, trim_back, in_set,
}
use my_node_redis.Sds.Content.{IsValid, Holds, content, cat_len-Holds}
use my_node_redis.Sds.Slice.{slice, range-Holds}

abbrev hello : Sds
hello = new_text (λ i. 7) (b'h' ∷ b'e' ∷ b'l' ∷ b'l' ∷ b'o' ∷ [])

hello-IsValid : IsValid hello
unfolding new_text new_len update copy
hello-IsValid = record { small = omega arith; terminated = refl }

abbrev bang : Text
bang = b'!' ∷ []

cat_len-Holds_example : Holds (content hello ++ bang) (cat_len hello bang)
cat_len-Holds_example =
    cat_len-Holds hello bang hello-IsValid (unfold new_text new_len in omega arith)

range-Holds_example :
    Holds
      (slice (from_end hello.len (pos 1)) (from_end hello.len (negsuc 0)) (content hello))
      (range hello (pos 1) (negsuc 0))
range-Holds_example = range-Holds hello (pos 1) (negsuc 0) hello-IsValid

range_run : content (range hello (pos 1) (negsuc 1)) ≡ b'e' ∷ b'l' ∷ b'l' ∷ []
unfolding content range new_text new_len update copy memmove bytes range_len
range_run = refl

trim_run : content (trim hello (b'h' ∷ b'o' ∷ [])) ≡ b'e' ∷ b'l' ∷ b'l' ∷ []
unfolding content trim trim_front trim_back in_set new_text new_len update copy memmove bytes
trim_run = refl
