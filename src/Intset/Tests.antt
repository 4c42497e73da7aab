-- ===== src/Intset/Tests.antt =====
-- Runs of the integer set, and the theorems about it at these sets.
use my_node_redis.Prelude.{ℕ, ◌≡◌, ◌↔◌, not, ◌&&◌, refl, true, arith}
use my_node_redis.Prelude.Int.{pos, negsuc}
use my_node_redis.Memory.{read_word, write_word, memmove, to_word, of_word}
use my_node_redis.Intset.{
  Intset, new, add, find, remove, search, search_loop, value_encoding, get_encoded, get_at, set_at,
  resize, upgrade_loop, upgrade_and_add, move_tail, insert_at,
}
use my_node_redis.Intset.Search.{Finds, search_lem}
use my_node_redis.Intset.Insert.{IsValid}
use my_node_redis.Intset.Add.{Adds, Member, add_lem, find-Member}
use my_node_redis.Intset.Remove.{Removes, remove_lem}

abbrev blank : ℕ → ℕ
blank a = 0

abbrev one : Intset
one = (add (new blank) (pos 5)).0

abbrev two : Intset
two = (add one (negsuc 69999)).0

new-IsValid : IsValid (new blank)
unfolding new
new-IsValid = record {
  sorted = λ i j h k. absurd (omega arith);
  bytes = λ a. omega arith;
  fits_block = refl;
}

one-IsValid : IsValid one
one-IsValid =
    (add_lem (new blank) (pos 5) new-IsValid (unfold new in omega arith)
      (omega arith, omega arith)).valid

one_length : one.length ≡ 1
unfolding new add search value_encoding insert_at set_at resize move_tail
one_length = refl

add_example : Adds one (negsuc 69999) (add one (negsuc 69999))
add_example =
    add_lem one (negsuc 69999) one-IsValid (rw one_length (omega arith)) (omega arith, omega arith)

two_length : two.length ≡ 2
unfolding new add search value_encoding insert_at set_at resize move_tail upgrade_and_add
    upgrade_loop
two_length = refl

search_example : Finds two (pos 5) (search two (pos 5))
search_example = search_lem two (pos 5) add_example.valid.sorted (rw two_length (omega arith))

find_example : (find two (pos 5) ≡ true) ↔ Member two (pos 5)
find_example = find-Member add_example.valid (pos 5) (rw two_length (omega arith))

remove_example : Removes two (pos 5) (remove two (pos 5))
remove_example = remove_lem two (pos 5) add_example.valid (rw two_length (omega arith))

find_run : (find two (pos 5) && not (find two (pos 6)) && find two (negsuc 69999)) ≡ true
unfolding new add search value_encoding insert_at set_at resize move_tail upgrade_and_add
    upgrade_loop find search_loop get_at get_encoded of_word to_word read_word write_word memmove
find_run = refl
