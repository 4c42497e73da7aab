-- ===== src/Dict/Tests.antt =====
-- Runs of the dictionary, and the theorems about it at these dictionaries.
use my_node_redis.Prelude.{
  ℕ, ◌≡◌, ◌+◌, ◌<◌, ◌≤◌, ◌*◌, ◌^◌, ◌⊎◌, refl, true, false, ◌==◌, ==_iff, some, arith,
}
use my_node_redis.Dict.Chains.{DictType, push, chain_find, update}
use my_node_redis.Dict.{
  Dict, create, add, find, delete, replace, expand, rehash, rehash_loop, move_bucket, skip_empty,
  rehash_step, dict_size, is_rehashing, initial_size, position, next_power, next_power_loop,
  key_index, free_index, find_in, insert_entry, expand_if_needed, reset,
}
use my_node_redis.Dict.Invariant.{IsValid, view, create-IsValid}
use my_node_redis.Dict.Rehash.{Keeps, rehash-Keeps, rehash_complete}
use my_node_redis.Dict.Find.{find-view}
use my_node_redis.Dict.Expand.{PowerOf, next_power_lem, expand-Keeps}
use my_node_redis.Dict.Add.{AddsEntry, add-AddsEntry}
use my_node_redis.Dict.Replace.{Replaces, replace_lem}
use my_node_redis.Dict.Delete.{Deletes, delete_lem}

abbrev numbers : DictType ℕ
numbers = record { hash = λ n. n; equal = λ a b. a == b; equal_iff = ==_iff }

abbrev nothing : Dict ℕ ℕ
nothing = create

abbrev one : Dict ℕ ℕ
one = (add numbers true nothing 1 10).0

abbrev two : Dict ℕ ℕ
two = (add numbers true one 5 50).0

-- in the midst of moving to eight buckets
abbrev growing : Dict ℕ ℕ
growing = (expand two 8).0

few0 : dict_size nothing < 2 ^ 62
unfolding create
few0 = omega arith

few1 : dict_size one < 2 ^ 62
unfolding create reset add key_index free_index find_in insert_entry expand_if_needed expand
    rehash_step next_power next_power_loop push chain_find update
few1 = omega arith

add_first : AddsEntry numbers nothing 1 10 (add numbers true nothing 1 10)
add_first = add-AddsEntry numbers true nothing (create-IsValid numbers) few0 1 10

add-AddsEntry_example : AddsEntry numbers one 5 50 (add numbers true one 5 50)
add-AddsEntry_example = add-AddsEntry numbers true one add_first.valid few1 5 50

two-IsValid : IsValid numbers two
two-IsValid = (add-AddsEntry numbers true one add_first.valid few1 5 50).valid

growing-IsValid : IsValid numbers growing
growing-IsValid = (expand-Keeps numbers two two-IsValid 8).valid

few_growing : dict_size growing < 2 ^ 62
unfolding create reset add key_index free_index find_in insert_entry expand_if_needed expand
    rehash_step next_power next_power_loop push chain_find update
few_growing = omega arith

is_growing : is_rehashing growing ≡ true
unfolding create reset add key_index free_index find_in insert_entry expand_if_needed expand
    rehash_step next_power next_power_loop push chain_find update
is_growing = refl

next_power_example :
    (5 ≤ next_power 5)
    × PowerOf initial_size (next_power 5)
    × ((next_power 5 ≡ initial_size) ⊎ (next_power 5 < 2 * 5))
next_power_example = next_power_lem 5 (omega arith)

rehash-Keeps_example :
    Keeps numbers growing (rehash numbers growing 2).0
    × (is_rehashing (rehash numbers growing 2).0 ≡ (rehash numbers growing 2).1)
rehash-Keeps_example = rehash-Keeps numbers growing 2 growing-IsValid

-- Both keys go in one round, and the answer is still 1.
all_moved : ((rehash numbers growing 1).1 ≡ true) × ((rehash numbers growing 1).0.ht0.used ≡ 0)
unfolding create reset add key_index free_index find_in insert_entry expand_if_needed expand rehash
    rehash_loop move_bucket skip_empty rehash_step next_power next_power_loop push chain_find update
all_moved = (refl, refl)

last_round : growing.ht0.size < position growing.rehashidx + 5
unfolding create reset add key_index free_index find_in insert_entry expand_if_needed expand
    rehash_step next_power next_power_loop push chain_find update
last_round = omega arith

rehash_complete_example :
    (is_rehashing (rehash numbers growing 5).0 ≡ false)
    × Keeps numbers growing (rehash numbers growing 5).0
rehash_complete_example = rehash_complete numbers growing 5 growing-IsValid is_growing last_round

find-view_example :
    ((find numbers growing 5).0 ≡ view numbers growing 5)
    × Keeps numbers growing (find numbers growing 5).1
find-view_example = find-view numbers growing 5 growing-IsValid

replace_example : Replaces numbers growing 5 51 (replace numbers true growing 5 51)
replace_example = replace_lem numbers true growing growing-IsValid few_growing 5 51

delete_example : Deletes numbers growing 5 (delete numbers growing 5)
delete_example = delete_lem numbers growing 5 growing-IsValid

find_run : (find numbers two 5).0 ≡ some 50
unfolding create reset add key_index free_index find_in insert_entry expand_if_needed expand
    rehash_step next_power next_power_loop push chain_find update find
find_run = refl
