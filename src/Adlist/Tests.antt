-- ===== src/Adlist/Tests.antt =====
-- Runs of the lists.
use my_node_redis.Prelude.{ℕ, ◌≡◌, refl, some}
use my_node_redis.Prelude.Int.{negsuc}
use my_node_redis.Adlist.{
  Adlist, create, add_node_head, add_node_tail, rotate, list_index, walk, del_node, put, set_next,
  set_prev, next_of, prev_of,
}

abbrev three : Adlist ℕ
three = add_node_tail (add_node_tail (add_node_head create 100 1) 101 2) 102 3

rotate_run : list_index (rotate three) (negsuc 0) ≡ some 101
unfolding create add_node_head add_node_tail rotate list_index walk put set_next set_prev next_of
    prev_of
rotate_run = refl

del_node_run : list_index (del_node three 101) (negsuc 1) ≡ some 100
unfolding create add_node_head add_node_tail del_node list_index walk put set_next set_prev next_of
    prev_of
del_node_run = refl
