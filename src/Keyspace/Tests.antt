-- ===== src/Keyspace/Tests.antt =====
-- The theorems on the keys of a database at a concrete one.
use my_node_redis.Prelude.{
  ℕ, ◌+◌, ◌*◌, ◌≡◌, ◌≤◌, ltb, true, false, if◌then◌else◌, none, some, [], ◌∷◌, refl, arith,
}
use my_node_redis.Prelude.Int.{pos}
use my_node_redis.Prelude.Equality.{◌=?◌, number_eq}
use my_node_redis.Memory.{of_word, to_word}
use my_node_redis.Keyspace.Table.{find}
use my_node_redis.Keyspace.{Keyspace, number, ok_reply, lookup_key_read, set_key}
use my_node_redis.Keyspace.Commands.{
  rename_generic_command, expire_generic_command, ttl_generic_command, persist_command, time_left,
}
use my_node_redis.Keyspace.Expiry.{IsLinked, live}
use my_node_redis.Keyspace.Lookups.{Looks, lookup_key_read-Looks}
use my_node_redis.Keyspace.Linked.{Succeeds}
use my_node_redis.Keyspace.Steps.{read, rename, expire, run, run-IsLinked}
use my_node_redis.Keyspace.Rename.{rename_generic_command-live}
use my_node_redis.Keyspace.Effects.{set_key-live, persist_command-live, ttl-expire}

-- Key 1 has a value and the time 100, key 2 a value and no time.
abbrev two_keys : Keyspace ℕ ℕ
two_keys = record {
  dict = (1, 10) ∷ (2, 20) ∷ [];
  expires = (1, pos 100) ∷ [];
  loading = false;
  slave = false;
  dirty = 0;
  expired_keys = 0;
  hits = 0;
  misses = 0;
  log = [];
}

two_keys-IsLinked : IsLinked two_keys
unfolding find
two_keys-IsLinked k h = ground (arith, h)

-- TTL rounds to the nearest second.
rounds_up : time_left 300 false (pos 1800) ≡ pos 2
unfolding time_left of_word to_word
rounds_up = refl

-- The time of a key is its last.
still_there : live 100 two_keys 1 ≡ some 10
unfolding find
-- The time of a key is its last.
still_there = refl

lookup_key_read-Looks_example : Looks 101 1 two_keys (lookup_key_read 101 1 two_keys)
lookup_key_read-Looks_example = lookup_key_read-Looks 101 1 two_keys two_keys-IsLinked (refl, refl)

set_key-live_example :
    (after : Keyspace ℕ ℕ) × (set_key 101 1 11 two_keys ≡ some (tt, after))
    × (find 1 after.expires ≡ none)
    × ((t : ℕ) (j : ℕ) → 101 ≤ t → live t after j ≡ (if 1 =? j then some 11 else live t two_keys j))
set_key-live_example = set_key-live 101 1 11 two_keys two_keys-IsLinked

persist_command-live_example :
    (live 101 two_keys 1 ≡ none)
    × ((after : Keyspace ℕ ℕ) × (persist_command 1 two_keys ≡ some (number (pos 1), after))
        × ((t : ℕ) → live t after 1 ≡ some 10))
persist_command-live_example =
    persist_command-live 101 1 10 two_keys two_keys-IsLinked (unfold find in refl)
      (unfold find in refl)

ttl-expire_example :
    (after : Keyspace ℕ ℕ) × (expire_generic_command 50 (pos 50) true 2 (pos 3) two_keys
      ≡ some (number (pos 1), after))
    × (ttl_generic_command 50 false 2 after ≡ some (number (pos 3), after))
    × ((t : ℕ) → live t after 2 ≡ (if ltb (3 * 1000 + 50) t then none else some 20))
ttl-expire_example =
    ttl-expire 50 3 2 20 two_keys two_keys-IsLinked (refl, refl) (unfold find in refl) (omega arith)
      (omega arith)

run-IsLinked_example : Succeeds (
    run
      ((50, expire (pos 50) true 2 (pos 3)) ∷ (101, rename false 2 1) ∷ (4000, read 1) ∷ [])
      two_keys)
run-IsLinked_example =
    run-IsLinked
      ((50, expire (pos 50) true 2 (pos 3)) ∷ (101, rename false 2 1) ∷ (4000, read 1) ∷ [])
      two_keys two_keys-IsLinked

rename_generic_command-live_example :
    (after : Keyspace ℕ ℕ) × (rename_generic_command 50 false 1 2 two_keys ≡ some (ok_reply, after))
    × ((t : ℕ) (j : ℕ)
        → 50 ≤ t
        → live t after j
          ≡ (if 2 =? j then live t two_keys 1 else if 1 =? j then none else live t two_keys j))
rename_generic_command-live_example =
    rename_generic_command-live 50 1 2 10 two_keys two_keys-IsLinked (refl, refl) refl
      (unfold find in refl)
