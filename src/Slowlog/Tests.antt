-- ===== src/Slowlog/Tests.antt =====
-- A short log, and the theorems on it.
use my_node_redis.Prelude.{
  ℕ, ◌+◌, ◌≡◌, true, if◌then◌else◌, List, [], ◌∷◌, length, take, replicate, refl, arith,
}
use my_node_redis.Prelude.Int.{pos}
use my_node_redis.Slowlog.{
  Text, Argument, SlowlogEntry, Server, create_entry, is_slow, is_disabled, push_entry_if_needed,
}
use my_node_redis.Slowlog.Log.{IsNumbered, push_entry_if_needed-IsNumbered}

-- a printer of one digit
abbrev digit : ℕ → Text
digit n = (b'0' + n) ∷ []

-- 34 arguments
abbrev many : List Argument
many = replicate 34 (record { raw = true; text = b'x' ∷ [] })

abbrev entry : ℕ → SlowlogEntry
entry n = record { id = n; time = 5; duration = pos 20; argv = [] }

abbrev log : Server
log = record {
  slowlog = entry 4 ∷ entry 2 ∷ [];
  slowlog_entry_id = 5;
  slowlog_log_slower_than = pos 10;
  slowlog_max_len = 2;
}

push_entry_if_needed-IsNumbered_example :
    IsNumbered (push_entry_if_needed digit 7 many (pos 30) log)
    × ((push_entry_if_needed digit 7 many (pos 30) log).slowlog ≡ (
        if is_disabled log.slowlog_log_slower_than
        then log.slowlog
        else take log.slowlog_max_len (
            if is_slow log.slowlog_log_slower_than (pos 30)
            then (create_entry digit 7 many (pos 30) log).0 ∷ log.slowlog
            else log.slowlog)))
push_entry_if_needed-IsNumbered_example =
    push_entry_if_needed-IsNumbered digit 7 many (pos 30) log (omega arith)

-- The oldest entry goes.
log_push : length (push_entry_if_needed digit 7 [] (pos 30) log).slowlog ≡ 2
unfolding push_entry_if_needed
log_push = refl
