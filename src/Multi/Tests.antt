-- ===== src/Multi/Tests.antt =====
-- A server whose commands each write one key, and the theorems on it.
use my_node_redis.Prelude.{ℕ, ◌+◌, ◌≡◌, true, false, none, some, List, [], ◌∷◌, refl, ◌||◌, arith}
use my_node_redis.Prelude.Equality.{contains, count, number_eq}
use my_node_redis.Registry.{enter, assign}
use my_node_redis.Multi.{
  Watch, watch_eq, Client, Server, Calls, touch_watched_key, watch_command, watch_keys,
  watch_for_key, multi_command, queue_multi_command, exec_command,
}
use my_node_redis.Multi.Agreement.{Agrees, SameWatches-Agrees, Lawful}
use my_node_redis.Multi.Dirty.{
  Calm, Calm-trans, touch_watched_key-Calm, multi_command-Calm, queue_multi_command-Calm,
  touch_watched_key-dirty_cas, watch_command-Sound,
}
use my_node_redis.Multi.Exec.{Aborts, Runs, exec_command-Aborts, exec_command-Runs}
use my_node_redis.Multi.Steps.{
  Action, multi, exec, command, run, never_clears, run-Agrees, exec_command-run-touch_watched_key,
}

abbrev key : ℕ → Watch ℕ
key k = record { db = 0; key = k }

-- a command adds one to the keyspace, and touches the key that it is named after
abbrev counter : Calls ℕ ℕ ℕ
counter = record {
  call = λ c cmd s. touch_watched_key (key cmd) (record s { keyspace = s.keyspace + 1 });
  readonly = λ cmd. false;
  unwatches = λ cmd. false;
  exists = λ d w. true;
}

counter-Calm : (cmd : ℕ) (s : Server ℕ ℕ ℕ) → Calm s (counter.call 0 cmd s)
counter-Calm cmd s =
    Calm-trans record { same = record { registry = refl; own = λ c. refl }; kept = λ d h. h }
      (touch_watched_key-Calm (key cmd) (record s { keyspace = s.keyspace + 1 }))

counter-Lawful : Lawful counter
counter-Lawful = record {
  keeps_agreement = λ c cmd s. SameWatches-Agrees (counter-Calm cmd s).same;
  keeps_mark = λ c d cmd s h. (counter-Calm cmd s).kept d;
}

abbrev idle : Client ℕ ℕ
idle = record {
  multi = false;
  dirty_cas = false;
  dirty_exec = false;
  commands = [];
  watched_keys = [];
  db = 0;
}

abbrev fresh : Server ℕ ℕ ℕ
fresh = record {
  clients = λ c. idle;
  client_list = 1 ∷ 2 ∷ [];
  watched = λ w. none;
  monitored = true;
  dirty = 0;
  keyspace = 0;
  log = [];
}

fresh-Agrees : Agrees fresh
unfolding count
fresh-Agrees = record { agree = λ c w. refl; once = λ c w. omega arith; tight = λ w. cc }

-- client 1 watches key 5
abbrev watching : Server ℕ ℕ ℕ
watching = watch_command 1 (5 ∷ []) fresh

watching-Agrees : Agrees watching
watching-Agrees = (watch_command-Sound 1 (5 ∷ []) fresh).agrees fresh-Agrees

touch_watched_key-dirty_cas_example :
    ((touch_watched_key (key 5) watching).clients 1).dirty_cas
    ≡ (contains (key 5) (watching.clients 1).watched_keys || (watching.clients 1).dirty_cas)
touch_watched_key-dirty_cas_example = touch_watched_key-dirty_cas (key 5) 1 watching watching-Agrees

-- client 1 has a transaction of one command, and client 2 writes the watched key in between
abbrev race : List (ℕ × Action ℕ ℕ)
race = (1, multi) ∷ (1, command 7) ∷ (2, command 5) ∷ (1, exec) ∷ []

run-Agrees_example : (t : Server ℕ ℕ ℕ) × (run counter race watching ≡ some t) × Agrees t
run-Agrees_example = run-Agrees counter counter-Lawful race watching watching-Agrees

abbrev rest : List (ℕ × Action ℕ ℕ)
rest = (1, multi) ∷ (1, command 7) ∷ (2, command 5) ∷ []

exec_command-run-touch_watched_key_example :
    (t : Server ℕ ℕ ℕ) × (u : Server ℕ ℕ ℕ) × (run counter rest (touch_watched_key (key 5) watching)
      ≡ some t)
    × (exec_command counter 1 t ≡ some u)
    × (u.keyspace ≡ t.keyspace)
    × ((u.clients 1).multi ≡ false)
unfolding contains watch_command never_clears watch_keys watch_for_key
exec_command-run-touch_watched_key_example =
    exec_command-run-touch_watched_key counter counter-Lawful 1 (key 5) rest watching
      watching-Agrees refl refl

-- the same client in MULTI with a command, before and after the touch
abbrev queueing : Server ℕ ℕ ℕ
queueing = queue_multi_command 1 7 (multi_command 1 watching)

queueing-Calm : Calm watching queueing
queueing-Calm =
    Calm-trans (multi_command-Calm 1 watching)
      (queue_multi_command-Calm 1 7 (multi_command 1 watching))

queueing-Agrees : Agrees queueing
queueing-Agrees = SameWatches-Agrees queueing-Calm.same watching-Agrees

exec_command-Runs_example : Runs counter 1 queueing
unfolding queue_multi_command multi_command watch_command watch_keys watch_for_key contains
exec_command-Runs_example =
    exec_command-Runs counter counter-Lawful 1 queueing queueing-Agrees refl refl

exec_command-Aborts_example : Aborts counter 1 (touch_watched_key (key 5) queueing)
unfolding touch_watched_key queue_multi_command multi_command watch_command watch_keys watch_for_key
    contains enter assign
exec_command-Aborts_example =
    exec_command-Aborts counter 1 (touch_watched_key (key 5) queueing)
      (SameWatches-Agrees (touch_watched_key-Calm (key 5) queueing).same queueing-Agrees) refl refl
