-- ===== src/Multi.antt =====
-- redis/src/multi.c: MULTI, EXEC, DISCARD, WATCH and UNWATCH. The server is passed on from call to
-- call; a client stands for its address. The commands themselves, and `call` of redis.c which runs
-- one, are a parameter (`Calls`); reference counts are left out. `none` is an assertion that fails.
pub mod Agreement
pub mod Dirty
pub mod Queue
pub mod Exec
pub mod Steps
pub mod Tests
use my_node_redis.Prelude.{
  ℕ, ◌+◌, ◌≡◌, ◌↔◌, Bool, true, false, not, ◌&&◌, ◌||◌, ◌==◌, ==_iff, if◌then◌else◌, Option, none,
  some, List, [], ◌∷◌, ◌++◌, length, ap, sym, arith,
}
use my_node_redis.Prelude.Equality.{Eq, contains}
use my_node_redis.Registry.{Registry, listed, enter, leave}

-- `watchedKey`: a key of a database
pub record Watch (K : Type 0) : Type 0 where
  pub db : ℕ
  pub key : K

module _ {K : Type 0} ⦃e : Eq K⦄ where
  -- `wk->db == c->db && equalStringObjects(key, wk->key)`
  abbrev pub same_watch : Watch K → Watch K → Bool
  same_watch v w = v.db == w.db && e.equal v.key w.key

  pub same_watch_iff : (v w : Watch K) → (same_watch v w ≡ true) ↔ (v ≡ w)
  same_watch_iff v w = (
    λ h. ground (arith, h, (e.equal_iff v.key w.key).0),
    λ h. ground (arith, ap (λ x. x.db) h, (e.equal_iff v.key w.key).1 (ap (λ x. x.key) h)),
  )

  instance abbrev pub watch_eq : Eq (Watch K)
  watch_eq = record { equal = same_watch; equal_iff = same_watch_iff }

-- the flags REDIS_MULTI, REDIS_DIRTY_CAS and REDIS_DIRTY_EXEC, `mstate`, `watched_keys` and `db`
pub record Client (K C : Type 0) : Type 0 where
  pub multi : Bool
  pub dirty_cas : Bool
  pub dirty_exec : Bool
  pub commands : List C
  pub watched_keys : List (Watch K)
  pub db : ℕ

pub data Message : Type 0 where
  ok_reply queued : Message
  nested_multi watch_inside_multi discard_without_multi exec_without_multi : Message
  exec_abort null_multi_bulk : Message
  multi_bulk_len : ℕ → Message

-- what other parts of the server see: a reply to a client, the MULTI that `propagate` sends for a
-- database, and the EXEC that goes to the monitors
pub data Event : Type 0 where
  reply : ℕ → Message → Event
  propagate_multi : ℕ → Event
  feed_monitors : ℕ → Event

-- `monitored` is `listLength(server.monitors) && !server.loading`; `keyspace` is all that commands
-- work on; `watched` has the `watched_keys` of all databases.
pub record Server (K C D : Type 0) : Type 0 where
  pub clients : ℕ → Client K C
  pub client_list : List ℕ
  pub watched : Registry (Watch K)
  pub monitored : Bool
  pub dirty : ℕ
  pub keyspace : D
  pub log : List Event

-- `call`, the flag REDIS_CMD_READONLY, `cmd->proc == unwatchCommand`, and `dictFind(wk->db->dict, wk->key->ptr) != NULL`
pub record Calls (K C D : Type 0) : Type 0 where
  pub call : ℕ → C → Server K C D → Server K C D
  pub readonly : C → Bool
  pub unwatches : C → Bool
  pub exists : D → Watch K → Bool

infixl 5 ◌>>=◌
abbrev pub ◌>>=◌ : {A B : Type 0} → Option A → (A → Option B) → Option B
none >>= f = none
some a >>= f = f a

module _ {K C : Type 0} where
  -- `initClientMultiState`, behind `freeClientMultiState`
  abbrev pub init_client_multi_state : Client K C → Client K C
  init_client_multi_state x = record x { commands = [] }

  abbrev pub mark : Client K C → Client K C
  mark x = record x { dirty_cas = true }

  -- the flags that `discardTransaction` clears, and `mstate`
  abbrev pub cleared : Client K C → Client K C
  cleared x = record (init_client_multi_state x) {
    multi = false;
    dirty_cas = false;
    dirty_exec = false;
  }

-- `dbid == -1 || wk->db->id == dbid`, with `none` for -1
abbrev pub in_db : {K : Type 0} → Option ℕ → Watch K → Bool
in_db none w = true
in_db (some i) w = w.db == i

module _ {K : Type 0} ⦃e : Eq K⦄ where
  -- the loop of `unwatchAllKeys` over the keys, in the registry
  unfoldable pub leave_all : ℕ → List (Watch K) → Registry (Watch K) → Option (Registry (Watch K))
  leave_all c [] r = some r
  leave_all c (w ∷ l) r = leave r w c >>= leave_all c l

module _ {K C D : Type 0} where
  unfoldable pub set_client : Server K C D → ℕ → Client K C → Server K C D
  set_client s c x = record s { clients = λ d. if c == d then x else s.clients d }

  abbrev pub say : Server K C D → Event → Server K C D
  say s m = record s { log = s.log ++ m ∷ [] }

  -- `queueMultiCommand`
  unfoldable pub queue_multi_command : ℕ → C → Server K C D → Server K C D
  unfolding set_client
  queue_multi_command c cmd s =
      set_client s c (record (s.clients c) { commands = (s.clients c).commands ++ cmd ∷ [] })

  -- `flagTransaction`
  unfoldable pub flag_transaction : ℕ → Server K C D → Server K C D
  unfolding set_client
  flag_transaction c s =
      if (s.clients c).multi then set_client s c (record (s.clients c) { dirty_exec = true }) else s

  -- `multiCommand`
  unfoldable pub multi_command : ℕ → Server K C D → Server K C D
  unfolding set_client
  multi_command c s =
      if (s.clients c).multi
      then say s (reply c nested_multi)
      else say (set_client s c (record (s.clients c) { multi = true })) (reply c ok_reply)

  unfoldable pub mark_all : List ℕ → Server K C D → Server K C D
  unfolding set_client
  mark_all [] s = s
  mark_all (c ∷ l) s = mark_all l (set_client s c (mark (s.clients c)))

  -- `touchWatchedKey`
  unfoldable pub touch_watched_key : Watch K → Server K C D → Server K C D
  unfolding mark_all
  touch_watched_key w s = mark_all (listed s.watched w) s

  module _ (ops : Calls K C D) where
    flush_hits : Option ℕ → D → List (Watch K) → Bool
    flush_hits dbid ks [] = false
    flush_hits dbid ks (w ∷ l) = (in_db dbid w && ops.exists ks w) || flush_hits dbid ks l

    pub flush_clients : Option ℕ → List ℕ → Server K C D → Server K C D
    unfolding flush_hits set_client
    flush_clients dbid [] s = s
    flush_clients dbid (c ∷ l) s = flush_clients dbid l (
        if flush_hits dbid s.keyspace (s.clients c).watched_keys
        then set_client s c (mark (s.clients c))
        else s)

    -- `touchWatchedKeysOnFlush`
    unfoldable pub touch_watched_keys_on_flush : Option ℕ → Server K C D → Server K C D
    unfolding flush_clients
    touch_watched_keys_on_flush dbid s = flush_clients dbid s.client_list s

module _ {K C D : Type 0} where
  -- the end of `execCommand`, from `handle_monitor` on
  abbrev pub handle_monitor : ℕ → Server K C D → Server K C D
  handle_monitor c s = record s {
    log = s.log ++ (if s.monitored then feed_monitors c ∷ [] else []);
  }

  module _ (ops : Calls K C D) where
    -- `execCommandPropagateMulti` before the first command that writes
    abbrev pub propagate_first : ℕ → C → Bool → Server K C D → Server K C D
    propagate_first c cmd must s =
        if not must && not (ops.readonly cmd) then say s (propagate_multi (s.clients c).db) else s

    -- the loop over the queued commands, with `must_propagate`
    unfoldable pub exec_loop : ℕ → List C → Bool → Server K C D → Server K C D × Bool
    exec_loop c [] must s = (s, must)
    exec_loop c (cmd ∷ l) must s =
        exec_loop c l (must || not (ops.readonly cmd))
          (ops.call c cmd (propagate_first c cmd must s))

module _ {K C D : Type 0} ⦃e : Eq K⦄ where
  -- `watchForKey`, with the database of the client
  unfoldable pub watch_for_key : ℕ → K → Server K C D → Server K C D
  unfolding set_client
  watch_for_key c key s =
      let x = s.clients c in
      let w : Watch K = record { db = x.db; key = key } in
      if contains w x.watched_keys
      then s
      else set_client (record s { watched = enter s.watched w c }) c
          (record x { watched_keys = x.watched_keys ++ w ∷ [] })

  unfoldable pub watch_keys : ℕ → List K → Server K C D → Server K C D
  watch_keys c [] s = s
  watch_keys c (k ∷ l) s = watch_keys c l (watch_for_key c k s)

  -- `watchCommand`
  unfoldable pub watch_command : ℕ → List K → Server K C D → Server K C D
  watch_command c keys s =
      if (s.clients c).multi
      then say s (reply c watch_inside_multi)
      else say (watch_keys c keys s) (reply c ok_reply)

  -- `unwatchAllKeys`
  unfoldable pub unwatch_all_keys : ℕ → Server K C D → Option (Server K C D)
  unfolding set_client
  unwatch_all_keys c s = do
    r ← leave_all c (s.clients c).watched_keys s.watched
    some (set_client (record s { watched = r }) c (record (s.clients c) { watched_keys = [] }))

  -- `discardTransaction`
  unfoldable pub discard_transaction : ℕ → Server K C D → Option (Server K C D)
  unfolding set_client
  discard_transaction c s = unwatch_all_keys c (set_client s c (cleared (s.clients c)))

  -- `discardCommand`
  unfoldable pub discard_command : ℕ → Server K C D → Option (Server K C D)
  discard_command c s =
      if not (s.clients c).multi
      then some (say s (reply c discard_without_multi))
      else (do t ← discard_transaction c s; some (say t (reply c ok_reply)))

  -- `unwatchCommand`
  unfoldable pub unwatch_command : ℕ → Server K C D → Option (Server K C D)
  unfolding set_client
  unwatch_command c s = do
    t ← unwatch_all_keys c s
    some (say (set_client t c (record (t.clients c) { dirty_cas = false })) (reply c ok_reply))

  -- the end of `processCommand` for a command that is none of EXEC, DISCARD, MULTI and WATCH
  unfoldable pub process_command : Calls K C D → ℕ → C → Server K C D → Option (Server K C D)
  process_command ops c cmd s =
      if (s.clients c).multi
      then some (say (queue_multi_command c cmd s) (reply c queued))
      else if ops.unwatches cmd
      then unwatch_command c s
      else some (ops.call c cmd s)

  module _ (ops : Calls K C D) where
    -- the branch of `execCommand` that runs the queue
    unfoldable pub exec_queue : ℕ → Server K C D → Option (Server K C D)
    exec_queue c s = do
      t ← unwatch_all_keys c s
      let n = length (t.clients c).commands
      let ran = exec_loop ops c (t.clients c).commands false (say t (reply c (multi_bulk_len n)))
      u ← discard_transaction c (ran.0)
      some (handle_monitor c (if ran.1 then record u { dirty = u.dirty + 1 } else u))

    -- the branch that aborts
    unfoldable pub exec_abort_branch : ℕ → Server K C D → Option (Server K C D)
    exec_abort_branch c s = do
      t ←
          discard_transaction c
            (say s (reply c (if (s.clients c).dirty_exec then exec_abort else null_multi_bulk)))
      some (handle_monitor c t)

    -- `execCommand`
    unfoldable pub exec_command : ℕ → Server K C D → Option (Server K C D)
    exec_command c s =
        if not (s.clients c).multi
        then some (say s (reply c exec_without_multi))
        else if (s.clients c).dirty_cas || (s.clients c).dirty_exec
        then exec_abort_branch c s
        else exec_queue c s
