-- ===== src/Multi/Exec.antt =====
-- EXEC and DISCARD: they do not fail, they leave MULTI, and EXEC of a marked client runs no command.
use my_node_redis.Prelude.{
  ℕ, ◌+◌, ◌≡◌, ◌==◌, Bool, true, false, not, ◌&&◌, ◌||◌, if◌then◌else◌, some, List, [], ◌∷◌, ◌++◌,
  length, refl, arith, ap, ◌∙◌,
}
use my_node_redis.Prelude.Equality.{Eq, equal_refl, number_eq}
use my_node_redis.Multi.{
  Server, null_multi_bulk, exec_abort, multi_bulk_len, Event, reply, Calls, set_client, say,
  cleared, unwatch_all_keys, discard_transaction, exec_abort_branch, exec_command, handle_monitor,
  feed_monitors, propagate_multi, exec_queue, exec_loop, propagate_first,
}
use my_node_redis.Multi.Agreement.{
  Agrees, Lawful, SameWatches-Agrees, set_client-SameWatches, unwatched, unwatch_all_keys-Unwatches,
}
use my_node_redis.Multi.Queue.{RunsQueue, exec_loop-RunsQueue}
use my_node_redis.Multi.Dirty.{IsDirty, exec_loop-IsDirty}

module _ {K C D : Type 0} ⦃e : Eq K⦄ where
  -- `discardTransaction` does not fail. The client leaves MULTI with no command, no key and no mark;
  -- the other clients and the keyspace stay as they are.
  pub record Discards (c : ℕ) (s : Server K C D) : Type 0 where
    pub after : Server K C D
    pub done : discard_transaction c s ≡ some after
    pub agrees : Agrees after
    pub self : after.clients c ≡ record (cleared (s.clients c)) { watched_keys = [] }
    pub others : (d : ℕ) → (c == d) ≡ false → after.clients d ≡ s.clients d
    pub keyspace : after.keyspace ≡ s.keyspace
    pub log : after.log ≡ s.log
    pub dirty : after.dirty ≡ s.dirty
    pub monitored : after.monitored ≡ s.monitored

  pub discard_transaction-Discards : (c : ℕ) (s : Server K C D) → Agrees s → Discards c s
  unfolding discard_transaction
  discard_transaction-Discards c s a =
      let t : Server K C D = set_client s c (cleared (s.clients c)) in
      let u =
        unwatch_all_keys-Unwatches c t
          (SameWatches-Agrees (set_client-SameWatches s c (cleared (s.clients c)) refl) a) in
      record {
        after = unwatched t c u.registry;
        done = u.done;
        agrees = u.agrees;
        self = unfold set_client in rw (equal_refl c);
        others = λ d h. unfold set_client in rw h;
        keyspace = unfold set_client in refl;
        log = unfold set_client in refl;
        dirty = unfold set_client in refl;
        monitored = unfold set_client in refl;
      }

  pub if-Agrees :
      (b : Bool) (s t : Server K C D) → Agrees s → Agrees t → Agrees (if b then s else t)
  if-Agrees true s t a b = a
  if-Agrees false s t a b = b

  propagate_first-Agrees :
      (ops : Calls K C D) (c : ℕ) (cmd : C) (must : Bool) (s : Server K C D)
      → Agrees s
      → Agrees (propagate_first ops c cmd must s)
  propagate_first-Agrees ops c cmd must s a =
      if-Agrees (not must && not (ops.readonly cmd)) (say s (propagate_multi (s.clients c).db)) s a
        a

  exec_loop-Agrees :
      (ops : Calls K C D) (lawful : Lawful ops) (c : ℕ) (l : List C) (must : Bool)
      (s : Server K C D)
      → Agrees s
      → Agrees ((exec_loop ops c l must s).0)
  unfolding exec_loop
  exec_loop-Agrees ops lawful c [] must s a = a
  exec_loop-Agrees ops lawful c (cmd ∷ l) must s a =
      exec_loop-Agrees ops lawful c l (must || not (ops.readonly cmd)) _
        (lawful.keeps_agreement c cmd _ (propagate_first-Agrees ops c cmd must s a))

  -- some command of the queue writes
  abbrev pub writes : Calls K C D → List C → Bool
  writes ops [] = false
  writes ops (cmd ∷ l) = not (ops.readonly cmd) || writes ops l

  exec_loop-writes :
      (ops : Calls K C D) (c : ℕ) (l : List C) (must : Bool) (s : Server K C D)
      → (exec_loop ops c l must s).1 ≡ (must || writes ops l)
  unfolding exec_loop
  exec_loop-writes ops c [] must s = ground arith
  exec_loop-writes ops c (cmd ∷ l) must s = ground (
    arith,
    exec_loop-writes ops c l (must || not (ops.readonly cmd))
        (ops.call c cmd (propagate_first ops c cmd must s)),
  )

  abbrev pub monitors_fed : ℕ → Server K C D → List Event
  monitors_fed c s = if s.monitored then feed_monitors c ∷ [] else []

  -- EXEC runs no command: it answers so, ends the transaction, and leaves the keyspace and the other
  -- clients as they are.
  pub record Aborts (ops : Calls K C D) (c : ℕ) (s : Server K C D) : Type 0 where
    pub after : Server K C D
    pub done : exec_command ops c s ≡ some after
    pub agrees : Agrees after
    pub keyspace : after.keyspace ≡ s.keyspace
    pub self : after.clients c ≡ record (cleared (s.clients c)) { watched_keys = [] }
    pub others : (d : ℕ) → (c == d) ≡ false → after.clients d ≡ s.clients d
    pub log :
        after.log
        ≡ (s.log ++ reply c (if (s.clients c).dirty_exec then exec_abort else null_multi_bulk) ∷ [])
          ++ monitors_fed c s

  -- Where the indexes agree, EXEC of a client that is in MULTI and marked does not fail. It answers
  -- EXECABORT or null and then feeds the monitors, if there are any; the keyspace and the other
  -- clients stay as they are; the client is out of MULTI, with no queued command, no watched key
  -- and no mark; the indexes agree.
  pub exec_command-Aborts :
      (ops : Calls K C D) (c : ℕ) (s : Server K C D)
      → Agrees s
      → (s.clients c).multi ≡ true
      → ((s.clients c).dirty_cas || (s.clients c).dirty_exec) ≡ true
      → Aborts ops c s
  unfolding exec_command exec_abort_branch
  exec_command-Aborts ops c s a multi marked =
      let m : Event = reply c (if (s.clients c).dirty_exec then exec_abort else null_multi_bulk) in
      let d = discard_transaction-Discards c (say s m) a in
      record {
        after = handle_monitor c d.after;
        done = rw (multi, marked, d.done) refl;
        agrees = d.agrees;
        keyspace = d.keyspace;
        self = d.self;
        others = d.others;
        log = rw (d.log, d.monitored) refl;
      }

  -- the queue, run on the server `t` with the header of the answer
  abbrev ran : Calls K C D → ℕ → List C → Server K C D → Server K C D × Bool
  ran ops c l t = exec_loop ops c l false (say t (reply c (multi_bulk_len (length l))))

  abbrev counted_dirty : Server K C D → Bool → Server K C D
  counted_dirty u wrote = if wrote then record u { dirty = u.dirty + 1 } else u

  -- `if (must_propagate) server.dirty++` changes nothing else.
  record CountsDirty (u t : Server K C D) (wrote : Bool) : Type 0 where
    agrees : Agrees u → Agrees t
    keyspace : t.keyspace ≡ u.keyspace
    clients : t.clients ≡ u.clients
    log : t.log ≡ u.log
    monitored : t.monitored ≡ u.monitored
    dirty : t.dirty ≡ u.dirty + (if wrote then 1 else 0)

  counted_dirty-CountsDirty :
      (u : Server K C D) (wrote : Bool) → CountsDirty u (counted_dirty u wrote) wrote
  counted_dirty-CountsDirty u true = record {
    agrees = λ a. a;
    keyspace = refl;
    clients = refl;
    log = refl;
    monitored = refl;
    dirty = refl;
  }
  counted_dirty-CountsDirty u false = record {
    agrees = λ a. a;
    keyspace = refl;
    clients = refl;
    log = refl;
    monitored = refl;
    dirty = omega arith;
  }

  exec_command-clean :
      (ops : Calls K C D) (c : ℕ) (s : Server K C D)
      → (s.clients c).multi ≡ true
      → ((s.clients c).dirty_cas || (s.clients c).dirty_exec) ≡ false
      → exec_command ops c s ≡ exec_queue ops c s
  unfolding exec_command
  exec_command-clean ops c s multi clean = rw (multi, clean) refl

  exec_queue-ran :
      (ops : Calls K C D) (c : ℕ) (l : List C) (s t u : Server K C D)
      → unwatch_all_keys c s ≡ some t
      → (t.clients c).commands ≡ l
      → discard_transaction c (ran ops c l t).0 ≡ some u
      → exec_queue ops c s ≡ some (handle_monitor c (counted_dirty u (ran ops c l t).1))
  unfolding exec_queue
  exec_queue-ran ops c l s t u unwatch queue discard = rw (unwatch, queue, discard) refl

  -- EXEC runs the queue in its order, on the server as it is once the client's keys are unwatched and
  -- the header of the answer is out, and ends the transaction.
  pub record Runs (ops : Calls K C D) (c : ℕ) (s : Server K C D) : Type 0 where
    pub free : Server K C D
    pub ended : Server K C D
    pub after : Server K C D
    pub unwatch : unwatch_all_keys c s ≡ some free
    pub done : exec_command ops c s ≡ some after
    pub agrees : Agrees after
    pub runs :
        RunsQueue ops c false
          (s.clients c).commands
          (say free (reply c (multi_bulk_len (length (s.clients c).commands))))
          ended
    pub keyspace : after.keyspace ≡ ended.keyspace
    pub log : after.log ≡ ended.log ++ monitors_fed c ended
    pub unchanged : (d : ℕ) → (c == d) ≡ false → after.clients d ≡ ended.clients d
    pub multi : (after.clients c).multi ≡ false
    pub commands : (after.clients c).commands ≡ []
    pub watched_keys : (after.clients c).watched_keys ≡ []
    pub others : (d : ℕ) → (c == d) ≡ false → IsDirty d s → IsDirty d after
    pub dirty : after.dirty ≡ ended.dirty + (if writes ops (s.clients c).commands then 1 else 0)

  -- Where the indexes agree and `call` keeps them so and clears no mark of another client, EXEC of
  -- a client that is in MULTI and not marked does not fail: once the keys of the client are
  -- unwatched and the length of the answer is sent, `call` runs the commands of the queue in their
  -- order, each on the state that the one before leaves, with MULTI sent to the replicas before the
  -- first that writes. Then the keyspace and the other clients stay as the last command leaves
  -- them, nothing more is sent but what monitors get, `server.dirty` grows by one more exactly when
  -- some command of the queue writes, the client is out of MULTI with no queued command and no
  -- watched key, marked clients stay marked, and the indexes agree.
  pub exec_command-Runs :
      (ops : Calls K C D) (lawful : Lawful ops) (c : ℕ) (s : Server K C D)
      → Agrees s
      → (s.clients c).multi ≡ true
      → ((s.clients c).dirty_cas || (s.clients c).dirty_exec) ≡ false
      → Runs ops c s
  exec_command-Runs ops lawful c s a multi clean =
      let w = unwatch_all_keys-Unwatches c s a in
      let t = unwatched s c w.registry in
      let l = (s.clients c).commands in
      let queue : (t.clients c).commands ≡ l = unfold set_client in rw (equal_refl c) in
      let r = ran ops c l t in
      let d =
        discard_transaction-Discards c r.0 (exec_loop-Agrees ops lawful c l false _ w.agrees) in
      let n = counted_dirty-CountsDirty d.after r.1 in
      record {
        free = t;
        ended = r.0;
        after = handle_monitor c (counted_dirty d.after r.1);
        unwatch = w.done;
        done =
            exec_command-clean ops c s multi clean
            ∙ exec_queue-ran ops c l s t d.after w.done queue d.done;
        agrees = n.agrees d.agrees;
        runs = exec_loop-RunsQueue ops c l false (say t (reply c (multi_bulk_len (length l))));
        keyspace = n.keyspace ∙ d.keyspace;
        log = rw (n.log, n.monitored, d.log, d.monitored) refl;
        unchanged = λ k other. rw n.clients (d.others k other);
        multi = rw (n.clients, d.self) refl;
        commands = rw (n.clients, d.self) refl;
        watched_keys = rw (n.clients, d.self) refl;
        others = λ k other dirty.
            rw (n.clients, d.others k other)
              (exec_loop-IsDirty ops lawful c k other l false _
                (unfold set_client in rw other dirty));
        dirty = omega (
          arith,
          n.dirty,
          d.dirty,
          ap {B = ℕ} (λ b. if b then 1 else 0)
              (exec_loop-writes ops c l false (say t (reply c (multi_bulk_len (length l))))),
        );
      }
