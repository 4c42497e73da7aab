-- ===== src/Multi/Steps.antt =====
-- Sequences of steps of the clients: what a transaction and its watched keys promise, whatever the
-- other clients do in between.
use my_node_redis.Prelude.{
  ℕ, ◌≡◌, ◌==◌, Bool, true, false, Bool-cases, not, ◌&&◌, ◌||◌, if◌then◌else◌, Option, some, List,
  [], ◌∷◌, inl, inr, refl, arith,
}
use my_node_redis.Prelude.Equality.{Eq, contains, number_eq}
use my_node_redis.Multi.{
  Watch, watch_eq, Client, Server, exec_without_multi, ok_reply, queued, Event, reply, Calls, ◌>>=◌,
  set_client, say, touch_watched_key, touch_watched_keys_on_flush, watch_command, multi_command,
  flag_transaction, queue_multi_command, process_command, exec_command, discard_command,
  unwatch_command,
}
use my_node_redis.Multi.Agreement.{
  Agrees, set_client-SameWatches, SameWatches-Agrees, Lawful, unwatched, unwatch_all_keys-Unwatches,
}
use my_node_redis.Multi.Dirty.{
  IsDirty, Calm-trans, Sound, Calm-Sound, say-Calm, touch_watched_key-Calm, flush_clients-Calm,
  queue_multi_command-Calm, flag_transaction-Calm, multi_command-Calm, watch_command-Sound,
  touch_watched_key-IsDirty,
}
use my_node_redis.Multi.Exec.{discard_transaction-Discards, exec_command-Aborts, exec_command-Runs}

-- What a client may do: the four commands that are never queued, any other command, a command that is
-- refused, and the calls of `touchWatchedKey` and `touchWatchedKeysOnFlush` by commands, by expiry
-- and by the link to the master.
pub data Action (K C : Type 0) : Type 0 where
  watch : List K → Action K C
  multi exec discard : Action K C
  command : C → Action K C
  refused : Action K C
  touch : Watch K → Action K C
  flush : Option ℕ → Action K C

module _ {K C D : Type 0} ⦃e : Eq K⦄ (ops : Calls K C D) where
  abbrev pub act : ℕ → Action K C → Server K C D → Option (Server K C D)
  act c (watch keys) s = some (watch_command c keys s)
  act c multi s = some (multi_command c s)
  act c exec s = exec_command ops c s
  act c discard s = discard_command c s
  act c (command cmd) s = process_command ops c cmd s
  act c refused s = some (flag_transaction c s)
  act c (touch w) s = some (touch_watched_key w s)
  act c (flush dbid) s = some (touch_watched_keys_on_flush ops dbid s)

  unfoldable pub run : List (ℕ × Action K C) → Server K C D → Option (Server K C D)
  run [] s = some s
  run ((c, x) ∷ l) s = act c x s >>= run l

  -- EXEC, DISCARD and UNWATCH clear the mark of the client that sends them.
  abbrev pub clears : Action K C → Bool
  clears exec = true
  clears discard = true
  clears (command cmd) = ops.unwatches cmd
  clears x = false

  -- the client sends none of these
  unfoldable pub never_clears : ℕ → List (ℕ × Action K C) → Bool
  never_clears d [] = true
  never_clears d ((c, x) ∷ l) = not (c == d && clears x) && never_clears d l

module _ {K C D : Type 0} ⦃e : Eq K⦄ where
  -- A step does not fail, and keeps the agreement and the marks that it may not clear.
  record Acts (c : ℕ) (cleared : Bool) (s : Server K C D) (o : Option (Server K C D)) : Type 0 where
    after : Server K C D
    done : o ≡ some after
    agrees : Agrees after
    kept : (d : ℕ) → (c == d && cleared) ≡ false → IsDirty d s → IsDirty d after

  Sound-Acts : (c : ℕ) (b : Bool) (s t : Server K C D) → Agrees s → Sound s t → Acts c b s (some t)
  Sound-Acts c b s t a p = record {
    after = t;
    done = refl;
    agrees = p.agrees a;
    kept = λ d h. p.kept d;
  }

  if-Acts :
      (c : ℕ) (b : Bool) (s : Server K C D) (test : Bool) (o p : Option (Server K C D))
      → Acts c b s o
      → Acts c b s p
      → Acts c b s (if test then o else p)
  if-Acts c b s true o p x y = x
  if-Acts c b s false o p x y = y

  choose-Acts :
      (c : ℕ) (s : Server K C D) (test : Bool) (o p : Option (Server K C D))
      → Acts c true s o
      → Acts c test s p
      → Acts c test s (if test then o else p)
  choose-Acts c s true o p x y = x
  choose-Acts c s false o p x y = y

  say-Acts :
      (c : ℕ) (b : Bool) (s : Server K C D) (m : Event) → Agrees s → Acts c b s (some (say s m))
  say-Acts c b s m a = Sound-Acts c b s (say s m) a (Calm-Sound (say-Calm s m))

  discard_command-Acts : (c : ℕ) (s : Server K C D) → Agrees s → Acts c true s (discard_command c s)
  unfolding discard_command
  discard_command-Acts c s a =
      let d = discard_transaction-Discards c s a in
      if-Acts c true s (not (s.clients c).multi) _ _ (say-Acts c true s _ a) record {
        after = say d.after (reply c ok_reply);
        done = rw d.done refl;
        agrees = (Calm-Sound (say-Calm d.after (reply c ok_reply))).agrees d.agrees;
        kept = λ k h dirty. rw (d.others k (ground (arith, h))) dirty;
      }

  unwatch_command-Acts : (c : ℕ) (s : Server K C D) → Agrees s → Acts c true s (unwatch_command c s)
  unfolding unwatch_command
  unwatch_command-Acts c s a =
      let u = unwatch_all_keys-Unwatches c s a in
      let t = unwatched s c u.registry in
      let x : Client K C = record (t.clients c) { dirty_cas = false } in
      record {
        after = say (set_client t c x) (reply c ok_reply);
        done = rw u.done refl;
        agrees =
            (Calm-Sound (say-Calm (set_client t c x) (reply c ok_reply))).agrees
              (SameWatches-Agrees (set_client-SameWatches t c x refl) u.agrees);
        kept = λ k h dirty.
            let other : (c == k) ≡ false = ground (arith, h) in unfold set_client in rw other dirty;
      }

  exec_command-Acts :
      (ops : Calls K C D) (lawful : Lawful ops) (c : ℕ) (s : Server K C D)
      → Agrees s
      → Acts c true s (exec_command ops c s)
  exec_command-Acts ops lawful c s a = elim (Bool-cases (s.clients c).multi) [
    | inr off ↦ (unfold exec_command in rw off (say-Acts c true s (reply c exec_without_multi) a))
    | inl on ↦ elim (Bool-cases ((s.clients c).dirty_cas || (s.clients c).dirty_exec)) [
      | inl marked ↦
          let x = exec_command-Aborts ops c s a on marked in
          record {
            after = x.after;
            done = x.done;
            agrees = x.agrees;
            kept = λ k h dirty. rw (x.others k (ground (arith, h))) dirty;
          }
      | inr clean ↦
          let x = exec_command-Runs ops lawful c s a on clean in
          record {
            after = x.after;
            done = x.done;
            agrees = x.agrees;
            kept = λ k h. x.others k (ground (arith, h));
          }
    ]
  ]

  process_command-Acts :
      (ops : Calls K C D) (lawful : Lawful ops) (c : ℕ) (cmd : C) (s : Server K C D)
      → Agrees s
      → Acts c (ops.unwatches cmd) s (process_command ops c cmd s)
  unfolding process_command
  process_command-Acts ops lawful c cmd s a =
      if-Acts c (ops.unwatches cmd) s (s.clients c).multi _ _
        (Sound-Acts c _ s _ a (
          Calm-Sound (
            Calm-trans (queue_multi_command-Calm c cmd s)
              (say-Calm (queue_multi_command c cmd s) (reply c queued)))))
        (choose-Acts c s (ops.unwatches cmd) _ _ (unwatch_command-Acts c s a) record {
          after = ops.call c cmd s;
          done = refl;
          agrees = lawful.keeps_agreement c cmd s a;
          kept = λ k. lawful.keeps_mark c k cmd s;
        })

  act-Acts :
      (ops : Calls K C D) (lawful : Lawful ops) (c : ℕ) (x : Action K C) (s : Server K C D)
      → Agrees s
      → Acts c (clears ops x) s (act ops c x s)
  unfolding touch_watched_keys_on_flush
  act-Acts ops lawful c (watch keys) s a = Sound-Acts c _ s _ a (watch_command-Sound c keys s)
  act-Acts ops lawful c multi s a = Sound-Acts c _ s _ a (Calm-Sound (multi_command-Calm c s))
  act-Acts ops lawful c exec s a = exec_command-Acts ops lawful c s a
  act-Acts ops lawful c discard s a = discard_command-Acts c s a
  act-Acts ops lawful c (command cmd) s a = process_command-Acts ops lawful c cmd s a
  act-Acts ops lawful c refused s a = Sound-Acts c _ s _ a (Calm-Sound (flag_transaction-Calm c s))
  act-Acts ops lawful c (touch w) s a =
      Sound-Acts c _ s _ a (Calm-Sound (touch_watched_key-Calm w s))
  act-Acts ops lawful c (flush i) s a =
      Sound-Acts c _ s _ a (Calm-Sound (flush_clients-Calm ops i s.client_list s))

  -- From a state where the two indexes of watched keys agree, any sequence of steps of any clients
  -- (WATCH, MULTI, EXEC, DISCARD, other commands, refused commands, touched keys, flushes) fails no
  -- assertion and ends in a state where they agree. `call` is assumed to keep the agreement, and to
  -- clear the mark of a client only when that client calls UNWATCH.
  pub run-Agrees :
      (ops : Calls K C D) (lawful : Lawful ops) (l : List (ℕ × Action K C)) (s : Server K C D)
      → Agrees s
      → (t : Server K C D) × (run ops l s ≡ some t) × Agrees t
  unfolding run
  run-Agrees ops lawful [] s a = (s, refl, a)
  run-Agrees ops lawful ((c, x) ∷ l) s a =
      let r = act-Acts ops lawful c x s a in
      let (t, done, agrees) = run-Agrees ops lawful l r.after r.agrees in
      (t, rw r.done done, agrees)

  -- A marked client stays marked until it sends EXEC, DISCARD or UNWATCH.
  run-IsDirty :
      (ops : Calls K C D) (lawful : Lawful ops) (d : ℕ) (l : List (ℕ × Action K C))
      (s : Server K C D)
      → Agrees s
      → never_clears ops d l ≡ true
      → IsDirty d s
      → (t : Server K C D) × (run ops l s ≡ some t) × Agrees t × IsDirty d t
  unfolding run never_clears
  run-IsDirty ops lawful d [] s a h dirty = (s, refl, a, dirty)
  run-IsDirty ops lawful d ((c, x) ∷ l) s a h dirty =
      let r = act-Acts ops lawful c x s a in
      let (t, done, agrees, kept) =
        run-IsDirty ops lawful d l r.after r.agrees (ground (arith, h))
          (r.kept d (ground (arith, h)) dirty) in
      (t, rw r.done done, agrees, kept)

  -- Check and set. In a state where the two indexes of watched keys agree, a client watches a key
  -- and the key is touched; then any clients do anything, but this one sends no EXEC, DISCARD or
  -- UNWATCH. Then no assertion has failed, and its EXEC does not fail, leaves the keyspace as it
  -- found it and leaves the client out of MULTI. `call` is assumed to keep the agreement, and to
  -- clear the mark of a client only when that client calls UNWATCH.
  pub exec_command-run-touch_watched_key :
      (ops : Calls K C D) (lawful : Lawful ops) (d : ℕ) (w : Watch K) (l : List (ℕ × Action K C))
      (s : Server K C D)
      → Agrees s
      → contains w (s.clients d).watched_keys ≡ true
      → never_clears ops d l ≡ true
      → (t : Server K C D) × (u : Server K C D) × (run ops l (touch_watched_key w s) ≡ some t)
        × (exec_command ops d t ≡ some u)
        × (u.keyspace ≡ t.keyspace)
        × ((u.clients d).multi ≡ false)
  exec_command-run-touch_watched_key ops lawful d w l s a watched quiet =
      let (t, done, agrees, dirty) =
        run-IsDirty ops lawful d l (touch_watched_key w s)
          (SameWatches-Agrees (touch_watched_key-Calm w s).same a) quiet
          (touch_watched_key-IsDirty w d s a watched) in
      elim (Bool-cases (t.clients d).multi) [
        | inr off ↦ (
          t,
          say t (reply d exec_without_multi),
          done,
          unfold exec_command in rw off refl,
          refl,
          off,
        )
        | inl on ↦
            let x = exec_command-Aborts ops d t agrees on (rw dirty refl) in
            (t, x.after, done, x.done, x.keyspace, rw x.self refl)
      ]
