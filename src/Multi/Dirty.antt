-- ===== src/Multi/Dirty.antt =====
-- REDIS_DIRTY_CAS, the mark of a client whose watched key was touched: who sets it, and who may clear it.
use my_node_redis.Prelude.{
  ℕ, ◌≡◌, ◌==◌, ==_iff, Bool, true, false, Bool-cases, not, ◌&&◌, ◌||◌, if◌then◌else◌, Option, List,
  [], ◌∷◌, ◌++◌, inl, inr, refl, arith, ap, sym, ◌∙◌,
}
use my_node_redis.Prelude.Equality.{Eq, contains, contains-count, equal_sym, number_eq}
use my_node_redis.Registry.{enter, listed}
use my_node_redis.Multi.{
  Watch, watch_eq, propagate_multi, Client, Server, Event, Calls, set_client, say, mark, mark_all,
  touch_watched_key, flush_hits, flush_clients, watch_for_key, watch_keys, watch_command,
  multi_command, flag_transaction, queue_multi_command, exec_loop,
}
use my_node_redis.Multi.Agreement.{
  Agrees, SameWatches, SameWatches-trans, SameWatches-Agrees, set_client-SameWatches, Lawful,
  watch_for_key-Agrees,
}

module _ {K C D : Type 0} where
  -- the client is marked
  abbrev pub IsDirty : ℕ → Server K C D → Type 0
  IsDirty d s = (s.clients d).dirty_cas ≡ true

  -- A step that leaves the two indexes alone and clears no mark.
  pub record Calm (s t : Server K C D) : Type 0 where
    pub same : SameWatches s t
    pub kept : (d : ℕ) → IsDirty d s → IsDirty d t

  pub Calm-trans : {s t u : Server K C D} → Calm s t → Calm t u → Calm s u
  Calm-trans p q = record {
    same = SameWatches-trans p.same q.same;
    kept = λ d h. q.kept d (p.kept d h);
  }

  pub log-Calm : (s : Server K C D) (l : List Event) → Calm s (record s { log = l })
  log-Calm s l = record { same = record { registry = refl; own = λ c. refl }; kept = λ d h. h }

  pub say-Calm : (s : Server K C D) (m : Event) → Calm s (say s m)
  say-Calm s m = log-Calm s (s.log ++ m ∷ [])

  pub if-Calm :
      (b : Bool) (s t u : Server K C D) → Calm s t → Calm s u → Calm s (if b then t else u)
  if-Calm true s t u p q = p
  if-Calm false s t u p q = q

  pub set_client-IsDirty :
      (s : Server K C D) (c d : ℕ) (x : Client K C)
      → (IsDirty c s → x.dirty_cas ≡ true)
      → IsDirty d s
      → IsDirty d (set_client s c x)
  unfolding set_client
  set_client-IsDirty s c d x h dirty = elim (Bool-cases (c == d)) [
    | inl same ↦ rw same (h (ap (λ k. (s.clients k).dirty_cas) ((==_iff _ _).0 same) ∙ dirty))
    | inr other ↦ rw other dirty
  ]

  pub set_client-Calm :
      (s : Server K C D) (c : ℕ) (x : Client K C)
      → x.watched_keys ≡ (s.clients c).watched_keys
      → (IsDirty c s → x.dirty_cas ≡ true)
      → Calm s (set_client s c x)
  set_client-Calm s c x watches dirty = record {
    same = set_client-SameWatches s c x watches;
    kept = λ d. set_client-IsDirty s c d x dirty;
  }

  mark-Calm : (s : Server K C D) (c : ℕ) → Calm s (set_client s c (mark (s.clients c)))
  mark-Calm s c = set_client-Calm s c (mark (s.clients c)) refl (λ h. refl)

  pub mark_all-Calm : (l : List ℕ) (s : Server K C D) → Calm s (mark_all l s)
  unfolding mark_all
  mark_all-Calm [] s = record {
    same = record { registry = refl; own = λ c. refl };
    kept = λ d h. h;
  }
  mark_all-Calm (c ∷ l) s =
      Calm-trans (mark-Calm s c) (mark_all-Calm l (set_client s c (mark (s.clients c))))

  pub touch_watched_key-Calm : (w : Watch K) (s : Server K C D) → Calm s (touch_watched_key w s)
  unfolding touch_watched_key
  touch_watched_key-Calm w s = mark_all-Calm (listed s.watched w) s

  mark_all-mark :
      (l : List ℕ) (d : ℕ) (s : Server K C D)
      → ((mark_all l s).clients d).dirty_cas ≡ (contains d l || (s.clients d).dirty_cas)
  unfolding mark_all contains
  mark_all-mark [] d s = refl
  mark_all-mark (c ∷ l) d s =
      mark_all-mark l d (set_client s c (mark (s.clients c)))
      ∙ (unfold set_client in ground (arith, equal_sym c d))

  pub flush_clients-Calm :
      (ops : Calls K C D) (i : Option ℕ) (l : List ℕ) (s : Server K C D)
      → Calm s (flush_clients ops i l s)
  unfolding flush_clients
  flush_clients-Calm ops i [] s = log-Calm s s.log
  flush_clients-Calm ops i (c ∷ l) s =
      Calm-trans
        (if-Calm (flush_hits ops i s.keyspace (s.clients c).watched_keys) s
          (set_client s c (mark (s.clients c))) s (mark-Calm s c) (log-Calm s s.log))
        (flush_clients-Calm ops i l _)

  pub queue_multi_command-Calm :
      (c : ℕ) (cmd : C) (s : Server K C D) → Calm s (queue_multi_command c cmd s)
  unfolding queue_multi_command
  queue_multi_command-Calm c cmd s = set_client-Calm s c _ refl (λ h. h)

  pub flag_transaction-Calm : (c : ℕ) (s : Server K C D) → Calm s (flag_transaction c s)
  unfolding flag_transaction
  flag_transaction-Calm c s =
      if-Calm (s.clients c).multi s _ s (set_client-Calm s c _ refl (λ h. h)) (log-Calm s s.log)

  pub multi_command-Calm : (c : ℕ) (s : Server K C D) → Calm s (multi_command c s)
  unfolding multi_command
  multi_command-Calm c s =
      let x : Client K C = record (s.clients c) { multi = true } in
      if-Calm (s.clients c).multi s _ _ (say-Calm s _)
        (Calm-trans (set_client-Calm s c x refl (λ h. h)) (say-Calm (set_client s c x) _))

module _ {K C D : Type 0} ⦃e : Eq K⦄ where
  -- A step that keeps the two indexes in agreement and clears no mark.
  pub record Sound (s t : Server K C D) : Type 0 where
    pub agrees : Agrees s → Agrees t
    pub kept : (d : ℕ) → IsDirty d s → IsDirty d t

  pub Calm-Sound : {s t : Server K C D} → Calm s t → Sound s t
  Calm-Sound p = record { agrees = SameWatches-Agrees p.same; kept = p.kept }

  pub Sound-trans : {s t u : Server K C D} → Sound s t → Sound t u → Sound s u
  Sound-trans p q = record {
    agrees = λ a. q.agrees (p.agrees a);
    kept = λ d h. q.kept d (p.kept d h);
  }

  pub if-Sound :
      (b : Bool) (s t u : Server K C D) → Sound s t → Sound s u → Sound s (if b then t else u)
  if-Sound true s t u p q = p
  if-Sound false s t u p q = q

  watch_for_key-Sound : (c : ℕ) (k : K) (s : Server K C D) → Sound s (watch_for_key c k s)
  unfolding watch_for_key
  watch_for_key-Sound c k s =
      let w : Watch K = record { db = (s.clients c).db; key = k } in
      let x : Client K C = record (s.clients c) {
        watched_keys = (s.clients c).watched_keys ++ w ∷ [];
      } in
      let watched : Server K C D = record s { watched = enter s.watched w c } in
      record {
        agrees = watch_for_key-Agrees c k s;
        kept = λ d dirty. elim (Bool-cases (contains w (s.clients c).watched_keys)) [
          | inl old ↦ rw old dirty
          | inr new ↦ rw new (set_client-IsDirty watched c d x (λ h. h) dirty)
        ];
      }

  watch_keys-Sound : (c : ℕ) (l : List K) (s : Server K C D) → Sound s (watch_keys c l s)
  unfolding watch_keys
  watch_keys-Sound c [] s = Calm-Sound (log-Calm s s.log)
  watch_keys-Sound c (k ∷ l) s =
      Sound-trans (watch_for_key-Sound c k s) (watch_keys-Sound c l (watch_for_key c k s))

  pub watch_command-Sound : (c : ℕ) (l : List K) (s : Server K C D) → Sound s (watch_command c l s)
  unfolding watch_command
  watch_command-Sound c l s =
      if-Sound (s.clients c).multi s _ _ (Calm-Sound (say-Calm s _))
        (Sound-trans (watch_keys-Sound c l s) (Calm-Sound (say-Calm (watch_keys c l s) _)))

  -- The mark of every other client is kept while the queue of a client runs.
  pub exec_loop-IsDirty :
      (ops : Calls K C D) (lawful : Lawful ops) (c d : ℕ)
      → (c == d) ≡ false
      → (l : List C) (must : Bool) (s : Server K C D) → IsDirty d s
      → IsDirty d ((exec_loop ops c l must s).0)
  unfolding exec_loop
  exec_loop-IsDirty ops lawful c d other [] must s dirty = dirty
  exec_loop-IsDirty ops lawful c d other (cmd ∷ l) must s dirty =
      exec_loop-IsDirty ops lawful c d other l (must || not (ops.readonly cmd)) _ (
        lawful.keeps_mark c d cmd _ (rw other refl) (
          (if-Calm (not must && not (ops.readonly cmd)) s _ _
              (say-Calm s (propagate_multi (s.clients c).db)) (log-Calm s s.log)).kept
            d dirty))

  -- Where the two indexes of watched keys agree, `touchWatchedKey` marks exactly the clients that
  -- have the key in their own list, and leaves the other marks as they are.
  pub touch_watched_key-dirty_cas :
      (w : Watch K) (d : ℕ) (s : Server K C D)
      → Agrees s
      → ((touch_watched_key w s).clients d).dirty_cas
        ≡ (contains w (s.clients d).watched_keys || (s.clients d).dirty_cas)
  unfolding touch_watched_key
  touch_watched_key-dirty_cas w d s a =
      mark_all-mark (listed s.watched w) d s
      ∙ ap (λ b. b || (s.clients d).dirty_cas)
          (contains-count d (listed s.watched w)
            ∙ ap (λ (n : ℕ). if n == 0 then false else true) (a.agree d w)
            ∙ sym (contains-count w (s.clients d).watched_keys))

  pub touch_watched_key-IsDirty :
      (w : Watch K) (d : ℕ) (s : Server K C D)
      → Agrees s
      → contains w (s.clients d).watched_keys ≡ true
      → IsDirty d (touch_watched_key w s)
  touch_watched_key-IsDirty w d s a h = touch_watched_key-dirty_cas w d s a ∙ rw h refl
