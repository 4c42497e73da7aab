-- ===== src/Multi/Agreement.antt =====
-- The two indexes of watched keys, that of the databases and those of the clients, agree.
use my_node_redis.Prelude.{
  ◌&&◌, false, ℕ, ◌≡◌, ◌==◌, ==_iff, true, Bool-cases, some, List, [], ◌∷◌, inl, inr, refl, arith,
  ap, ◌∙◌,
}
use my_node_redis.Prelude.Equality.{Eq, contains, erase, equal_refl, number_eq}
use my_node_redis.Registry.{Registry, enter}
use my_node_redis.Registry.Agreement.{
  Agreement, Agreement-own, update, enter-Agreement, leave-GivesUp,
}
use my_node_redis.Multi.{
  Calls, Watch, watch_eq, Client, Server, set_client, watch_for_key, leave_all, unwatch_all_keys,
  mark_all, mark,
}

module _ {K C D : Type 0} where
  -- A step that leaves both indexes alone.
  pub record SameWatches (s t : Server K C D) : Type 0 where
    pub registry : t.watched ≡ s.watched
    pub own : (c : ℕ) → (t.clients c).watched_keys ≡ (s.clients c).watched_keys

  pub SameWatches-trans :
      {s t u : Server K C D} → SameWatches s t → SameWatches t u → SameWatches s u
  SameWatches-trans p q = record {
    registry = q.registry ∙ p.registry;
    own = λ c. q.own c ∙ p.own c;
  }

  pub set_client-SameWatches :
      (s : Server K C D) (c : ℕ) (x : Client K C)
      → x.watched_keys ≡ (s.clients c).watched_keys
      → SameWatches s (set_client s c x)
  unfolding set_client
  set_client-SameWatches s c x h = record {
    registry = refl;
    own = λ d. elim (Bool-cases (c == d)) [
      | inr other ↦ rw other
      | inl same ↦ rw (same, h) (ap (λ k. (s.clients k).watched_keys) ((==_iff _ _).0 same))
    ];
  }

  pub mark_all-SameWatches : (l : List ℕ) (s : Server K C D) → SameWatches s (mark_all l s)
  unfolding mark_all
  mark_all-SameWatches [] s = record { registry = refl; own = λ c. refl }
  mark_all-SameWatches (c ∷ l) s =
      SameWatches-trans (set_client-SameWatches s c (mark (s.clients c)) refl)
        (mark_all-SameWatches l (set_client s c (mark (s.clients c))))

module _ {K : Type 0} ⦃e : Eq K⦄ where
  -- A client leaves every key that it has.
  leave_all-Agreement :
      (c : ℕ) (l : List (Watch K)) (r : Registry (Watch K)) (own : ℕ → List (Watch K))
      → own c ≡ l
      → Agreement r own
      → (after : Registry (Watch K)) × (leave_all c l r ≡ some after)
        × Agreement after (update own c [])
  unfolding leave_all
  leave_all-Agreement c [] r own h a =
      (r, refl, Agreement-own r own _ (λ d. ground (arith, h, (==_iff c d).0)) a)
  leave_all-Agreement c (w ∷ l) r own h a =
      let one = leave-GivesUp r own a c w (unfold contains in rw (h, equal_refl w) refl) in
      let (after, done, agreement) =
        leave_all-Agreement c l one.after (update own c (erase w (own c)))
          (unfold erase in rw (equal_refl c, h, equal_refl w) refl) one.agreement in
      (after, rw one.done done, Agreement-own after _ _ (λ d. ground arith) agreement)

module _ {K C D : Type 0} ⦃e : Eq K⦄ where
  -- the keys that each client has in its own list
  abbrev pub own_keys : Server K C D → ℕ → List (Watch K)
  own_keys s c = (s.clients c).watched_keys

  abbrev pub Agrees : Server K C D → Type 0
  Agrees s = Agreement s.watched (own_keys s)

  pub SameWatches-Agrees : {s t : Server K C D} → SameWatches s t → Agrees s → Agrees t
  SameWatches-Agrees {s} {t} same a =
      rw same.registry (Agreement-own s.watched (own_keys s) (own_keys t) same.own a)

  -- A client and the registry change together.
  set_client-Agrees :
      (s : Server K C D) (r : Registry (Watch K)) (c : ℕ) (x : Client K C)
      → Agreement r (update (own_keys s) c x.watched_keys)
      → Agrees (set_client (record s { watched = r }) c x)
  unfolding set_client
  set_client-Agrees s r c x a =
      Agreement-own r (update (own_keys s) c x.watched_keys) _ (λ d. ground arith) a

  abbrev pub unwatched : Server K C D → ℕ → Registry (Watch K) → Server K C D
  unwatched s c r =
      set_client (record s { watched = r }) c (record (s.clients c) { watched_keys = [] })

  -- `unwatchAllKeys` does not fail, and takes the client out of both indexes.
  pub record Unwatches (c : ℕ) (s : Server K C D) : Type 0 where
    pub registry : Registry (Watch K)
    pub done : unwatch_all_keys c s ≡ some (unwatched s c registry)
    pub agrees : Agrees (unwatched s c registry)

  pub unwatch_all_keys-Unwatches : (c : ℕ) (s : Server K C D) → Agrees s → Unwatches c s
  unfolding unwatch_all_keys
  unwatch_all_keys-Unwatches c s a =
      let (after, done, agreement) =
        leave_all-Agreement c (s.clients c).watched_keys s.watched (own_keys s) refl a in
      record {
        registry = after;
        done = rw done;
        agrees = set_client-Agrees s after c (record (s.clients c) { watched_keys = [] }) agreement;
      }

  pub watch_for_key-Agrees :
      (c : ℕ) (k : K) (s : Server K C D) → Agrees s → Agrees (watch_for_key c k s)
  unfolding watch_for_key
  watch_for_key-Agrees c k s a =
      let w : Watch K = record { db = (s.clients c).db; key = k } in
      elim (Bool-cases (contains w (s.clients c).watched_keys)) [
        | inl old ↦ rw old a
        | inr new ↦ rw new (
            set_client-Agrees s (enter s.watched w c) c _
              (enter-Agreement s.watched (own_keys s) a c w new))
      ]

  -- What is asked of `call`: it keeps the two indexes in agreement, and the mark of a client goes only
  -- when that client calls UNWATCH.
  pub record Lawful (ops : Calls K C D) : Type 0 where
    pub keeps_agreement :
        (c : ℕ) (cmd : C) (s : Server K C D) → Agrees s → Agrees (ops.call c cmd s)
    pub keeps_mark :
        (c d : ℕ) (cmd : C) (s : Server K C D)
        → (c == d && ops.unwatches cmd) ≡ false
        → (s.clients d).dirty_cas ≡ true
        → ((ops.call c cmd s).clients d).dirty_cas ≡ true
