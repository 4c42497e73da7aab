-- ===== src/Pubsub/Unsubscribe.antt =====
-- Leaving all channels, and subscribing and unsubscribing in turn.
use my_node_redis.Prelude.{
  ℕ, Bool-cases, inl, inr, ◌+◌, ◌≡◌, ◌==◌, ==_iff, Bool, true, false, ◌&&◌, Option, none, some,
  List, [], ◌∷◌, ◌++◌, length, refl, arith, ap, sym, ◌∙◌,
}
use my_node_redis.Prelude.Equality.{Eq, count, contains, erase, equal_refl, number_eq}
use my_node_redis.Registry.Counts.{times}
use my_node_redis.Registry.Agreement.{update}
use my_node_redis.Pubsub.{
  Server, add_channel, set_client, unsubscribed, subscriptions, send_if, subscribe_channel,
  unsubscribe_channel, unsubscribe_channels, unsubscribe_all_channels,
}
use my_node_redis.Pubsub.Agreement.{
  own_channels, own_patterns, Agrees, subscribe_channel-Agrees, unsubscribe_channel-Unsubscribes,
}

module _ {K : Type 0} ⦃e : Eq K⦄ where
  -- All channels of a client go, and no other client's.
  pub record LeavesAll (c : ℕ) (notify : Bool) (s : Server K) : Type 0 where
    pub after : Server K
    pub done : unsubscribe_all_channels c notify s ≡ some (after, length (own_channels s c))
    pub agrees : Agrees after
    pub gone : (ch : K) → times after.channels c ch ≡ 0
    pub channels : (d : ℕ) → own_channels after d ≡ update (own_channels s) c [] d
    pub patterns : (d : ℕ) → own_patterns after d ≡ own_patterns s d

  record Empties (c : ℕ) (s : Server K) (n : ℕ) (o : Option (Server K × ℕ)) : Type 0 where
    after : Server K
    done : o ≡ some (after, n)
    agrees : Agrees after
    channels : (d : ℕ) → own_channels after d ≡ update (own_channels s) c [] d
    patterns : (d : ℕ) → own_patterns after d ≡ own_patterns s d

  unsubscribe_channels-Empties :
      (c : ℕ) (l : List K) (notify : Bool) (s : Server K) (n : ℕ)
      → own_channels s c ≡ l
      → Agrees s
      → Empties c s (n + length l) (unsubscribe_channels c l notify s n)
  unfolding unsubscribe_channels contains erase
  unsubscribe_channels-Empties c [] notify s n h a = record {
    after = s;
    done = ap (λ k. some (s, k)) (omega arith);
    agrees = a;
    channels = λ d. ground (arith, h, ap {B = List K} (own_channels s), (==_iff c d).0);
    patterns = λ d. refl;
  }
  unsubscribe_channels-Empties c (ch ∷ l) notify s n h a =
      let u = unsubscribe_channel-Unsubscribes c ch notify s a in
      let has : contains ch (own_channels s c) ≡ true = rw (h, equal_refl ch) refl in
      let left : own_channels u.after c ≡ l =
        rw (u.channels c, equal_refl c, h, equal_refl ch) refl in
      let r = unsubscribe_channels-Empties c l notify u.after (n + 1) left u.agrees in
      record {
        after = r.after;
        done = rw (u.done, has) (r.done ∙ ap (λ k. some (r.after, k)) (omega arith));
        agrees = r.agrees;
        channels = λ d. ground (arith, r.channels d, u.channels d);
        patterns = λ d. r.patterns d ∙ u.patterns d;
      }

  -- Where the subscriptions agree, `pubsubUnsubscribeAllChannels` answers how many channels the
  -- client was on; afterwards it is on none, in its own dictionary and in that of the server, the
  -- channels of the others and all patterns of the clients are as before, and the subscriptions
  -- agree.
  pub unsubscribe_all_channels-LeavesAll :
      (c : ℕ) (notify : Bool) (s : Server K) → Agrees s → LeavesAll c notify s
  unfolding unsubscribe_all_channels
  unsubscribe_all_channels-LeavesAll c notify s a =
      let r = unsubscribe_channels-Empties c (own_channels s c) notify s 0 refl a in
      let n = 0 + length (own_channels s c) in
      let t : Server K =
        send_if (notify && n == 0) c (unsubscribed none (subscriptions c r.after)) r.after in
      record {
        after = t;
        done = rw r.done (ap (λ k. some (t, k)) (omega arith));
        agrees = r.agrees;
        gone =
            λ ch. (r.agrees.0).agree c ch ∙ (unfold count in rw (r.channels c, equal_refl c) refl);
        channels = r.channels;
        patterns = r.patterns;
      }

  erase-append : (a : K) (l : List K) → contains a l ≡ false → erase a (l ++ a ∷ []) ≡ l
  unfolding contains erase
  erase-append a [] h = rw (equal_refl a) refl
  erase-append a (x ∷ l) h = ground (arith, erase-append a l)

  contains-append : (a : K) (l : List K) → contains a (l ++ a ∷ []) ≡ true
  unfolding contains
  contains-append a [] = rw (equal_refl a) refl
  contains-append a (x ∷ l) = ground (arith, contains-append a l)

  own_channels-subscribe :
      (c : ℕ) (ch : K) (s : Server K)
      → contains ch (own_channels s c) ≡ false
      → (d : ℕ)
      → own_channels ((subscribe_channel c ch s).0) d
        ≡ update (own_channels s) c (own_channels s c ++ ch ∷ []) d
  unfolding subscribe_channel add_channel set_client
  own_channels-subscribe c ch s new d = rw new (ground arith)

  -- Where the subscriptions agree, a client that is not on a channel subscribes to it and
  -- unsubscribes: both calls answer 1, and afterwards every client has its channels as before and
  -- is listed under every channel as often as before.
  pub unsubscribe_channel-subscribe_channel :
      (c : ℕ) (ch : K) (notify : Bool) (s : Server K)
      → Agrees s
      → contains ch (own_channels s c) ≡ false
      → (t : Server K) × ((subscribe_channel c ch s).1 ≡ 1)
        × (unsubscribe_channel c ch notify ((subscribe_channel c ch s).0) ≡ some (t, 1))
        × ((d : ℕ) → own_channels t d ≡ own_channels s d)
        × ((d : ℕ) (w : K) → times t.channels d w ≡ times s.channels d w)
  unsubscribe_channel-subscribe_channel c ch notify s a new =
      let s' = (subscribe_channel c ch s).0 in
      let u = unsubscribe_channel-Unsubscribes c ch notify s' (subscribe_channel-Agrees c ch s a) in
      let mine : own_channels s' c ≡ own_channels s c ++ ch ∷ [] =
        own_channels-subscribe c ch s new c ∙ rw (equal_refl c) refl in
      let has : contains ch (own_channels s' c) ≡ true =
        rw mine (contains-append ch (own_channels s c)) in
      let back : (d : ℕ) → own_channels u.after d ≡ own_channels s d = λ d.
        u.channels d
        ∙ rw (mine, erase-append ch (own_channels s c) new)
            (elim (Bool-cases (c == d)) [
              | inl same ↦ rw same (ap (own_channels s) ((==_iff c d).0 same))
              | inr other ↦ rw other (own_channels-subscribe c ch s new d ∙ rw other refl)
            ]) in
      (
        u.after,
        (unfold subscribe_channel in rw new refl),
        u.done ∙ rw has refl,
        back,
        λ d w. (u.agrees.0).agree d w ∙ rw (back d) (sym ((a.0).agree d w)),
      )
