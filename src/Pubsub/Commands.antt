-- ===== src/Pubsub/Commands.antt =====
-- The commands of publish and subscribe, and any sequence of them.
use my_node_redis.Prelude.{
  ℕ, ◌+◌, ◌≡◌, ◌==◌, Bool, true, false, ◌&&◌, if◌then◌else◌, Option, none, some, List, [], ◌∷◌,
  refl,
}
use my_node_redis.Prelude.Equality.{Eq, contains, number_eq}
use my_node_redis.Registry.{listed}
use my_node_redis.Pubsub.{
  Pattern, Server, integer, unsubscribed, punsubscribed, subscriptions, ◌>>=◌, send, send_if,
  subscribe_channel, subscribe_pattern, unsubscribe_channels, unsubscribe_patterns,
  unsubscribe_all_channels, unsubscribe_all_patterns, send_channel, send_patterns, publish_message,
}
use my_node_redis.Pubsub.Agreement.{
  own_channels, own_patterns, Agrees, subscribe_channel-Agrees, subscribe_pattern-Agrees,
  unsubscribe_channel-Unsubscribes, unsubscribe_pattern-UnsubscribesPattern,
}

module _ {K : Type 0} ⦃e : Eq K⦄ where
  -- `subscribeCommand`
  unfoldable pub subscribe_command : ℕ → List K → Server K → Server K
  subscribe_command c [] s = s
  subscribe_command c (ch ∷ l) s = subscribe_command c l ((subscribe_channel c ch s).0)

  -- `psubscribeCommand`
  unfoldable pub psubscribe_command : ℕ → List K → Server K → Server K
  psubscribe_command c [] s = s
  psubscribe_command c (p ∷ l) s = psubscribe_command c l ((subscribe_pattern c p s).0)

  -- `unsubscribeCommand`: all channels if none is named; the number that comes out is not used
  unfoldable pub unsubscribe_command : ℕ → List K → Server K → Option (Server K)
  unsubscribe_command c [] s = do r ← unsubscribe_all_channels c true s; some (r.0)
  unsubscribe_command c (ch ∷ l) s = do r ← unsubscribe_channels c (ch ∷ l) true s 0; some (r.0)

  -- `punsubscribeCommand`
  unfoldable pub punsubscribe_command : ℕ → List K → Server K → Option (Server K)
  punsubscribe_command c [] s = do r ← unsubscribe_all_patterns c true s; some (r.0)
  punsubscribe_command c (p ∷ l) s = do r ← unsubscribe_patterns c (p ∷ l) true s 0; some (r.0)

  -- `publishCommand`
  unfoldable pub publish_command : (K → K → Bool) → ℕ → K → K → Server K → Server K
  publish_command matches c ch m s =
      let r = publish_message matches ch m s in send c (integer (r.1)) (r.0)

  -- what `freeClient` does to the subscriptions
  unfoldable pub free_subscriptions : ℕ → Server K → Option (Server K)
  free_subscriptions c s = do
    r ← unsubscribe_all_channels c false s
    t ← unsubscribe_all_patterns c false (r.0)
    some (t.0)

-- what clients do
pub data Action (K : Type 0) : Type 0 where
  subscribe unsubscribe psubscribe punsubscribe : List K → Action K
  publish : K → K → Action K
  quit : Action K

module _ {K : Type 0} ⦃e : Eq K⦄ where
  abbrev pub act : (K → K → Bool) → ℕ → Action K → Server K → Option (Server K)
  act matches c (subscribe l) s = some (subscribe_command c l s)
  act matches c (unsubscribe l) s = unsubscribe_command c l s
  act matches c (psubscribe l) s = some (psubscribe_command c l s)
  act matches c (punsubscribe l) s = punsubscribe_command c l s
  act matches c (publish ch m) s = some (publish_command matches c ch m s)
  act matches c quit s = free_subscriptions c s

  unfoldable pub run : (K → K → Bool) → List (ℕ × Action K) → Server K → Option (Server K)
  run matches [] s = some s
  run matches ((c, x) ∷ l) s = act matches c x s >>= run matches l

  -- The loop over channels does not fail; from all the channels of a client, it counts them all.
  record Loops (o : Option (Server K × ℕ)) : Type 0 where
    after : Server K
    number : ℕ
    done : o ≡ some (after, number)
    agrees : Agrees after

  unsubscribe_channels-Loops :
      (c : ℕ) (l : List K) (notify : Bool) (s : Server K) (n : ℕ)
      → Agrees s
      → Loops (unsubscribe_channels c l notify s n)
  unfolding unsubscribe_channels
  unsubscribe_channels-Loops c [] notify s n a = record {
    after = s;
    number = n;
    done = refl;
    agrees = a;
  }
  unsubscribe_channels-Loops c (ch ∷ l) notify s n a =
      let u = unsubscribe_channel-Unsubscribes c ch notify s a in
      let r =
        unsubscribe_channels-Loops c l notify u.after
          (n + (if contains ch (own_channels s c) then 1 else 0)) u.agrees in
      record { after = r.after; number = r.number; done = rw u.done r.done; agrees = r.agrees }

  unsubscribe_patterns-Loops :
      (c : ℕ) (l : List K) (notify : Bool) (s : Server K) (n : ℕ)
      → Agrees s
      → Loops (unsubscribe_patterns c l notify s n)
  unfolding unsubscribe_patterns
  unsubscribe_patterns-Loops c [] notify s n a = record {
    after = s;
    number = n;
    done = refl;
    agrees = a;
  }
  unsubscribe_patterns-Loops c (p ∷ l) notify s n a =
      let u = unsubscribe_pattern-UnsubscribesPattern c p notify s a in
      let r =
        unsubscribe_patterns-Loops c l notify u.after
          (n + (if contains p (own_patterns s c) then 1 else 0)) u.agrees in
      record { after = r.after; number = r.number; done = rw u.done r.done; agrees = r.agrees }

  unsubscribe_all_channels-Loops :
      (c : ℕ) (notify : Bool) (s : Server K)
      → Agrees s
      → Loops (unsubscribe_all_channels c notify s)
  unfolding unsubscribe_all_channels
  unsubscribe_all_channels-Loops c notify s a =
      let r = unsubscribe_channels-Loops c (own_channels s c) notify s 0 a in
      record {
        after =
            send_if (notify && r.number == 0) c (unsubscribed none (subscriptions c r.after))
              r.after;
        number = r.number;
        done = rw r.done refl;
        agrees = r.agrees;
      }

  unsubscribe_all_patterns-Loops :
      (c : ℕ) (notify : Bool) (s : Server K)
      → Agrees s
      → Loops (unsubscribe_all_patterns c notify s)
  unfolding unsubscribe_all_patterns
  unsubscribe_all_patterns-Loops c notify s a =
      let r = unsubscribe_patterns-Loops c (own_patterns s c) notify s 0 a in
      record {
        after =
            send_if (notify && r.number == 0) c (punsubscribed none (subscriptions c r.after))
              r.after;
        number = r.number;
        done = rw r.done refl;
        agrees = r.agrees;
      }

  unsubscribe_command-Agrees :
      (c : ℕ) (l : List K) (s : Server K)
      → Agrees s
      → (t : Server K) × (unsubscribe_command c l s ≡ some t) × Agrees t
  unfolding unsubscribe_command
  unsubscribe_command-Agrees c [] s a =
      let r = unsubscribe_all_channels-Loops c true s a in (r.after, rw r.done refl, r.agrees)
  unsubscribe_command-Agrees c (ch ∷ l) s a =
      let r = unsubscribe_channels-Loops c (ch ∷ l) true s 0 a in
      (r.after, rw r.done refl, r.agrees)

  punsubscribe_command-Agrees :
      (c : ℕ) (l : List K) (s : Server K)
      → Agrees s
      → (t : Server K) × (punsubscribe_command c l s ≡ some t) × Agrees t
  unfolding punsubscribe_command
  punsubscribe_command-Agrees c [] s a =
      let r = unsubscribe_all_patterns-Loops c true s a in (r.after, rw r.done refl, r.agrees)
  punsubscribe_command-Agrees c (p ∷ l) s a =
      let r = unsubscribe_patterns-Loops c (p ∷ l) true s 0 a in (r.after, rw r.done refl, r.agrees)

  free_subscriptions-Agrees :
      (c : ℕ) (s : Server K)
      → Agrees s
      → (t : Server K) × (free_subscriptions c s ≡ some t) × Agrees t
  unfolding free_subscriptions
  free_subscriptions-Agrees c s a =
      let r = unsubscribe_all_channels-Loops c false s a in
      let t = unsubscribe_all_patterns-Loops c false r.after r.agrees in
      (t.after, rw (r.done, t.done) refl, t.agrees)

  subscribe_command-Agrees :
      (c : ℕ) (l : List K) (s : Server K) → Agrees s → Agrees (subscribe_command c l s)
  unfolding subscribe_command
  subscribe_command-Agrees c [] s a = a
  subscribe_command-Agrees c (ch ∷ l) s a =
      subscribe_command-Agrees c l _ (subscribe_channel-Agrees c ch s a)

  psubscribe_command-Agrees :
      (c : ℕ) (l : List K) (s : Server K) → Agrees s → Agrees (psubscribe_command c l s)
  unfolding psubscribe_command
  psubscribe_command-Agrees c [] s a = a
  psubscribe_command-Agrees c (p ∷ l) s a =
      psubscribe_command-Agrees c l _ (subscribe_pattern-Agrees c p s a)

  send_channel-Agrees :
      (ch m : K) (l : List ℕ) (s : Server K) (n : ℕ)
      → Agrees s
      → Agrees ((send_channel ch m l s n).0)
  unfolding send_channel
  send_channel-Agrees ch m [] s n a = a
  send_channel-Agrees ch m (c ∷ l) s n a = send_channel-Agrees ch m l _ (n + 1) a

  send_patterns-Agrees :
      (matches : K → K → Bool) (ch m : K) (l : List (Pattern K)) (s : Server K) (n : ℕ)
      → Agrees s
      → Agrees ((send_patterns matches ch m l s n).0)
  unfolding send_patterns
  send_patterns-Agrees matches ch m [] s n a = a
  send_patterns-Agrees matches ch m (p ∷ l) s n a = send_patterns-Agrees matches ch m l _ _ a

  publish_command-Agrees :
      (matches : K → K → Bool) (c : ℕ) (ch m : K) (s : Server K)
      → Agrees s
      → Agrees (publish_command matches c ch m s)
  unfolding publish_command publish_message
  publish_command-Agrees matches c ch m s a =
      send_patterns-Agrees matches ch m s.patterns _ _
        (send_channel-Agrees ch m (listed s.channels ch) s 0 a)

  act-Agrees :
      (matches : K → K → Bool) (c : ℕ) (x : Action K) (s : Server K)
      → Agrees s
      → (t : Server K) × (act matches c x s ≡ some t) × Agrees t
  act-Agrees matches c (subscribe l) s a = (_, refl, subscribe_command-Agrees c l s a)
  act-Agrees matches c (unsubscribe l) s a = unsubscribe_command-Agrees c l s a
  act-Agrees matches c (psubscribe l) s a = (_, refl, psubscribe_command-Agrees c l s a)
  act-Agrees matches c (punsubscribe l) s a = punsubscribe_command-Agrees c l s a
  act-Agrees matches c (publish ch m) s a = (_, refl, publish_command-Agrees matches c ch m s a)
  act-Agrees matches c quit s a = free_subscriptions-Agrees c s a

  -- From a state where the subscriptions of the server and of the clients agree, any sequence of
  -- SUBSCRIBE, UNSUBSCRIBE, PSUBSCRIBE, PUNSUBSCRIBE, PUBLISH and of clients that quit fails no
  -- assertion and ends in a state where they agree.
  pub run-subscriptions :
      (matches : K → K → Bool) (l : List (ℕ × Action K)) (s : Server K)
      → Agrees s
      → (t : Server K) × (run matches l s ≡ some t) × Agrees t
  unfolding run
  run-subscriptions matches [] s a = (s, refl, a)
  run-subscriptions matches ((c, x) ∷ l) s a =
      let (t, done, agrees) = act-Agrees matches c x s a in
      let (u, all_done, all_agree) = run-subscriptions matches l t agrees in
      (u, rw done all_done, all_agree)
