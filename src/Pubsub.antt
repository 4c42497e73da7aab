-- ===== src/Pubsub.antt =====
-- redis/src/pubsub.c: clients subscribe to channels and to patterns, and messages are published to
-- them. A client stands for its address; a dictionary with no values stands for the list of its keys.
-- Channels, patterns and messages are of one type of strings, and `matches` is `stringmatchlen` on a
-- pattern and a channel. Reference counts are left out. `none` is an assertion that fails, or the
-- deletion of a node that is not there.
pub mod Agreement
pub mod News
pub mod Publish
pub mod Commands
pub mod Unsubscribe
pub mod Tests
use my_node_redis.Prelude.{
  ℕ, ◌+◌, ◌≡◌, ◌↔◌, Bool, true, false, not, ◌&&◌, ◌==◌, ==_iff, if◌then◌else◌, Option, none, some,
  List, [], ◌∷◌, ◌++◌, length, ap, arith,
}
use my_node_redis.Prelude.Equality.{Eq, contains, erase}
use my_node_redis.Registry.{Registry, listed, enter, leave}

-- `pubsubPattern`
pub record Pattern (K : Type 0) : Type 0 where
  pub client : ℕ
  pub pattern : K

module _ {K : Type 0} ⦃e : Eq K⦄ where
  -- `listMatchPubsubPattern`
  abbrev pub same_pattern : Pattern K → Pattern K → Bool
  same_pattern p q = p.client == q.client && e.equal p.pattern q.pattern

  pub same_pattern_iff : (p q : Pattern K) → (same_pattern p q ≡ true) ↔ (p ≡ q)
  same_pattern_iff p q = (
    λ h. ground (arith, h, (e.equal_iff p.pattern q.pattern).0),
    λ h.
        ground (
          arith,
          ap (λ x. x.client) h,
          (e.equal_iff p.pattern q.pattern).1 (ap (λ x. x.pattern) h),
        ),
  )

  instance abbrev pub pattern_eq : Eq (Pattern K)
  pattern_eq = record { equal = same_pattern; equal_iff = same_pattern_iff }

-- `pubsub_channels` and `pubsub_patterns` of a client
pub record Client (K : Type 0) : Type 0 where
  pub channels : List K
  pub patterns : List K

-- The messages to a client, with the number of its subscriptions; `none` stands for `shared.nullbulk`.
pub data Reply (K : Type 0) : Type 0 where
  subscribed psubscribed : K → ℕ → Reply K
  unsubscribed punsubscribed : Option K → ℕ → Reply K
  message : K → K → Reply K
  pmessage : K → K → K → Reply K
  integer : ℕ → Reply K

-- `server.pubsub_channels`, `server.pubsub_patterns`, the clients, and all that is sent
pub record Server (K : Type 0) : Type 0 where
  pub clients : ℕ → Client K
  pub channels : Registry K
  pub patterns : List (Pattern K)
  pub output : List (ℕ × Reply K)

infixl 5 ◌>>=◌
abbrev pub ◌>>=◌ : {A B : Type 0} → Option A → (A → Option B) → Option B
none >>= f = none
some a >>= f = f a

module _ {K : Type 0} where
  unfoldable pub set_client : Server K → ℕ → Client K → Server K
  set_client s c x = record s { clients = λ d. if c == d then x else s.clients d }

  abbrev pub send : ℕ → Reply K → Server K → Server K
  send c r s = record s { output = s.output ++ (c, r) ∷ [] }

  abbrev pub send_if : Bool → ℕ → Reply K → Server K → Server K
  send_if notify c r s = record s { output = s.output ++ (if notify then (c, r) ∷ [] else []) }

  -- `dictSize(c->pubsub_channels)+listLength(c->pubsub_patterns)`
  abbrev pub subscriptions : ℕ → Server K → ℕ
  subscriptions c s = length (s.clients c).channels + length (s.clients c).patterns

  -- `if (...) { retval = 1; ... }`, with what the branch does
  abbrev pub attempt : Bool → Option (Server K) → Server K → Option (Server K × ℕ)
  attempt true o s = do t ← o; some (t, 1)
  attempt false o s = some (s, 0)

module _ {K : Type 0} ⦃e : Eq K⦄ where
  -- a client takes a channel, in both dictionaries
  unfoldable pub add_channel : ℕ → K → Server K → Server K
  unfolding set_client
  add_channel c ch s =
      set_client (record s { channels = enter s.channels ch c }) c
        (record (s.clients c) { channels = (s.clients c).channels ++ ch ∷ [] })

  unfoldable pub drop_channel : ℕ → K → Server K → Option (Server K)
  unfolding set_client
  drop_channel c ch s = do
    r ← leave s.channels ch c
    some (
        set_client (record s { channels = r }) c
          (record (s.clients c) { channels = erase ch (s.clients c).channels }))

  -- a client takes a pattern, in both lists
  unfoldable pub add_pattern : ℕ → K → Server K → Server K
  unfolding set_client
  add_pattern c p s =
      set_client (record s { patterns = s.patterns ++ record { client = c; pattern = p } ∷ [] }) c
        (record (s.clients c) { patterns = (s.clients c).patterns ++ p ∷ [] })

  unfoldable pub drop_pattern : ℕ → K → Server K → Option (Server K)
  unfolding set_client
  drop_pattern c p s =
      let q : Pattern K = record { client = c; pattern = p } in
      if contains q s.patterns
      then some (
          set_client (record s { patterns = erase q s.patterns }) c
            (record (s.clients c) { patterns = erase p (s.clients c).patterns }))
      else none

  -- `pubsubSubscribeChannel`
  unfoldable pub subscribe_channel : ℕ → K → Server K → Server K × ℕ
  subscribe_channel c ch s =
      let new = not (contains ch (s.clients c).channels) in
      let t = if new then add_channel c ch s else s in
      (send c (subscribed ch (subscriptions c t)) t, if new then 1 else 0)

  -- `pubsubUnsubscribeChannel`
  unfoldable pub unsubscribe_channel : ℕ → K → Bool → Server K → Option (Server K × ℕ)
  unsubscribe_channel c ch notify s = do
    r ← attempt (contains ch (s.clients c).channels) (drop_channel c ch s) s
    some (send_if notify c (unsubscribed (some ch) (subscriptions c (r.0))) (r.0), r.1)

  -- `pubsubSubscribePattern`
  unfoldable pub subscribe_pattern : ℕ → K → Server K → Server K × ℕ
  subscribe_pattern c p s =
      let new = not (contains p (s.clients c).patterns) in
      let t = if new then add_pattern c p s else s in
      (send c (psubscribed p (subscriptions c t)) t, if new then 1 else 0)

  -- `pubsubUnsubscribePattern`
  unfoldable pub unsubscribe_pattern : ℕ → K → Bool → Server K → Option (Server K × ℕ)
  unsubscribe_pattern c p notify s = do
    r ← attempt (contains p (s.clients c).patterns) (drop_pattern c p s) s
    some (send_if notify c (punsubscribed (some p) (subscriptions c (r.0))) (r.0), r.1)

  -- the loops of `pubsubUnsubscribeAllChannels` and `pubsubUnsubscribeAllPatterns`
  unfoldable pub unsubscribe_channels : ℕ → List K → Bool → Server K → ℕ → Option (Server K × ℕ)
  unsubscribe_channels c [] notify s n = some (s, n)
  unsubscribe_channels c (ch ∷ l) notify s n = do
    r ← unsubscribe_channel c ch notify s
    unsubscribe_channels c l notify (r.0) (n + r.1)

  unfoldable pub unsubscribe_patterns : ℕ → List K → Bool → Server K → ℕ → Option (Server K × ℕ)
  unsubscribe_patterns c [] notify s n = some (s, n)
  unsubscribe_patterns c (p ∷ l) notify s n = do
    r ← unsubscribe_pattern c p notify s
    unsubscribe_patterns c l notify (r.0) (n + r.1)

  -- `pubsubUnsubscribeAllChannels`
  unfoldable pub unsubscribe_all_channels : ℕ → Bool → Server K → Option (Server K × ℕ)
  unsubscribe_all_channels c notify s = do
    r ← unsubscribe_channels c (s.clients c).channels notify s 0
    some (send_if (notify && r.1 == 0) c (unsubscribed none (subscriptions c (r.0))) (r.0), r.1)

  -- `pubsubUnsubscribeAllPatterns`
  unfoldable pub unsubscribe_all_patterns : ℕ → Bool → Server K → Option (Server K × ℕ)
  unsubscribe_all_patterns c notify s = do
    r ← unsubscribe_patterns c (s.clients c).patterns notify s 0
    some (send_if (notify && r.1 == 0) c (punsubscribed none (subscriptions c (r.0))) (r.0), r.1)

module _ {K : Type 0} where
  -- the loop of `pubsubPublishMessage` over the clients of a channel
  unfoldable pub send_channel : K → K → List ℕ → Server K → ℕ → Server K × ℕ
  send_channel ch m [] s n = (s, n)
  send_channel ch m (c ∷ l) s n = send_channel ch m l (send c (message ch m) s) (n + 1)

  -- the loop over the patterns
  unfoldable pub send_patterns :
      (K → K → Bool) → K → K → List (Pattern K) → Server K → ℕ → Server K × ℕ
  send_patterns matches ch m [] s n = (s, n)
  send_patterns matches ch m (p ∷ l) s n =
      send_patterns matches ch m l
        (send_if (matches p.pattern ch) p.client (pmessage p.pattern ch m) s)
        (if matches p.pattern ch then n + 1 else n)

  -- `pubsubPublishMessage`
  unfoldable pub publish_message : (K → K → Bool) → K → K → Server K → Server K × ℕ
  publish_message matches ch m s =
      let r = send_channel ch m (listed s.channels ch) s 0 in
      send_patterns matches ch m s.patterns r.0 r.1
