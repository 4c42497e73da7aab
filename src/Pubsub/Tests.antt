-- ===== src/Pubsub/Tests.antt =====
-- Three clients on channels and patterns, and the theorems on them.
use my_node_redis.Prelude.{ℕ, ◌+◌, ◌≡◌, ltb, Bool, true, none, some, List, [], ◌∷◌, refl, arith}
use my_node_redis.Prelude.Equality.{contains, count, number_eq}
use my_node_redis.Registry.{enter, assign}
use my_node_redis.Pubsub.{
  Server, subscribe_channel, subscribe_pattern, publish_message, add_channel, add_pattern,
  set_client, send_channel, send_patterns,
}
use my_node_redis.Pubsub.Agreement.{Agrees, subscribe_channel-Agrees, subscribe_pattern-Agrees}
use my_node_redis.Pubsub.Publish.{Publishes, publish_message_lem}
use my_node_redis.Pubsub.Commands.{
  Action, subscribe, unsubscribe, psubscribe, punsubscribe, publish, quit, run, run-subscriptions,
}
use my_node_redis.Pubsub.Unsubscribe.{LeavesAll, unsubscribe_all_channels-LeavesAll}

abbrev fresh : Server ℕ
fresh = record {
  clients = λ c. record { channels = []; patterns = [] };
  channels = λ w. none;
  patterns = [];
  output = [];
}

-- a pattern matches the channels from it on
abbrev from : ℕ → ℕ → Bool
from p ch = ltb p (ch + 1)

fresh-Agrees : Agrees fresh
unfolding count
fresh-Agrees = (
  record { agree = λ c w. refl; once = λ c w. omega arith; tight = λ w. cc },
  record { agree = λ c w. refl; once = λ c w. omega arith },
)

-- client 1 is on channel 5 and on the patterns from 4 on
abbrev busy : Server ℕ
busy = (subscribe_pattern 1 4 ((subscribe_channel 1 5 fresh).0)).0

busy-Agrees : Agrees busy
busy-Agrees =
    subscribe_pattern-Agrees 1 4 ((subscribe_channel 1 5 fresh).0)
      (subscribe_channel-Agrees 1 5 fresh fresh-Agrees)

abbrev session : List (ℕ × Action ℕ)
session =
    (1, subscribe (5 ∷ 6 ∷ 5 ∷ []))
    ∷ (2, psubscribe (4 ∷ []))
    ∷ (3, publish 5 9)
    ∷ (1, unsubscribe (5 ∷ 7 ∷ []))
    ∷ (2, punsubscribe [])
    ∷ (1, quit)
    ∷ []

run-subscriptions_example : (t : Server ℕ) × (run from session fresh ≡ some t) × Agrees t
run-subscriptions_example = run-subscriptions from session fresh fresh-Agrees

publish_message_lem_example : Publishes from 5 9 busy
publish_message_lem_example = publish_message_lem from 5 9 busy busy-Agrees

-- Client 1 gets the message twice.
busy_publish : (publish_message from 5 9 busy).1 ≡ 2
unfolding subscribe_pattern subscribe_channel publish_message add_channel add_pattern set_client
    contains enter assign send_channel send_patterns
busy_publish = refl

unsubscribe_all_channels-LeavesAll_example : LeavesAll 1 true busy
unsubscribe_all_channels-LeavesAll_example =
    unsubscribe_all_channels-LeavesAll 1 true busy busy-Agrees
