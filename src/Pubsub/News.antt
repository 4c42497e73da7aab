-- ===== src/Pubsub/News.antt =====
-- What the loops of `pubsubPublishMessage` send.
use my_node_redis.Prelude.{
  ℕ, ◌+◌, ◌≡◌, Bool, if◌then◌else◌, List, [], ◌∷◌, ◌++◌, length, refl, arith, sym, ◌∙◌,
  append_assoc, append-nil, length-append,
}
use my_node_redis.Prelude.Equality.{number_eq}
use my_node_redis.Registry.{listed}
use my_node_redis.Pubsub.{
  Pattern, pattern_eq, Server, Reply, message, pmessage, send, send_if, send_channel, send_patterns,
  publish_message,
}

module _ {K : Type 0} where
  sent_path :
      (s : Server K) {l l' : List (ℕ × Reply K)} {n n' : ℕ}
      → l ≡ l'
      → n ≡ n'
      → ◌≡◌ {A = Server K × ℕ} (record s { output = l }, n) (record s { output = l' }, n')
  sent_path s p q = λ i. (record s { output = p i }, q i)

module _ {K : Type 0} (ch m : K) where
  -- the messages to the clients of a channel
  unfoldable pub channel_news : List ℕ → List (ℕ × Reply K)
  channel_news [] = []
  channel_news (c ∷ l) = (c, message ch m) ∷ channel_news l

  length-channel_news : (l : List ℕ) → length (channel_news l) ≡ length l
  unfolding channel_news
  length-channel_news [] = refl
  length-channel_news (c ∷ l) = omega (arith, length-channel_news l)

  send_channel-news :
      (l : List ℕ) (s : Server K) (n : ℕ)
      → send_channel ch m l s n ≡ (record s { output = s.output ++ channel_news l }, n + length l)
  unfolding send_channel channel_news
  send_channel-news [] s n = sent_path s (sym (append-nil s.output)) (omega arith)
  send_channel-news (c ∷ l) s n =
      send_channel-news l (send c (message ch m) s) (n + 1)
      ∙ sent_path s (append_assoc s.output ((c, message ch m) ∷ []) (channel_news l)) (omega arith)

module _ {K : Type 0} (matches : K → K → Bool) (ch m : K) where
  -- the messages for the patterns that match
  unfoldable pub pattern_news : List (Pattern K) → List (ℕ × Reply K)
  pattern_news [] = []
  pattern_news (p ∷ l) =
      (if matches p.pattern ch then (p.client, pmessage p.pattern ch m) ∷ [] else [])
      ++ pattern_news l

  send_patterns-news :
      (l : List (Pattern K)) (s : Server K) (n : ℕ)
      → send_patterns matches ch m l s n
        ≡ (record s { output = s.output ++ pattern_news l }, n + length (pattern_news l))
  unfolding send_patterns pattern_news
  send_patterns-news [] s n = sent_path s (sym (append-nil s.output)) (omega arith)
  send_patterns-news (p ∷ l) s n =
      send_patterns-news l (send_if (matches p.pattern ch) p.client (pmessage p.pattern ch m) s)
        (if matches p.pattern ch then n + 1 else n)
      ∙ sent_path s
          (append_assoc s.output
            (if matches p.pattern ch then (p.client, pmessage p.pattern ch m) ∷ [] else [])
            (pattern_news l))
          (ground (
            arith,
            length-append
                (if matches p.pattern ch then (p.client, pmessage p.pattern ch m) ∷ [] else [])
                (pattern_news l),
          ))

  pub publish_message-news :
      (s : Server K)
      → publish_message matches ch m s ≡ (
        record s {
          output =
              s.output ++ (channel_news ch m (listed s.channels ch) ++ pattern_news s.patterns);
        },
        length (channel_news ch m (listed s.channels ch) ++ pattern_news s.patterns),
      )
  unfolding publish_message
  publish_message-news s =
      rw (send_channel-news ch m (listed s.channels ch) s 0, send_patterns-news s.patterns)
        (sent_path s
          (append_assoc s.output (channel_news ch m (listed s.channels ch))
            (pattern_news s.patterns))
          (omega (
            arith,
            length-channel_news ch m (listed s.channels ch),
            length-append (channel_news ch m (listed s.channels ch)) (pattern_news s.patterns),
          )))
