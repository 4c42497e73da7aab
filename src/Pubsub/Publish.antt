-- ===== src/Pubsub/Publish.antt =====
-- PUBLISH: who gets a message, and how often.
use my_node_redis.Prelude.{
  ℕ, ◌+◌, ◌≡◌, ◌==◌, ◌&&◌, Bool, Bool-cases, false, inl, inr, if◌then◌else◌, List, [], ◌∷◌, ◌++◌,
  length, refl, arith, ap, ◌∙◌,
}
use my_node_redis.Prelude.Equality.{
  Eq, contains, count, contains-count, equal_refl, ◌=?◌, number, number-append, number-same_counts,
  number_eq,
}
use my_node_redis.Registry.{listed}
use my_node_redis.Pubsub.{Pattern, pattern_eq, Server, Reply, message, pmessage, publish_message}
use my_node_redis.Pubsub.News.{channel_news, pattern_news, publish_message-news}
use my_node_redis.Pubsub.Agreement.{own_channels, own_patterns, Agrees}

-- is the message for this client?
abbrev pub for : {K : Type 0} → ℕ → ℕ × Reply K → Bool
for d x = d == x.0

module _ {K : Type 0} ⦃e : Eq K⦄ where
  number-channel_news :
      (ch m : K) (d : ℕ) (l : List ℕ) → number (for d) (channel_news ch m l) ≡ count d l
  unfolding number count channel_news
  number-channel_news ch m d [] = refl
  number-channel_news ch m d (c ∷ l) =
      ap (λ n. (if d == c then 1 else 0) + n) (number-channel_news ch m d l)

  -- the patterns of one client
  patterns_of : ℕ → List (Pattern K) → List K
  patterns_of d [] = []
  patterns_of d (p ∷ l) = if d == p.client then p.pattern ∷ patterns_of d l else patterns_of d l

  count-patterns_of :
      (d : ℕ) (v : K) (l : List (Pattern K))
      → count v (patterns_of d l) ≡ count (record { client = d; pattern = v }) l
  unfolding count patterns_of
  count-patterns_of d v [] = refl
  count-patterns_of d v (p ∷ l) = ground (arith, count-patterns_of d v l)

  number-pattern_news :
      (matches : K → K → Bool) (ch m : K) (d : ℕ) (l : List (Pattern K))
      → number (for d) (pattern_news matches ch m l) ≡ number (λ p. matches p ch) (patterns_of d l)
  unfolding number pattern_news patterns_of
  number-pattern_news matches ch m d [] = refl
  number-pattern_news matches ch m d (p ∷ l) = ground (arith, number-pattern_news matches ch m d l)

  -- the replies of a channel, and of a pattern, to one client
  abbrev pub is_message : K → K → ℕ → ℕ × Reply K → Bool
  is_message ch m d (c, message a b) = d == c && (a =? ch && b =? m)
  is_message ch m d (c, _) = false

  abbrev pub is_pmessage : K → K → ℕ → K → ℕ × Reply K → Bool
  is_pmessage ch m d p (c, pmessage q a b) = (d == c && p =? q) && (a =? ch && b =? m)
  is_pmessage ch m d p (c, _) = false

  -- Only what is sent changes: `news`, of which the answer is the number.
  pub record Publishes (matches : K → K → Bool) (ch m : K) (s : Server K) : Type 0 where
    pub news : List (ℕ × Reply K)
    pub after :
        publish_message matches ch m s ≡ (record s { output = s.output ++ news }, length news)
    pub messages :
        (d : ℕ)
        → number (is_message ch m d) news ≡ (if contains ch (own_channels s d) then 1 else 0)
    pub pmessages :
        (d : ℕ) (p : K)
        → number (is_pmessage ch m d p) news
          ≡ (if matches p ch && contains p (own_patterns s d) then 1 else 0)
    pub all :
        (d : ℕ)
        → number (for d) news
          ≡ (if contains ch (own_channels s d) then 1 else 0)
            + number (λ p. matches p ch) (own_patterns s d)

  module _ (matches : K → K → Bool) (ch m : K) (d : ℕ) where
    message-channel_news :
        (l : List ℕ) → number (is_message ch m d) (channel_news ch m l) ≡ count d l
    unfolding number count channel_news
    message-channel_news [] = refl
    message-channel_news (c ∷ l) =
        rw (equal_refl ch, equal_refl m) (ground (arith, message-channel_news l))

    message-pattern_news :
        (l : List (Pattern K)) → number (is_message ch m d) (pattern_news matches ch m l) ≡ 0
    unfolding number pattern_news
    message-pattern_news [] = refl
    message-pattern_news (p ∷ l) = elim (Bool-cases (matches p.pattern ch)) [
      | inl matching ↦ rw matching (omega (arith, message-pattern_news l))
      | inr other ↦ rw other (message-pattern_news l)
    ]

    pmessage-channel_news :
        (p : K) (l : List ℕ) → number (is_pmessage ch m d p) (channel_news ch m l) ≡ 0
    unfolding number channel_news
    pmessage-channel_news p [] = refl
    pmessage-channel_news p (c ∷ l) = omega (arith, pmessage-channel_news p l)

    pmessage-pattern_news :
        (p : K) (l : List (Pattern K))
        → number (is_pmessage ch m d p) (pattern_news matches ch m l)
          ≡ (if matches p ch then count (record { client = d; pattern = p }) l else 0)
    unfolding number count pattern_news
    pmessage-pattern_news p [] = ground arith
    pmessage-pattern_news p (q ∷ l) =
        let rest = pmessage-pattern_news p l in
        elim (Bool-cases (p =? q.pattern)) [
          | inl same ↦
              let at_p : matches p ch ≡ matches q.pattern ch =
                ap (λ w. matches w ch) ((e.equal_iff p q.pattern).0 same) in
              elim (Bool-cases (matches q.pattern ch)) [
                | inl matching ↦
                    rw (matching, at_p, same, equal_refl ch, equal_refl m)
                      (ground (arith, rest, at_p, matching))
                | inr other ↦ rw (other, at_p) (ground (arith, rest, at_p, other))
              ]
          | inr different ↦ elim (Bool-cases (matches q.pattern ch)) [
            | inl matching ↦ rw (matching, different) (ground (arith, rest))
            | inr other ↦ rw (other, different) (ground (arith, rest))
          ]
        ]

  -- Where the subscriptions of the server and of the clients agree, `pubsubPublishMessage` changes
  -- nothing but what is sent: every client gets the channel and the message once if it is on the
  -- channel, and the pattern, the channel and the message once for each of its patterns that
  -- matches, and nothing else. The answer is the number of messages sent.
  pub publish_message_lem :
      (matches : K → K → Bool) (ch m : K) (s : Server K) → Agrees s → Publishes matches ch m s
  publish_message_lem matches ch m s a =
      let heard : List (ℕ × Reply K) = channel_news ch m (listed s.channels ch) in
      let matched : List (ℕ × Reply K) = pattern_news matches ch m s.patterns in
      let on_channel : (d : ℕ)
          → count d (listed s.channels ch) ≡ (if contains ch (own_channels s d) then 1 else 0) =
        λ d.
          ground (arith, (a.0).agree d ch, (a.0).once d ch, contains-count ch (own_channels s d)) in
      record {
        news = heard ++ matched;
        after = publish_message-news matches ch m s;
        messages = λ d.
            number-append (is_message ch m d) heard matched
            ∙ omega (
              arith,
              on_channel d,
              message-channel_news matches ch m d (listed s.channels ch),
              message-pattern_news matches ch m d s.patterns,
            );
        pmessages = λ d p.
            number-append (is_pmessage ch m d p) heard matched
            ∙ ground (
              arith,
              (a.1).agree d p,
              (a.1).once d p,
              contains-count p (own_patterns s d),
              pmessage-channel_news matches ch m d p (listed s.channels ch),
              pmessage-pattern_news matches ch m d p s.patterns,
            );
        all = λ d.
            number-append (for d) heard matched
            ∙ omega (
              arith,
              on_channel d,
              number-same_counts (λ p. matches p ch) (patterns_of d s.patterns) (own_patterns s d)
                  (λ v. count-patterns_of d v s.patterns ∙ (a.1).agree d v),
              number-channel_news ch m d (listed s.channels ch),
              number-pattern_news matches ch m d s.patterns,
            );
      }
