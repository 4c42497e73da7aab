-- ===== src/Pubsub/Agreement.antt =====
-- The subscriptions that the server knows of and those that the clients know of agree, and every
-- operation keeps them so and does not fail.
use my_node_redis.Prelude.{
  ℕ, ◌≤◌, ◌≡◌, ◌==◌, ==_iff, Bool, Bool-cases, true, false, if◌then◌else◌, some, List, [], ◌∷◌,
  ◌++◌, inl, inr, refl, arith, ap, sym, ◌∙◌,
}
use my_node_redis.Prelude.Equality.{
  Eq, contains, erase, count, contains-count, count-append, count-erase, equal_refl, equal_sym,
  number_eq,
}
use my_node_redis.Registry.{enter}
use my_node_redis.Registry.Agreement.{
  Agreement, Agreement-own, update, append-Once, erase-Once, enter-Agreement, leave-GivesUp,
}
use my_node_redis.Pubsub.{
  Pattern, pattern_eq, Client, Server, unsubscribed, punsubscribed, subscriptions, set_client,
  send_if, add_channel, drop_channel, add_pattern, drop_pattern, subscribe_channel,
  unsubscribe_channel, subscribe_pattern, unsubscribe_pattern,
}

abbrev pub own_channels : {K : Type 0} → Server K → ℕ → List K
own_channels s c = (s.clients c).channels

abbrev pub own_patterns : {K : Type 0} → Server K → ℕ → List K
own_patterns s c = (s.clients c).patterns

module _ {K : Type 0} ⦃e : Eq K⦄ where
  -- The list of patterns of the server has each pattern of each client, and once.
  pub record PatternAgreement (l : List (Pattern K)) (own : ℕ → List K) : Type 0 where
    pub agree : (c : ℕ) (p : K) → count (record { client = c; pattern = p }) l ≡ count p (own c)
    pub once : (c : ℕ) (p : K) → count p (own c) ≤ 1

  abbrev pub Agrees : Server K → Type 0
  Agrees s = Agreement s.channels (own_channels s) × PatternAgreement s.patterns (own_patterns s)

  pub PatternAgreement-own :
      (l : List (Pattern K)) (own own' : ℕ → List K)
      → ((c : ℕ) → own' c ≡ own c)
      → PatternAgreement l own
      → PatternAgreement l own'
  PatternAgreement-own l own own' same a = record {
    agree = λ c p. rw (same c) (a.agree c p);
    once = λ c p. rw (same c) (a.once c p);
  }

  module _ (l : List (Pattern K)) (own : ℕ → List K) (a : PatternAgreement l own) (c : ℕ)
      (p : K) where
    abbrev here : Pattern K
    here = record { client = c; pattern = p }

    append-PatternAgreement :
        contains p (own c) ≡ false
        → PatternAgreement (l ++ here ∷ []) (update own c (own c ++ p ∷ []))
    unfolding count
    append-PatternAgreement new = record {
      agree = λ d q.
          rw (count-append (record { client = d; pattern = q }) l (here ∷ []), a.agree d q)
            (elim (Bool-cases (c == d)) [
              | inl same ↦
                  rw (same, ← (==_iff c d).0 same, equal_refl c, count-append q (own c) (p ∷ []))
                    (omega arith)
              | inr other ↦ rw (other, equal_sym d c, other) (omega arith)
            ]);
      once = λ d q. append-Once own c p a.once new d q;
    }

    contains-here : contains p (own c) ≡ true → contains here l ≡ true
    contains-here has =
        contains-count here l ∙ ground (arith, has, contains-count p (own c), a.agree c p)

    erase-PatternAgreement : PatternAgreement (erase here l) (update own c (erase p (own c)))
    erase-PatternAgreement = record {
      agree = λ d q.
          rw (count-erase here (record { client = d; pattern = q }) l, a.agree d q)
            (elim (Bool-cases (c == d)) [
              | inl same ↦ rw (same, ← (==_iff c d).0 same, count-erase p q (own c)) (ground arith)
              | inr other ↦ rw other (omega arith)
            ]);
      once = λ d q. erase-Once own c p a.once d q;
    }

  pub subscribe_channel-Agrees :
      (c : ℕ) (ch : K) (s : Server K) → Agrees s → Agrees ((subscribe_channel c ch s).0)
  unfolding subscribe_channel add_channel set_client
  subscribe_channel-Agrees c ch s a = elim (Bool-cases (contains ch (own_channels s c))) [
    | inl old ↦ rw old a
    | inr new ↦ rw new (
      Agreement-own (enter s.channels ch c)
          (update (own_channels s) c (own_channels s c ++ ch ∷ [])) _ (λ d. ground arith)
          (enter-Agreement s.channels (own_channels s) (a.0) c ch new),
      PatternAgreement-own s.patterns (own_patterns s) _
          (λ d. ground (arith, ap {B = List K} (own_patterns s), (==_iff c d).0)) (a.1),
    )
  ]

  pub subscribe_pattern-Agrees :
      (c : ℕ) (p : K) (s : Server K) → Agrees s → Agrees ((subscribe_pattern c p s).0)
  unfolding subscribe_pattern add_pattern set_client
  subscribe_pattern-Agrees c p s a = elim (Bool-cases (contains p (own_patterns s c))) [
    | inl old ↦ rw old a
    | inr new ↦ rw new (
      Agreement-own s.channels (own_channels s) _
          (λ d. ground (arith, ap {B = List K} (own_channels s), (==_iff c d).0)) (a.0),
      PatternAgreement-own _ (update (own_patterns s) c (own_patterns s c ++ p ∷ [])) _
          (λ d. ground arith) (append-PatternAgreement s.patterns (own_patterns s) (a.1) c p new),
    )
  ]

  -- A client is off a channel, and nothing else changes but what is sent.
  pub record Unsubscribes (c : ℕ) (ch : K) (notify : Bool) (s : Server K) : Type 0 where
    pub after : Server K
    pub done :
        unsubscribe_channel c ch notify s
        ≡ some (after, if contains ch (own_channels s c) then 1 else 0)
    pub agrees : Agrees after
    pub channels :
        (d : ℕ) → own_channels after d ≡ update (own_channels s) c (erase ch (own_channels s c)) d
    pub patterns : (d : ℕ) → own_patterns after d ≡ own_patterns s d
    pub listing : after.patterns ≡ s.patterns

  erase-absent : (a : K) (l : List K) → contains a l ≡ false → erase a l ≡ l
  unfolding contains erase
  erase-absent a [] h = refl
  erase-absent a (x ∷ l) h = ground (arith, erase-absent a l)

  update-same :
      (own : ℕ → List K) (c : ℕ) (a : K)
      → contains a (own c) ≡ false
      → (d : ℕ) → own d ≡ update own c (erase a (own c)) d
  update-same own c a h d = elim (Bool-cases (c == d)) [
    | inl same ↦ rw (same, erase-absent a (own c) h) (ap own (sym ((==_iff c d).0 same)))
    | inr other ↦ rw other refl
  ]

  pub unsubscribe_channel-Unsubscribes :
      (c : ℕ) (ch : K) (notify : Bool) (s : Server K) → Agrees s → Unsubscribes c ch notify s
  unfolding unsubscribe_channel drop_channel set_client
  unsubscribe_channel-Unsubscribes c ch notify s a =
      elim (Bool-cases (contains ch (own_channels s c))) [
        | inl has ↦
            let g = leave-GivesUp s.channels (own_channels s) (a.0) c ch has in
            let x : Client K = record (s.clients c) { channels = erase ch (own_channels s c) } in
            let t : Server K = set_client (record s { channels = g.after }) c x in
            record {
              after = send_if notify c (unsubscribed (some ch) (subscriptions c t)) t;
              done = rw (has, g.done) refl;
              agrees = (
                Agreement-own g.after (update (own_channels s) c x.channels) _ (λ d. ground arith)
                    g.agreement,
                PatternAgreement-own s.patterns (own_patterns s) _
                    (λ d. ground (arith, ap {B = List K} (own_patterns s), (==_iff c d).0)) (a.1),
              );
              channels = λ d. ground arith;
              patterns = λ d. ground (arith, ap {B = List K} (own_patterns s), (==_iff c d).0);
              listing = refl;
            }
        | inr lacks ↦ record {
          after = send_if notify c (unsubscribed (some ch) (subscriptions c s)) s;
          done = rw lacks refl;
          agrees = a;
          channels = update-same (own_channels s) c ch lacks;
          patterns = λ d. refl;
          listing = refl;
        }
      ]

  -- A client is off a pattern, and nothing else changes but what is sent.
  pub record UnsubscribesPattern (c : ℕ) (p : K) (notify : Bool) (s : Server K) : Type 0 where
    pub after : Server K
    pub done :
        unsubscribe_pattern c p notify s
        ≡ some (after, if contains p (own_patterns s c) then 1 else 0)
    pub agrees : Agrees after
    pub patterns :
        (d : ℕ) → own_patterns after d ≡ update (own_patterns s) c (erase p (own_patterns s c)) d
    pub channels : (d : ℕ) → own_channels after d ≡ own_channels s d
    pub listing : after.channels ≡ s.channels

  pub unsubscribe_pattern-UnsubscribesPattern :
      (c : ℕ) (p : K) (notify : Bool) (s : Server K) → Agrees s → UnsubscribesPattern c p notify s
  unfolding unsubscribe_pattern drop_pattern set_client
  unsubscribe_pattern-UnsubscribesPattern c p notify s a =
      elim (Bool-cases (contains p (own_patterns s c))) [
        | inl has ↦
            let q : Pattern K = record { client = c; pattern = p } in
            let listed = contains-here s.patterns (own_patterns s) (a.1) c p has in
            let x : Client K = record (s.clients c) { patterns = erase p (own_patterns s c) } in
            let t : Server K = set_client (record s { patterns = erase q s.patterns }) c x in
            record {
              after = send_if notify c (punsubscribed (some p) (subscriptions c t)) t;
              done = rw (has, listed) refl;
              agrees = (
                Agreement-own s.channels (own_channels s) _
                    (λ d. ground (arith, ap {B = List K} (own_channels s), (==_iff c d).0)) (a.0),
                PatternAgreement-own (erase q s.patterns) (update (own_patterns s) c x.patterns) _
                    (λ d. ground arith)
                    (erase-PatternAgreement s.patterns (own_patterns s) (a.1) c p),
              );
              patterns = λ d. ground arith;
              channels = λ d. ground (arith, ap {B = List K} (own_channels s), (==_iff c d).0);
              listing = refl;
            }
        | inr lacks ↦ record {
          after = send_if notify c (punsubscribed (some p) (subscriptions c s)) s;
          done = rw lacks refl;
          agrees = a;
          patterns = update-same (own_patterns s) c p lacks;
          channels = λ d. refl;
          listing = refl;
        }
      ]
