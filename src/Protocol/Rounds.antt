-- ===== src/Protocol/Rounds.antt =====
-- A round of `processInputBuffer` on a buffer that holds a part of a stream of requests.
use my_node_redis.Prelude.{
  ℕ, ◌≤◌, ◌<◌, ◌≡◌, ◌⊎◌, inl, inr, ◌==◌, Bool, true, false, Option, none, some, List, [], ◌∷◌, ◌++◌,
  length, length-append, refl, ap, sym, arith, ◌∙◌,
}
use my_node_redis.Numbers.{Text}
use my_node_redis.Protocol.{
  Client, multibulk, inline, Parsed, done, wait, crash, RequestType, head_or, reset_client,
  determine, process_multibulk_buffer,
}
use my_node_redis.Protocol.Input.{Outcome, ended, run_command, go_on}
use my_node_redis.Protocol.Encode.{crlf, length_line, bulks, request}
use my_node_redis.Protocol.Advances.{Stands, Advances}
use my_node_redis.Protocol.Stream.{Rest, body}
use my_node_redis.Protocol.Requests.{
  wire, run_all, Starting, Midway, Settled, HasRequest, Parses, Starting-Parses, Midway-Parses,
}

module _ {S : Type 0} (process_command : Client S → Bool × Client S) (execute : List Text → S → S)
    (runs : (c : Client S)
      → process_command c ≡ (true, record c { server = execute c.argv c.server }))
    (goal : S) where
  -- a client with what was read, before it is parsed
  abbrev pub Loaded : Text → Client S → Type 0
  Loaded later c =
      (Starting execute goal later c × (length c.querybuf ≤ 65536)) ⊎ Midway execute goal later c

  pub run_command-Starting :
      (later : Text) (c : Client S)
      → HasRequest execute goal later c
      → Starting execute goal later (run_command process_command c)
  unfolding run_command reset_client
  run_command-Starting later c h =
      let k = h.complete in
      let some_args : (length c.argv == 0) ≡ false =
        ground (arith, ap length k.collected, h.some_args) in
      rw (some_args, runs c)
        (record {
          commands = h.commands;
          valid = h.valid;
          free = ((k.free).0, (k.free).1);
          kind = inl refl;
          no_count = refl;
          no_length = refl;
          no_args = refl;
          stream = k.stream;
          leads =
              (λ i. run_all execute h.commands (execute (k.collected i) (k.free.2 i))) ∙ h.leads;
        })

  pub run_command-querybuf :
      (c : Client S) → 0 < length c.argv → (run_command process_command c).querybuf ≡ c.querybuf
  unfolding run_command reset_client
  run_command-querybuf c h =
      let some_args : (length c.argv == 0) ≡ false = ground (arith, h) in
      rw (some_args, runs c) refl

  -- An empty buffer leaves nothing to do but to wait.
  pub rest_of_stream :
      (later : Text) (commands : List (List Text))
      → later ≡ wire commands
      → (0 < length later) ⊎ (commands ≡ [])
  unfolding wire request length_line
  rest_of_stream later [] e = inr refl
  rest_of_stream later (c ∷ l) e = inl (rw e (omega arith))

  body_nonempty :
      (o : Option ℕ) (args : List Text) (rest : Text)
      → 0 < length args
      → 0 < length (body o args rest)
  unfolding bulks length_line
  body_nonempty o [] rest h = absurd (omega arith)
  body_nonempty none (a ∷ l) rest h = omega arith
  body_nonempty (some len) (a ∷ l) rest h =
      omega (arith, length-append a (crlf ++ (bulks l ++ rest)))

  Rest-empty : (o : Option ℕ) → Rest o 0
  Rest-empty none = omega arith
  Rest-empty (some len) = inl (omega arith)

  pub empty-Settled :
      (later : Text) (c : Client S)
      → c.querybuf ≡ []
      → Loaded later c
      → Settled execute goal later c
  empty-Settled later c e (inl (st, h)) = inl (record {
    starting = st;
    held = rw e (omega arith);
    more = rest_of_stream later st.commands (ap (λ q. q ++ later) (sym e) ∙ st.stream);
  })
  empty-Settled later c e (inr m) =
      let stream : later ≡ body m.o m.args (wire m.commands) =
        ap (λ q. q ++ later) (sym e) ∙ m.reading.stream in
      inr (record {
        midway = m;
        held = rw e (Rest-empty m.o);
        more = rw stream (body_nonempty m.o m.args (wire m.commands) m.some_left);
      })

  -- A client whose type of request is known, and what parsing leads to
  pub record Ready (later : Text) (c d : Client S) : Type 0 where
    pub typed : d.reqtype ≡ some multibulk
    pub same : d.querybuf ≡ c.querybuf
    pub stands : Stands d (some multibulk)
    pub parses : Parses execute goal later (process_multibulk_buffer d)

  starts_with_star :
      (q later : Text) (commands : List (List Text))
      → q ++ later ≡ wire commands
      → 0 < length q
      → head_or q 0 ≡ b'*'
  unfolding wire request length_line
  starts_with_star [] later commands e h = absurd (omega arith)
  starts_with_star (b ∷ q) later [] e h = cc
  starts_with_star (b ∷ q) later (c ∷ l) e h = cc

  Starting-Ready :
      (later : Text) (c : Client S)
      → Starting execute goal later c
      → c.reqtype ≡ some multibulk
      → 0 < length c.querybuf
      → length c.querybuf ≤ 65536
      → Ready later c c
  Starting-Ready later c st k p h = record {
    typed = k;
    same = refl;
    stands = inr (
      st.no_count,
      ap length st.no_args,
      starts_with_star c.querybuf later st.commands st.stream p,
    );
    parses = Starting-Parses execute goal later c st.commands st refl k p h;
  }

  Midway-Ready : (later : Text) (c : Client S) → Midway execute goal later c → Ready later c c
  Midway-Ready later c m = record {
    typed = m.reading.kind;
    same = refl;
    stands = inl (omega (arith, m.reading.left, m.some_left));
    parses = Midway-Parses execute goal later c m;
  }

  pub determine-Ready :
      (later : Text) (c : Client S) (o : Option RequestType)
      → c.reqtype ≡ o
      → Loaded later c
      → 0 < length c.querybuf
      → Ready later c (determine o c)
  unfolding determine
  determine-Ready later c (some inline) e (inl (st, h)) p = elim st.kind [
    | inl unknown ↦ cc (e, unknown)
    | inr known ↦ cc (e, known.0)
  ]
  determine-Ready later c (some multibulk) e (inl (st, h)) p = Starting-Ready later c st e p h
  determine-Ready later c none e (inl (st, h)) p =
      let star : (head_or c.querybuf 0 == b'*') ≡ true =
        ground (arith, starts_with_star c.querybuf later st.commands st.stream p) in
      let typed = record c { reqtype = some multibulk } in
      let started : Starting execute goal later typed = record {
        commands = st.commands;
        valid = st.valid;
        free = st.free;
        kind = inr (refl, p);
        no_count = st.no_count;
        no_length = st.no_length;
        no_args = st.no_args;
        stream = st.stream;
        leads = st.leads;
      } in
      let r = Starting-Ready later typed started refl p h in
      rw star (record { typed = refl; same = refl; stands = r.stands; parses = r.parses })
  determine-Ready later c none e (inr m) p = cc (e, m.reading.kind)
  determine-Ready later c (some inline) e (inr m) p = cc (e, m.reading.kind)
  determine-Ready later c (some multibulk) e (inr m) p = Midway-Ready later c m

  -- The call ends, and the client has settled.
  abbrev pub EndsSettled : Text → Outcome S → Type 0
  EndsSettled later o = (c : Client S) × (o ≡ ended c) × Settled execute goal later c

  pub go_on-Settled :
      (later : Text) (n : ℕ) (k : Client S → Outcome S) (p : Parsed S)
      → Parses execute goal later p
      → Advances n p
      → ((c : Client S)
          → HasRequest execute goal later c
          → length c.querybuf < n
          → EndsSettled later (k c))
      → EndsSettled later (go_on k p)
  go_on-Settled later n k (done c) h a f = f c h a
  go_on-Settled later n k (wait c) h a f = (c, refl, h)
  go_on-Settled later n k crash h a f = absurd h
