-- ===== src/Protocol/Filling.antt =====
-- `readQueryFromClient` on a client that has a part of a stream of requests.
use mathlib.Core.Path.{subst}
use my_node_redis.Prelude.{
  ℕ, zero, suc, ◌+◌, ◌*◌, ◌≤◌, ◌<◌, ◌≡◌, ◌⊎◌, inl, inr, ◌==◌, ◌||◌, ◌&&◌, not, ltb, leb, Bool, true,
  false, Bool-cases, Option, none, some, List, [], ◌∷◌, ◌++◌, length, length-append, append_assoc,
  refl, ap, sym, arith, ◌∙◌,
}
use my_node_redis.Numbers.{Text}
use my_node_redis.Protocol.{Client, multibulk, determine, parse_by, process_multibulk_buffer}
use my_node_redis.Protocol.Input.{
  Outcome, bytes, run_command, go_on, process_input_buffer, append_input, read_query_from_client,
  read_len, read_len_for, is_multibulk,
}
use my_node_redis.Protocol.Buffers.{drop_all}
use my_node_redis.Protocol.Advances.{Advances, process_multibulk_buffer-Advances}
use my_node_redis.Protocol.Stream.{Room, Rest, Announces, AreSmall}
use my_node_redis.Protocol.Requests.{Midway, Rests, Hangs, Settled}
use my_node_redis.Protocol.Rounds.{
  Loaded, EndsSettled, run_command-Starting, run_command-querybuf, empty-Settled, determine-Ready,
  go_on-Settled,
}

module _ {S : Type 0} (process_command : Client S → Bool × Client S) (execute : List Text → S → S)
    (runs : (c : Client S)
      → process_command c ≡ (true, record c { server = execute c.argv c.server }))
    (goal : S) where
  abbrev IsLoaded : Text → Client S → Type 0
  IsLoaded later c = Loaded process_command execute runs goal later c

  abbrev pub Ends : Text → Outcome S → Type 0
  Ends later o = EndsSettled process_command execute runs goal later o

  -- A client with a part of the stream is neither blocked nor about to be closed.
  stays_open :
      (later : Text) (c : Client S) → IsLoaded later c → (c.blocked || c.close_after_reply) ≡ false
  stays_open later c (inl (st, h)) = ground (arith, st.free)
  stays_open later c (inr m) = ground (arith, m.reading.free)

  process_input_buffer-Settled :
      (f : ℕ) (later : Text) (c : Client S)
      → length c.querybuf < f
      → IsLoaded later c
      → Ends later (process_input_buffer process_command f c)
  unfolding process_input_buffer parse_by
  process_input_buffer-Settled zero later c h l = absurd (omega arith)
  process_input_buffer-Settled (suc f) later c h l = elim (Bool-cases (length c.querybuf == 0)) [
    | inl empty ↦ rw empty (
      c,
      refl,
      empty-Settled process_command execute runs goal later c
          (drop_all 0 c.querybuf (ground (arith, empty))) l,
    )
    | inr some_left ↦
        let d = determine c.reqtype c in
        let r =
          determine-Ready process_command execute runs goal later c c.reqtype refl l
            (ground (arith, some_left)) in
        let parsed = process_multibulk_buffer d in
        let advances : Advances (length c.querybuf) parsed =
          rw (ap length r.same) at (process_multibulk_buffer-Advances d r.typed r.stands) in
        let next : Client S → Outcome S =
          λ after. process_input_buffer process_command f (run_command process_command after) in
        let whole : Ends later (go_on next parsed) =
          go_on-Settled process_command execute runs goal later (length c.querybuf) next parsed
            r.parses advances
            (λ after request shorter.
              let args : 0 < length after.argv =
                omega (arith, ap length request.complete.collected, request.some_args) in
              let same = run_command-querybuf process_command execute runs goal after args in
              process_input_buffer-Settled f later (run_command process_command after)
                (rw same (omega arith))
                (inl (
                  run_command-Starting process_command execute runs goal later after request,
                  rw same (request.complete.room),
                ))) in
        rw (some_left, stays_open later c l)
          (subst (λ o. Ends later (go_on next (parse_by o d))) (sym r.typed) whole)
  ]

  -- What was read stands behind what the buffer had.
  Starting-filled :
      (chunk later : Text) (c : Client S)
      → Rests execute goal (chunk ++ later) c
      → 0 < length chunk
      → length chunk ≤ 1024 * 16
      → IsLoaded later (record c { querybuf = c.querybuf ++ chunk })
  Starting-filled chunk later c r p h =
      let st = r.starting in
      let size = length-append c.querybuf chunk in
      let kind : (c.reqtype ≡ none)
          ⊎ ((c.reqtype ≡ some multibulk) × (0 < length (c.querybuf ++ chunk))) =
        elim st.kind [ inl e ↦ inl e | inr e ↦ inr (e.0, omega (arith, size)) ] in
      inl (
        record {
          commands = st.commands;
          valid = st.valid;
          free = st.free;
          kind = kind;
          no_count = st.no_count;
          no_length = st.no_length;
          no_args = st.no_args;
          stream = append_assoc c.querybuf chunk later ∙ st.stream;
          leads = st.leads;
        },
        omega (arith, size, r.held),
      )

  Midway-filled :
      (chunk later : Text) (c : Client S) (h : Hangs execute goal (chunk ++ later) c)
      → Room h.midway.o 0 (length (c.querybuf ++ chunk))
      → IsLoaded later (record c { querybuf = c.querybuf ++ chunk })
  Midway-filled chunk later c h room =
      let m = h.midway in
      let r = m.reading in
      inr (record {
        all = m.all;
        commands = m.commands;
        s = m.s;
        o = m.o;
        args = m.args;
        reading = record {
          free = r.free;
          kind = r.kind;
          known = r.known;
          collected = r.collected;
          left = r.left;
          stream = append_assoc c.querybuf chunk later ∙ r.stream;
          announces = r.announces;
          small = r.small;
          room = room;
        };
        some_left = m.some_left;
        valid = m.valid;
        leads = m.leads;
      })

  -- `readQueryFromClient` asks for something, and for no more than there is room for.
  read_len_for_bounds :
      (o : Option ℕ) (n : ℕ) (c : Client S)
      → Rest o (length c.querybuf)
      → (is_multibulk c.reqtype && not (c.multibulklen == 0)) ≡ true
      → (0 < read_len_for o c) × (n ≤ read_len_for o c → Room o 0 (length c.querybuf + n))
  read_len_for_bounds none n c h k = (omega arith, λ le. omega (arith, h, le))
  read_len_for_bounds (some len) n c h k = elim (Bool-cases (leb (1024 * 32) len)) [
    | inl big ↦
        rw (k, big)
          (
            ground (arith, h, big),
            λ le. elim h [
              | inl some_room ↦ inl (omega (arith, le))
              | inr large ↦ inr (large.0, refl, omega (arith, le, large.1))
            ],
          )
    | inr fits ↦ rw (k, fits) (omega arith, λ le. inl (ground (arith, h, le, fits)))
  ]

  Midway-count :
      (later : Text) (c : Client S) (m : Midway execute goal later c)
      → (is_multibulk c.reqtype && not (c.multibulklen == 0)) ≡ true
  Midway-count later c m =
      let r = m.reading in
      let count : (c.multibulklen == 0) ≡ false = ground (arith, r.left, m.some_left) in
      rw (count, r.kind) refl

  Room-size :
      {n : ℕ} (o : Option ℕ) (args : List Text)
      → Announces o args
      → AreSmall args
      → Room o 0 n
      → n ≤ 512 * 1024 * 1024 + 2
  Room-size none args a h r = omega arith
  Room-size (some len) [] a h r = absurd a
  Room-size (some len) (x ∷ args) a h r = ground (arith, a, h, r)

  Settled-filled :
      (chunk later : Text) (c : Client S)
      → Settled execute goal (chunk ++ later) c
      → 0 < length chunk
      → length chunk ≤ read_len c
      → IsLoaded later (record c { querybuf = c.querybuf ++ chunk })
  unfolding read_len
  Settled-filled chunk later c (inl r) p h =
      Starting-filled chunk later c r p
        (subst (λ o. length chunk ≤ read_len_for o c) r.starting.no_length h)
  Settled-filled chunk later c (inr r) p h =
      let m = r.midway in
      let bounds =
        read_len_for_bounds m.o (length chunk) c r.held (Midway-count (chunk ++ later) c m) in
      Midway-filled chunk later c r (
        rw (length-append c.querybuf chunk)
          (bounds.1 (subst (λ o. length chunk ≤ read_len_for o c) m.reading.known h)))

  pub read_len_pos : (later : Text) (c : Client S) → Settled execute goal later c → 0 < read_len c
  unfolding read_len
  read_len_pos later c (inl r) =
      subst (λ o. 0 < read_len_for o c) (sym r.starting.no_length) (omega arith)
  read_len_pos later c (inr r) =
      let m = r.midway in
      subst (λ o. 0 < read_len_for o c) (sym m.reading.known)
        ((read_len_for_bounds m.o 0 c r.held (Midway-count later c m)).0)

  -- A buffer with a part of a valid stream is below the limit.
  loaded_size :
      (later : Text) (c : Client S) → IsLoaded later c → length c.querybuf ≤ 512 * 1024 * 1024 + 2
  loaded_size later c (inl (st, h)) = omega arith
  loaded_size later c (inr m) =
      Room-size m.o m.args (m.reading.announces) (m.reading.small) (m.reading.room)

  pub read_query-Settled :
      (max : ℕ) (chunk later : Text) (c : Client S)
      → 512 * 1024 * 1024 + 2 ≤ max
      → Settled execute goal (chunk ++ later) c
      → 0 < length chunk
      → length chunk ≤ read_len c
      → Ends later (read_query_from_client process_command max (bytes chunk) c)
  unfolding read_query_from_client append_input
  read_query-Settled max [] later c m t p h = absurd (omega arith)
  read_query-Settled max (b ∷ chunk) later c m t p h =
      let filled = record c { querybuf = c.querybuf ++ b ∷ chunk } in
      let loaded = Settled-filled (b ∷ chunk) later c t p h in
      let below : ltb max (length (c.querybuf ++ b ∷ chunk)) ≡ false =
        ground (arith, m, loaded_size later filled loaded) in
      let some_bytes : (suc (length chunk) == 0) ≡ false = ground arith in
      rw (some_bytes, below)
        (process_input_buffer-Settled (suc (length filled.querybuf)) later filled (omega arith)
          loaded)
