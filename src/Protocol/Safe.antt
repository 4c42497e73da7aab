-- ===== src/Protocol/Safe.antt =====
-- No bytes from the network make the parser fail an assertion or go round without end.
use my_node_redis.Prelude.{
  ℕ, zero, suc, ◌+◌, ◌*◌, ◌<◌, ◌≡◌, ◌≢◌, inl, inr, ◌==◌, ◌||◌, ltb, Bool, Bool-cases, true, false,
  Option, none, some, [], ◌∷◌, ◌++◌, length, length-drop, refl, ap, arith,
}
use my_node_redis.Numbers.{Text}
use my_node_redis.Protocol.{
  Client, RequestType, inline, multibulk, Parsed, done, wait, crash, head_or, find_crlf,
  reset_client, protocol_error, process_inline_buffer, split_line, determine, parse_by,
}
use my_node_redis.Protocol.Advances.{Stands, IsParser, Advances, process_multibulk_buffer-Advances}
use my_node_redis.Protocol.Input.{
  Outcome, ended, freed, crashed, out_of_fuel, Received, bytes, try_again, read_error, closed,
  after_command, run_command, go_on, process_input_buffer, append_input, read_query_from_client,
}

head-append : (q s : Text) → head_or q 0 ≡ b'*' → head_or (q ++ s) 0 ≡ b'*'
head-append [] s h = absurd (omega arith)
head-append (b ∷ q) s h = h

module _ {S : Type 0} where
  split_line-Advances :
      (o : Option ℕ) (c : Client S)
      → c.reqtype ≡ some inline
      → Stands c (some inline)
      → 0 < length c.querybuf
      → Advances (length c.querybuf) (split_line o c)
  unfolding split_line protocol_error
  split_line-Advances (some n) c r s h = omega (arith, length-drop (n + 2) c.querybuf)
  split_line-Advances none c r s h = elim (Bool-cases (ltb (1024 * 64) (length c.querybuf))) [
    | inl large ↦ rw large (inl refl)
    | inr small ↦ rw small (inr (rw r s))
  ]

  parse_by-Advances :
      (o : Option RequestType) (c : Client S)
      → c.reqtype ≡ o
      → o ≢ none
      → Stands c o
      → 0 < length c.querybuf
      → Advances (length c.querybuf) (parse_by o c)
  unfolding parse_by process_inline_buffer
  parse_by-Advances none c r n s h = absurd (n refl)
  parse_by-Advances (some inline) c r n s h = split_line-Advances (find_crlf c.querybuf) c r s h
  parse_by-Advances (some multibulk) c r n s h = process_multibulk_buffer-Advances c r s

  -- A client whose type of request is known
  record Typed (c d : Client S) : Type 0 where
    known : d.reqtype ≢ none
    stands : Stands d d.reqtype
    same : d.querybuf ≡ c.querybuf

  determine-Typed :
      (o : Option RequestType) (c : Client S) → c.reqtype ≡ o → Stands c o → Typed c (determine o c)
  unfolding determine
  determine-Typed (some t) c r s = record { known = λ e. cc; stands = rw r s; same = refl }
  determine-Typed none c r s = elim (Bool-cases (head_or c.querybuf 0 == b'*')) [
    | inl star ↦
        rw star (record { known = λ e. cc; stands = inr (s.0, s.1, ground arith); same = refl })
    | inr other ↦ rw other (record { known = λ e. cc; stands = s; same = refl })
  ]

  -- What is asked of `processCommand`: it leaves the query buffer alone, and answers REDIS_ERR only
  -- for a client that is to be closed.
  pub record Lawful (process_command : Client S → Bool × Client S) : Type 0 where
    pub leaves_buffer : (c : Client S) → (process_command c).1.querybuf ≡ c.querybuf
    pub err_closes :
        (c : Client S)
        → (process_command c).0 ≡ false
        → (process_command c).1.close_after_reply ≡ true

  -- A call from the event loop ends with the client freed or waiting.
  abbrev pub IsServed : Outcome S → Type 0
  IsServed (ended c) = IsParser c
  IsServed freed = Unit {0}
  IsServed crashed = ⊥
  IsServed out_of_fuel = ⊥

  still_open :
      (c : Client S)
      → (length c.querybuf == 0 || c.blocked || c.close_after_reply) ≡ false
      → IsParser c
      → Stands c c.reqtype
  still_open c h (inl shut) = absurd (ground (arith, shut, h))
  still_open c h (inr s) = s

  filled-Stands :
      (o : Option RequestType) (chunk : Text) (c : Client S)
      → Stands c o
      → Stands (record c { querybuf = c.querybuf ++ chunk }) o
  filled-Stands none chunk c s = s
  filled-Stands (some inline) chunk c s = s
  filled-Stands (some multibulk) chunk c (inl p) = inl p
  filled-Stands (some multibulk) chunk c (inr (k, a, h)) =
      inr (k, a, head-append c.querybuf chunk h)

  filled-IsParser :
      (chunk : Text) (c : Client S)
      → IsParser c
      → IsParser (record c { querybuf = c.querybuf ++ chunk })
  filled-IsParser chunk c (inl shut) = inl shut
  filled-IsParser chunk c (inr s) = inr (filled-Stands c.reqtype chunk c s)

  module _ (process_command : Client S → Bool × Client S) (l : Lawful process_command) where
    answer-IsParser :
        (q : Text) (r : Bool × Client S)
        → r.1.querybuf ≡ q
        → (r.0 ≡ false → r.1.close_after_reply ≡ true)
        → IsParser (after_command process_command r)
          × ((after_command process_command r).querybuf ≡ q)
    unfolding reset_client
    answer-IsParser q (true, d) k e = (inr (refl, refl), k)
    answer-IsParser q (false, d) k e = (inl (e refl), k)

    run_command-IsParser :
        (c : Client S)
        → IsParser (run_command process_command c)
          × ((run_command process_command c).querybuf ≡ c.querybuf)
    unfolding run_command reset_client
    run_command-IsParser c = elim (Bool-cases (length c.argv == 0)) [
      | inl nothing ↦ rw nothing (inr (refl, refl), refl)
      | inr command ↦
          rw command
            (answer-IsParser c.querybuf (process_command c) (l.leaves_buffer c) (l.err_closes c))
    ]

    go_on-IsServed :
        (n : ℕ) (k : Client S → Outcome S) (p : Parsed S)
        → ((c : Client S) → length c.querybuf < n → IsServed (k c))
        → Advances n p
        → IsServed (go_on k p)
    go_on-IsServed n k (done c) h a = h c a
    go_on-IsServed n k (wait c) h a = a
    go_on-IsServed n k crash h a = a

    process_input_buffer-IsServed :
        (f : ℕ) (c : Client S)
        → length c.querybuf < f
        → IsParser c
        → IsServed (process_input_buffer process_command f c)
    unfolding process_input_buffer
    process_input_buffer-IsServed zero c h p = absurd (omega arith)
    process_input_buffer-IsServed (suc f) c h p =
        elim (Bool-cases (length c.querybuf == 0 || c.blocked || c.close_after_reply)) [
          | inl stop ↦ rw stop p
          | inr more ↦ rw more (
              let t = determine-Typed c.reqtype c refl (still_open c more p) in
              let d = determine c.reqtype c in
              go_on-IsServed (length c.querybuf)
                (λ after.
                  process_input_buffer process_command f (run_command process_command after))
                (parse_by d.reqtype d)
                (λ after shorter.
                  let k = run_command-IsParser after in
                  process_input_buffer-IsServed f (run_command process_command after)
                    (rw (k.1) (omega arith)) (k.0))
                (rw (ap length t.same) at
                  (parse_by-Advances d.reqtype d refl t.known t.stands (rw t.same (ground arith)))))
        ]

    append_input-IsServed :
        (max : ℕ) (chunk : Text) (c : Client S)
        → IsParser c
        → IsServed (append_input process_command max chunk c)
    unfolding append_input
    append_input-IsServed max chunk c p = elim (Bool-cases (length chunk == 0)) [
      | inl nothing ↦ rw nothing p
      | inr more ↦ rw more (elim (Bool-cases (ltb max (length (c.querybuf ++ chunk)))) [
        | inl large ↦ rw large tt
        | inr small ↦ rw small (
            process_input_buffer-IsServed (suc (length (c.querybuf ++ chunk)))
              (record c { querybuf = c.querybuf ++ chunk }) (omega arith)
              (filled-IsParser chunk c p))
      ])
    ]

    -- Where `processCommand` leaves the query buffer alone and answers REDIS_ERR only for a client
    -- that is to be closed, `readQueryFromClient` fails no assertion and ends, whatever is read;
    -- unless it frees the client, it leaves the parser in a state from which this holds again.
    pub read_query_from_client-IsServed :
        (max : ℕ) (r : Received) (c : Client S)
        → IsParser c
        → IsServed (read_query_from_client process_command max r c)
    unfolding read_query_from_client
    read_query_from_client-IsServed max (bytes []) c p = tt
    read_query_from_client-IsServed max (bytes (b ∷ r)) c p = append_input-IsServed max (b ∷ r) c p
    read_query_from_client-IsServed max try_again c p = p
    read_query_from_client-IsServed max read_error c p = tt
    read_query_from_client-IsServed max closed c p = tt
