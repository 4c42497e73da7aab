-- ===== src/Protocol/Advances.antt =====
-- The parser of requests with `*` fails no assertion, and takes bytes from the buffer when it is done.
use my_node_redis.Prelude.{
  ℕ, zero, suc, ◌+◌, ◌-◌, ◌*◌, ◌≤◌, ◌<◌, ◌≡◌, ◌⊎◌, inl, inr, ◌==◌, ltb, Bool-cases, true, false,
  Option, none, some, length, length-drop, drop, refl, arith,
}
use my_node_redis.Prelude.Int.{ℤ, pos, pos_part, ltb_ℤ, leb_ℤ}
use my_node_redis.Protocol.{
  Client, RequestType, inline, multibulk, Parsed, done, wait, crash, Step, go, break, fail, head_or,
  find_char, protocol_error, set_bulklen, check_bulklen, read_length_line, read_bulklen,
  read_argument, read_bulk, find_bulklen, and_then, next_round, read_bulks, check_multibulklen,
  read_count_line, process_multibulk_buffer,
}

module _ {S : Type 0} where
  -- Where the parser of a client stands between two requests and in the midst of one
  abbrev pub Stands : Client S → Option RequestType → Type 0
  Stands c none = (c.multibulklen ≡ 0) × (length c.argv ≡ 0)
  Stands c (some inline) = (c.multibulklen ≡ 0) × (length c.argv ≡ 0)
  Stands c (some multibulk) =
      (0 < c.multibulklen)
      ⊎ ((c.multibulklen ≡ 0) × (length c.argv ≡ 0) × (head_or c.querybuf 0 ≡ b'*'))

  -- Nothing more is parsed for a client that is about to be closed.
  abbrev pub IsParser : Client S → Type 0
  IsParser c = (c.close_after_reply ≡ true) ⊎ Stands c c.reqtype

  -- A request is parsed and has taken bytes from the buffer, or the client waits.
  abbrev pub Advances : ℕ → Parsed S → Type 0
  Advances n (done c) = length c.querybuf < n
  Advances n (wait c) = IsParser c
  Advances n crash = ⊥

  abbrev StepAdvances : ℕ → ℕ → Step S → Type 0
  StepAdvances n m (go offset c) =
      (c.reqtype ≡ some multibulk) × (c.multibulklen ≡ m) × (length c.querybuf - offset < n)
  StepAdvances n m (break offset c) =
      (c.reqtype ≡ some multibulk) × ((0 < c.multibulklen) ⊎ (c.close_after_reply ≡ true))
  StepAdvances n m (fail c) = c.close_after_reply ≡ true

  check_bulklen-Advances :
      (o : Option ℤ) (offset next n m : ℕ) (c : Client S)
      → c.reqtype ≡ some multibulk
      → c.multibulklen ≡ m
      → length c.querybuf - next < n
      → StepAdvances n m (check_bulklen o offset next c)
  unfolding check_bulklen set_bulklen protocol_error
  check_bulklen-Advances none offset next n m c r k h = refl
  check_bulklen-Advances (some ll) offset next n m c r k h =
      ground (arith, length-drop next c.querybuf)

  read_length_line-Advances :
      (o : Option ℕ) (offset n m : ℕ) (c : Client S)
      → c.reqtype ≡ some multibulk
      → c.multibulklen ≡ suc m
      → length c.querybuf - offset < n
      → StepAdvances n (suc m) (read_length_line offset o c)
  unfolding read_length_line protocol_error
  read_length_line-Advances none offset n m c r k h =
      elim (Bool-cases (ltb (1024 * 64) (length c.querybuf))) [
        | inl large ↦ rw large (r, inr refl)
        | inr small ↦ rw small (r, inl (omega arith))
      ]
  read_length_line-Advances (some i) offset n m c r k h =
      elim (Bool-cases (ltb (length c.querybuf) (offset + i + 2))) [
        | inl short ↦ rw short (r, inl (omega arith))
        | inr whole ↦ elim (Bool-cases (head_or (drop offset c.querybuf) 0 == b'$')) [
          | inr other ↦ rw (whole, other) refl
          | inl dollar ↦
              rw (whole, dollar)
                (check_bulklen-Advances _ offset (offset + i + 2) n (suc m) c r k (omega arith))
        ]
      ]

  find_bulklen-Advances :
      (o : Option ℕ) (offset n m : ℕ) (c : Client S)
      → c.reqtype ≡ some multibulk
      → c.multibulklen ≡ suc m
      → length c.querybuf - offset < n
      → StepAdvances n (suc m) (find_bulklen o offset c)
  unfolding find_bulklen
  find_bulklen-Advances none offset n m c r k h =
      read_length_line-Advances (find_char b'\r' (drop offset c.querybuf)) offset n m c r k h
  find_bulklen-Advances (some len) offset n m c r k h = (r, k, h)

  read_argument-Advances :
      (o : Option ℕ) (offset n m : ℕ) (c : Client S)
      → c.reqtype ≡ some multibulk
      → c.multibulklen ≡ suc m
      → length c.querybuf - offset < suc n
      → StepAdvances n m (read_argument o offset c)
  unfolding read_argument
  read_argument-Advances none offset n m c r p h = (r, inl (omega arith))
  read_argument-Advances (some len) offset n m c r p h = ground arith

  round-Advances :
      (n m : ℕ) (s : Step S)
      → StepAdvances (suc n) (suc m) s
      → StepAdvances n m (and_then s read_bulk)
  unfolding read_bulk
  round-Advances n m (go offset c) (r, k, h) = read_argument-Advances c.bulklen offset n m c r k h
  round-Advances n m (break offset c) h = h
  round-Advances n m (fail c) h = h

  next_round-Advances :
      (b : ℕ) (s : Step S) (f : ℕ → Client S → Parsed S) (n m : ℕ)
      → StepAdvances m n s
      → ((offset : ℕ) (c : Client S)
          → c.reqtype ≡ some multibulk
          → c.multibulklen ≡ n
          → length c.querybuf - offset < m
          → Advances b (f offset c))
      → Advances b (next_round s f)
  next_round-Advances b (go offset c) f n m (r, k, h) rest = rest offset c r k h
  next_round-Advances b (break offset c) f n m (r, inl p) rest = inr (rw r (inl p))
  next_round-Advances b (break offset c) f n m (r, inr p) rest = inl p
  next_round-Advances b (fail c) f n m h rest = inl h

  -- A round takes something, so that a weak bound becomes a strict one.
  first_round-Advances :
      (n m offset : ℕ) (c : Client S)
      → c.reqtype ≡ some multibulk
      → c.multibulklen ≡ suc n
      → length c.querybuf - offset < suc m
      → ((offset : ℕ) (c : Client S)
          → c.reqtype ≡ some multibulk
          → c.multibulklen ≡ n
          → length c.querybuf - offset < m
          → Advances m (read_bulks n offset c))
      → Advances m (read_bulks (suc n) offset c)
  unfolding read_bulks read_bulklen
  first_round-Advances n m offset c r k h rest =
      let first = find_bulklen-Advances c.bulklen offset (suc m) n c r k h in
      next_round-Advances m (and_then (find_bulklen c.bulklen offset c) read_bulk)
        (λ o d. read_bulks n o d) n m (round-Advances m n (find_bulklen c.bulklen offset c) first)
        rest

  read_bulks-Advances :
      (n m offset : ℕ) (c : Client S)
      → c.reqtype ≡ some multibulk
      → c.multibulklen ≡ n
      → length c.querybuf - offset < m
      → Advances m (read_bulks n offset c)
  unfolding read_bulks
  read_bulks-Advances zero m offset c r k h = omega (arith, length-drop offset c.querybuf)
  read_bulks-Advances (suc n) m offset c r k h =
      first_round-Advances n m offset c r k (omega arith) (λ o d. read_bulks-Advances n m o d)

  read_all-Advances :
      (n m offset : ℕ) (c : Client S)
      → 0 < n
      → c.reqtype ≡ some multibulk
      → c.multibulklen ≡ n
      → length c.querybuf - offset < suc m
      → Advances m (read_bulks n offset c)
  read_all-Advances zero m offset c p r k h = absurd (omega arith)
  read_all-Advances (suc n) m offset c p r k h =
      first_round-Advances n m offset c r k h (λ o d. read_bulks-Advances n m o d)

  check_multibulklen-Advances :
      (o : Option ℤ) (next : ℕ) (c : Client S)
      → c.reqtype ≡ some multibulk
      → 0 < next
      → next ≤ length c.querybuf
      → Advances (length c.querybuf) (check_multibulklen o next c)
  unfolding check_multibulklen protocol_error
  check_multibulklen-Advances none next c r p h = inl refl
  check_multibulklen-Advances (some ll) next c r p h =
      elim (Bool-cases (ltb_ℤ (pos (1024 * 1024)) ll)) [
        | inl large ↦ rw large (inl refl)
        | inr small ↦ elim (Bool-cases (leb_ℤ ll (pos 0))) [
          | inl nothing ↦ rw (small, nothing) (omega (arith, length-drop next c.querybuf))
          | inr some_args ↦
              rw (small, some_args)
                (read_all-Advances (pos_part ll) (length c.querybuf) next
                  (record c { multibulklen = pos_part ll }) (ground arith) r refl (omega arith))
        ]
      ]

  read_count_line-Advances :
      (o : Option ℕ) (c : Client S)
      → c.reqtype ≡ some multibulk
      → c.multibulklen ≡ 0
      → length c.argv ≡ 0
      → head_or c.querybuf 0 ≡ b'*'
      → Advances (length c.querybuf) (read_count_line o c)
  unfolding read_count_line protocol_error
  read_count_line-Advances none c r k a h =
      elim (Bool-cases (ltb (1024 * 64) (length c.querybuf))) [
        | inl large ↦ rw large (inl refl)
        | inr small ↦ rw small (inr (rw r (inr (k, a, h))))
      ]
  read_count_line-Advances (some i) c r k a h =
      elim (Bool-cases (ltb (length c.querybuf) (i + 2))) [
        | inl short ↦ rw short (inr (rw r (inr (k, a, h))))
        | inr whole ↦
            let star : (head_or c.querybuf 0 == b'*') ≡ true = ground arith in
            rw (whole, star)
              (check_multibulklen-Advances _ (i + 2) c r (omega arith) (ground arith))
      ]

  pub process_multibulk_buffer-Advances :
      (c : Client S)
      → c.reqtype ≡ some multibulk
      → Stands c (some multibulk)
      → Advances (length c.querybuf) (process_multibulk_buffer c)
  unfolding process_multibulk_buffer
  process_multibulk_buffer-Advances c r (inl p) =
      let some_left : (c.multibulklen == 0) ≡ false = ground arith in
      rw some_left (read_all-Advances c.multibulklen (length c.querybuf) 0 c p r refl (omega arith))
  process_multibulk_buffer-Advances c r (inr (k, a, h)) =
      let none_left : (c.multibulklen == 0) ≡ true = ground arith in
      let no_args : (length c.argv == 0) ≡ true = ground arith in
      rw (none_left, no_args) (read_count_line-Advances (find_char b'\r' c.querybuf) c r k a h)
