-- ===== src/Protocol/Requests.antt =====
-- A stream of requests in a buffer: each is read whole and its command run, or the client waits.
use mathlib.Core.Path.{subst}
use my_node_redis.Prelude.{
  ℕ, ◌+◌, ◌*◌, ◌≤◌, ◌<◌, ◌≡◌, ◌⊎◌, inl, inr, ◌==◌, ltb, true, false, Option, none, some, List, [],
  ◌∷◌, ◌++◌, length, length-append, drop, append_assoc, refl, ap, sym, arith, ◌∙◌,
}
use my_node_redis.Prelude.Int.{pos, ltb_ℤ, leb_ℤ}
use my_node_redis.Numbers.{Text}
use my_node_redis.Protocol.{
  Client, multibulk, Parsed, done, wait, crash, find_char, check_multibulklen, read_count_line,
  process_multibulk_buffer, read_bulks,
}
use my_node_redis.Protocol.Encode.{bulks, request}
use my_node_redis.Protocol.Header.{length_line-cases}
use my_node_redis.Protocol.Stream.{AreSmall, Rest, Reading, Complete, Reads}
use my_node_redis.Protocol.Bulks.{read_bulks-Reads}

-- What `processMultibulkBuffer` admits: some arguments, not too many, none too large
abbrev pub IsCommand : List Text → Type 0
IsCommand argv = (0 < length argv) × (length argv ≤ 1024 * 1024) × AreSmall argv

abbrev pub AreCommands : List (List Text) → Type 0
AreCommands [] = Unit {0}
AreCommands (c ∷ l) = IsCommand c × AreCommands l

unfoldable pub wire : List (List Text) → Text
wire [] = []
wire (c ∷ l) = request c ++ wire l

-- one command after the other
unfoldable pub run_all : {S : Type 0} → (List Text → S → S) → List (List Text) → S → S
run_all execute [] s = s
run_all execute (c ∷ l) s = run_all execute l (execute c s)

-- `goal` is where the commands lead that the stream still has.
module _ {S : Type 0} (execute : List Text → S → S) (goal : S) (later : Text) where
  -- No request has begun to be read, but its type may be known.
  pub record Starting (c : Client S) : Type 0 where
    pub commands : List (List Text)
    pub valid : AreCommands commands
    pub free : (c.blocked ≡ false) × (c.close_after_reply ≡ false)
    pub kind : (c.reqtype ≡ none) ⊎ ((c.reqtype ≡ some multibulk) × (0 < length c.querybuf))
    pub no_count : c.multibulklen ≡ 0
    pub no_length : c.bulklen ≡ none
    pub no_args : c.argv ≡ []
    pub stream : c.querybuf ++ later ≡ wire commands
    pub leads : run_all execute commands c.server ≡ goal

  -- Some arguments of a request are still to come.
  pub record Midway (c : Client S) : Type 0 where
    pub all : List Text
    pub commands : List (List Text)
    pub s : S
    pub o : Option ℕ
    pub args : List Text
    pub reading : Reading later (wire commands) all s o 0 c args
    pub some_left : 0 < length args
    pub valid : AreCommands commands
    pub leads : run_all execute commands (execute all s) ≡ goal

  -- A client that waits, and that has nothing to wait for only where no command is left.
  pub record Rests (c : Client S) : Type 0 where
    pub starting : Starting c
    pub held : length c.querybuf ≤ 32769
    pub more : (0 < length later) ⊎ (starting.commands ≡ [])

  pub record Hangs (c : Client S) : Type 0 where
    pub midway : Midway c
    pub held : Rest midway.o (length c.querybuf)
    pub more : 0 < length later

  abbrev pub Settled : Client S → Type 0
  Settled c = Rests c ⊎ Hangs c

  -- A request has been read, and these commands are behind it.
  pub record HasRequest (c : Client S) : Type 0 where
    pub command : List Text
    pub commands : List (List Text)
    pub s : S
    pub complete : Complete later (wire commands) command s c
    pub some_args : 0 < length command
    pub valid : AreCommands commands
    pub leads : run_all execute commands (execute command s) ≡ goal

  abbrev pub Parses : Parsed S → Type 0
  Parses (done c) = HasRequest c
  Parses (wait c) = Settled c
  Parses crash = ⊥

  Reads-Parses :
      (command : List Text) (commands : List (List Text)) (s : S) (p : Parsed S)
      → 0 < length command
      → AreCommands commands
      → run_all execute commands (execute command s) ≡ goal
      → Reads later (wire commands) command s p
      → Parses p
  Reads-Parses command commands s (done c) n v e r = record {
    command = command;
    commands = commands;
    s = s;
    complete = r;
    some_args = n;
    valid = v;
    leads = e;
  }
  Reads-Parses command commands s (wait c) n v e r = inr (record {
    midway = record {
      all = command;
      commands = commands;
      s = s;
      o = r.o;
      args = r.args;
      reading = r.reading;
      some_left = r.some_left;
      valid = v;
      leads = e;
    };
    held = r.held;
    more = r.more;
  })
  Reads-Parses command commands s crash n v e r = r

  pub Midway-Parses : (c : Client S) → Midway c → Parses (process_multibulk_buffer c)
  unfolding process_multibulk_buffer
  Midway-Parses c m =
      let r = m.reading in
      let count : (c.multibulklen == 0) ≡ false = ground (arith, r.left, m.some_left) in
      let some_args : 0 < length m.all =
        omega (arith, ap length r.collected, length-append c.argv m.args, m.some_left) in
      rw count (
        subst (λ k. Parses (read_bulks k 0 c)) (sym r.left)
          (Reads-Parses m.all m.commands m.s (read_bulks (length m.args) 0 c) some_args m.valid
            m.leads (read_bulks-Reads later (wire m.commands) m.all m.s m.args m.o 0 c r)))

  -- the count of arguments, once its line is there
  count-Parses :
      (next : ℕ) (c : Client S) (command : List Text) (commands : List (List Text))
      → Starting c
      → c.reqtype ≡ some multibulk
      → IsCommand command
      → AreCommands commands
      → drop next c.querybuf ++ later ≡ bulks command ++ wire commands
      → run_all execute commands (execute command c.server) ≡ goal
      → length c.querybuf ≤ 65536
      → Parses (check_multibulklen (some (pos (length command))) next c)
  unfolding check_multibulklen
  count-Parses next c command commands st k v w e g h =
      let few : ltb_ℤ (pos (1024 * 1024)) (pos (length command)) ≡ false = ground (arith, v) in
      let many : leb_ℤ (pos (length command)) (pos 0) ≡ false = ground (arith, v) in
      let counted = record c { multibulklen = length command } in
      rw (few, many)
        (Reads-Parses command commands c.server (read_bulks (length command) next counted) (v.0) w g
          (read_bulks-Reads later (wire commands) command c.server command none next counted
            (record {
              free = ((st.free).0, (st.free).1, refl);
              kind = k;
              known = st.no_length;
              collected = ap (λ l. l ++ command) st.no_args;
              left = refl;
              stream = e;
              announces = tt;
              small = v.2;
              room = h;
            })))

  length_line-Parses :
      (c : Client S) (command : List Text) (commands : List (List Text))
      → Starting c
      → c.reqtype ≡ some multibulk
      → IsCommand command
      → AreCommands commands
      → c.querybuf ++ later ≡ request command ++ wire commands
      → run_all execute commands (execute command c.server) ≡ goal
      → 0 < length c.querybuf
      → length c.querybuf ≤ 65536
      → Parses (read_count_line (find_char b'\r' c.querybuf) c)
  unfolding read_count_line request
  length_line-Parses c command commands st k v w e g p h =
      let waits : (length c.querybuf ≤ 22) → 0 < length later → Settled c =
        λ short more. inl (record { starting = st; held = omega arith; more = inl more }) in
      let room : ltb (1024 * 64) (length c.querybuf) ≡ false = ground (arith, h) in
      elim (length_line-cases b'*' (length command) later (bulks command ++ wire commands)
        (omega (arith, v.1)) refl refl c.querybuf
        (e ∙ append_assoc _ (bulks command) (wire commands))) [
          | inl cut ↦ elim (cut.absent) [
            | inl absent ↦ rw (absent, room) (waits (cut.short) (cut.more))
            | inr (i, found, short) ↦
                let cut_off : ltb (length c.querybuf) (i + 2) ≡ true = ground (arith, short) in
                rw (found, cut_off) (waits (cut.short) (cut.more))
          ]
          | inr line ↦
              let fits : ltb (length c.querybuf) (line.end + 2) ≡ false =
                ground (arith, line.fits) in
              rw (line.found, fits, line.marked, line.reads)
                (count-Parses (line.end + 2) c command commands st k v w (line.left) g h)
        ]

  pub Starting-Parses :
      (c : Client S) (commands : List (List Text)) (st : Starting c)
      → st.commands ≡ commands
      → c.reqtype ≡ some multibulk
      → 0 < length c.querybuf
      → length c.querybuf ≤ 65536
      → Parses (process_multibulk_buffer c)
  unfolding process_multibulk_buffer wire run_all
  Starting-Parses c [] st same k p h =
      absurd (omega (arith, ap length (rw same at (st.stream)), length-append c.querybuf later))
  Starting-Parses c (command ∷ commands) st same k p h =
      let count : (c.multibulklen == 0) ≡ true = ground (arith, st.no_count) in
      let no_args : (length c.argv == 0) ≡ true = ground (arith, ap length st.no_args) in
      let v = subst AreCommands same st.valid in
      rw (count, no_args)
        (length_line-Parses c command commands st k (v.0) (v.1)
          (subst (λ l. c.querybuf ++ later ≡ wire l) same st.stream)
          (subst (λ l. run_all execute l c.server ≡ goal) same st.leads) p h)
