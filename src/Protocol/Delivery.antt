-- ===== src/Protocol/Delivery.antt =====
-- Commands in the form that `catAppendOnlyGenericCommand` writes arrive over a connection that
-- delivers the bytes in parts of any size.
use mathlib.Core.Path.{subst}
use my_node_redis.Prelude.{
  ◌^◌, ℕ, suc, ◌+◌, ◌*◌, ◌≤◌, ◌<◌, ◌≡◌, inl, inr, min, Bool, true, false, none, List, [], ◌∷◌, ◌++◌,
  length, length-take, length-drop, take, drop, take-append-drop, append_assoc, append-nil, ◌==◌,
  if◌then◌else◌, refl, ap, sym, arith, ◌∙◌,
}
use my_node_redis.Numbers.{Text}
use my_node_redis.Protocol.{Client}
use my_node_redis.Protocol.Input.{
  Outcome, ended, freed, crashed, out_of_fuel, bytes, read_query_from_client, read_len,
}
use my_node_redis.Protocol.Encode.{cat_append_only_generic_command, request, cat-request}
use my_node_redis.Protocol.Requests.{AreCommands, wire, run_all, Settled}
use my_node_redis.Protocol.Rounds.{rest_of_stream}
use my_node_redis.Protocol.Filling.{read_len_pos, read_query-Settled}

-- The bytes of some commands, one behind the other
unfoldable pub written : Text → List (List Text) → Text
written dst [] = dst
written dst (c ∷ l) = written (cat_append_only_generic_command dst c) l

written-wire : (dst : Text) (l : List (List Text)) → written dst l ≡ dst ++ wire l
unfolding written wire
written-wire dst [] = sym (append-nil dst)
written-wire dst (c ∷ l) =
    written-wire (cat_append_only_generic_command dst c) l
    ∙ (rw (cat-request dst c) (append_assoc dst (request c) (wire l)))

module _ {S : Type 0} where
  abbrev and_then : Outcome S → (Client S → Outcome S) → Outcome S
  and_then (ended c) f = f c
  and_then freed f = freed
  and_then crashed f = crashed
  and_then out_of_fuel f = out_of_fuel

-- The event loop calls `readQueryFromClient` once for each number, which is one less than the
-- number of bytes that have arrived by then; no call asks for more than `readlen`.
module _ {S : Type 0} (process_command : Client S → Bool × Client S) (max : ℕ) where
  pub deliver : List ℕ → Text → Client S → Outcome S
  deliver [] stream c = ended c
  deliver (k ∷ ks) stream c =
      let n = min (suc k) (read_len c) in
      if length stream == 0
      then ended c
      else and_then (read_query_from_client process_command max (bytes (take n stream)) c)
          (λ d. deliver ks (drop n stream) d)

-- The parser of a client that has nothing left to read
pub record IsIdle {S : Type 0} (c : Client S) : Type 0 where
  pub not_blocked : c.blocked ≡ false
  pub not_closing : c.close_after_reply ≡ false
  pub no_input : c.querybuf ≡ []
  pub no_type : c.reqtype ≡ none
  pub no_count : c.multibulklen ≡ 0
  pub no_length : c.bulklen ≡ none
  pub no_args : c.argv ≡ []

module _ {S : Type 0} (process_command : Client S → Bool × Client S) (execute : List Text → S → S)
    (runs : (c : Client S)
      → process_command c ≡ (true, record c { server = execute c.argv c.server })) where
  IsServed : S → Outcome S → Type 0
  IsServed goal o = (d : Client S) × (o ≡ ended d) × IsIdle d × (d.server ≡ goal)

  idle-Settled :
      (commands : List (List Text)) (c : Client S)
      → AreCommands commands
      → IsIdle c
      → Settled execute (run_all execute commands c.server) (wire commands) c
  idle-Settled commands c v i = inl (record {
    starting = record {
      commands = commands;
      valid = v;
      free = (i.not_blocked, i.not_closing);
      kind = inl i.no_type;
      no_count = i.no_count;
      no_length = i.no_length;
      no_args = i.no_args;
      stream = ap (λ q. q ++ wire commands) i.no_input;
      leads = refl;
    };
    held = omega (arith, ap length i.no_input);
    more =
        rest_of_stream process_command execute runs (run_all execute commands c.server)
          (wire commands) commands refl;
  })

  Settled-IsIdle :
      (goal : S) (c : Client S) → Settled execute goal [] c → IsIdle c × (c.server ≡ goal)
  unfolding wire run_all
  Settled-IsIdle goal c (inr h) = absurd (omega (arith, h.more))
  Settled-IsIdle goal c (inl r) =
      let st = r.starting in
      let nothing : st.commands ≡ [] = elim r.more [
        | inl more ↦ absurd (omega (arith, more))
        | inr e ↦ e
      ] in
      let no_input : c.querybuf ≡ [] = sym (append-nil c.querybuf) ∙ st.stream ∙ ap wire nothing in
      let no_type : c.reqtype ≡ none = elim st.kind [
        | inl e ↦ e
        | inr e ↦ absurd (omega (arith, e.1, ap length no_input))
      ] in
      (
        record {
          not_blocked = (st.free).0;
          not_closing = (st.free).1;
          no_input = no_input;
          no_type = no_type;
          no_count = st.no_count;
          no_length = st.no_length;
          no_args = st.no_args;
        },
        ap (λ l. run_all execute l c.server) (sym nothing) ∙ st.leads,
      )

  deliver-Settled :
      (goal : S) (max : ℕ) (ks : List ℕ) (stream : Text) (c : Client S)
      → 512 * 1024 * 1024 + 2 ≤ max
      → Settled execute goal stream c
      → length stream ≤ length ks
      → IsServed goal (deliver process_command max ks stream c)
  unfolding deliver IsServed
  deliver-Settled goal max [] [] c m t h = let i = Settled-IsIdle goal c t in (c, refl, i.0, i.1)
  deliver-Settled goal max (k ∷ ks) [] c m t h =
      let i = Settled-IsIdle goal c t in (c, refl, i.0, i.1)
  deliver-Settled goal max [] (b ∷ s) c m t h = absurd (omega arith)
  deliver-Settled goal max (k ∷ ks) (b ∷ s) c m t h =
      let n = min (suc k) (read_len c) in
      let p : 0 < n = omega (arith, read_len_pos process_command execute runs goal (b ∷ s) c t) in
      let size = length-take n (b ∷ s) in
      let (d, e, u) =
        read_query-Settled process_command execute runs goal max (take n (b ∷ s)) (drop n (b ∷ s)) c
          m (subst (λ r. Settled execute goal r c) (sym (take-append-drop n (b ∷ s))) t)
          (omega (arith, size)) (omega (arith, size)) in
      let some_left : (suc (length s) == 0) ≡ false = ground arith in
      rw (some_left, e)
        (deliver-Settled goal max ks (drop n (b ∷ s)) d m u (omega (arith, length-drop n (b ∷ s))))

  -- Commands of 1 to 1024 * 1024 arguments of at most 512 MB each, written by
  -- `catAppendOnlyGenericCommand`, fewer than 2 ^ 30 bytes in all, arrive in parts of any size, in
  -- as many calls as there are bytes, at a client with nothing left to read;
  -- `client_max_querybuf_len` is at least 512 MB and 2. Where `processCommand` runs a command and
  -- answers REDIS_OK, each command is run once, with its arguments and in order; then the client
  -- waits with an empty buffer.
  pub deliver-written :
      (max : ℕ) (ks : List ℕ) (commands : List (List Text)) (c : Client S)
      → 512 * 1024 * 1024 + 2 ≤ max
      → AreCommands commands
      → IsIdle c
      → length (written [] commands) < 2 ^ 30
      → length (written [] commands) ≤ length ks
      → (d : Client S) × (deliver process_command max ks (written [] commands) c ≡ ended d)
        × IsIdle d
        × (d.server ≡ run_all execute commands c.server)
  unfolding IsServed
  deliver-written max ks commands c m v i small h =
      let same = written-wire [] commands in
      rw same (
        deliver-Settled (run_all execute commands c.server) max ks (wire commands) c m
          (idle-Settled commands c v i) (rw same at h))
