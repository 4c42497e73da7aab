-- ===== src/Protocol/Input.antt =====
-- redis/src/networking.c: `processInputBuffer`, which parses and runs requests as long as the buffer
-- has some, and `readQueryFromClient`, which fills the buffer.
use my_node_redis.Prelude.{
  ℕ, zero, suc, ◌+◌, ◌-◌, ltb, leb, ◌==◌, ◌&&◌, ◌||◌, not, if◌then◌else◌, Bool, true, false, Option,
  none, some, [], ◌∷◌, ◌++◌, length, min,
}
use my_node_redis.Numbers.{Text}
use my_node_redis.Protocol.{
  Client, RequestType, inline, multibulk, Parsed, done, wait, crash, iobuf_len, mbulk_big_arg,
  reset_client, determine, parse_by,
}

-- What a call from the event loop ends in: the client waits for more, it is freed, an assertion
-- failed, or the rounds did not suffice.
pub data Outcome (S : Type 0) : Type 0 where
  ended : Client S → Outcome S
  freed : Outcome S
  crashed : Outcome S
  out_of_fuel : Outcome S

module _ {S : Type 0} where
  abbrev pub go_on : (Client S → Outcome S) → Parsed S → Outcome S
  go_on f (done c) = f c
  go_on f (wait c) = ended c
  go_on f crash = crashed

-- what `read` answers
pub data Received : Type 0 where
  bytes : Text → Received
  try_again read_error closed : Received

module _ {S : Type 0} (process_command : Client S → Bool × Client S) where
  abbrev pub after_command : Bool × Client S → Client S
  after_command (true, c) = reset_client c
  after_command (false, c) = c

  -- what follows a parser's success
  unfoldable pub run_command : Client S → Client S
  run_command c = if length c.argv == 0 then reset_client c else after_command (process_command c)

  -- `processInputBuffer`
  unfoldable pub process_input_buffer : ℕ → Client S → Outcome S
  process_input_buffer zero c = out_of_fuel
  process_input_buffer (suc f) c =
      let typed = determine c.reqtype c in
      let round =
        go_on (λ after. process_input_buffer f (run_command after))
          (parse_by typed.reqtype typed) in
      if length c.querybuf == 0 || c.blocked || c.close_after_reply then ended c else round

  -- what is done with the bytes that were read
  unfoldable pub append_input : ℕ → Text → Client S → Outcome S
  append_input max_querybuf_len chunk c =
      let filled = record c { querybuf = c.querybuf ++ chunk } in
      if length chunk == 0
      then ended c
      else if ltb max_querybuf_len (length filled.querybuf)
      then freed
      else process_input_buffer (suc (length filled.querybuf)) filled

  -- `readQueryFromClient`; `bytes []` is the end of the stream. The socket gives at most `read_len`
  -- bytes; the assertions of `sdsIncrLen` on the free space of the buffer are left out.
  unfoldable pub read_query_from_client : ℕ → Received → Client S → Outcome S
  read_query_from_client max_querybuf_len (bytes []) c = freed
  read_query_from_client max_querybuf_len (bytes (b ∷ l)) c =
      append_input max_querybuf_len (b ∷ l) c
  read_query_from_client max_querybuf_len try_again c = ended c
  read_query_from_client max_querybuf_len read_error c = freed
  read_query_from_client max_querybuf_len closed c = freed

abbrev pub is_multibulk : Option RequestType → Bool
is_multibulk none = false
is_multibulk (some inline) = false
is_multibulk (some multibulk) = true

abbrev pub read_len_for : {S : Type 0} → Option ℕ → Client S → ℕ
read_len_for none c = iobuf_len
read_len_for (some len) c =
    if is_multibulk c.reqtype && not (c.multibulklen == 0) && leb mbulk_big_arg len
    then min iobuf_len (len + 2 - length c.querybuf)
    else iobuf_len

-- the number of bytes that `readQueryFromClient` asks for; 0 where the buffer has more than the
-- argument, where the source's difference would be negative
unfoldable pub read_len : {S : Type 0} → Client S → ℕ
read_len c = read_len_for c.bulklen c
