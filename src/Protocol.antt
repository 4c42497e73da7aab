-- ===== src/Protocol.antt =====
-- redis/src/networking.c: the parser of requests, from the bytes that a client sends to the arguments
-- of its commands, with `sdssplitlen` of sds.c for requests of one line. The query buffer is the list
-- of its bytes, `drop` stands for `sdsrange` to the end. `processCommand` is a parameter.
pub mod Input
pub mod Encode
pub mod Buffers
pub mod Header
pub mod Stream
pub mod Lengths
pub mod Arguments
pub mod Bulks
pub mod Requests
pub mod Rounds
pub mod Inline
pub mod Filling
pub mod Tests
pub mod Delivery
pub mod Advances
pub mod Safe
use my_node_redis.Prelude.{
  ℕ, zero, suc, ◌+◌, ◌-◌, ◌*◌, ltb, leb, ◌==◌, ◌&&◌, ◌||◌, not, if◌then◌else◌, Bool, true, false,
  Option, none, some, List, [], ◌∷◌, ◌++◌, length, take, drop,
}
use my_node_redis.Prelude.Int.{ℤ, pos, ltb_ℤ, leb_ℤ, pos_part}
use my_node_redis.Numbers.{Text, string2ll}

abbrev pub inline_max_size : ℕ
inline_max_size = 1024 * 64

abbrev pub mbulk_big_arg : ℕ
mbulk_big_arg = 1024 * 32

abbrev pub iobuf_len : ℕ
iobuf_len = 1024 * 16

-- REDIS_REQ_INLINE and REDIS_REQ_MULTIBULK
pub data RequestType : Type 0 where
  inline multibulk : RequestType

pub data ProtocolError : Type 0 where
  too_big_inline too_big_mbulk_count invalid_multibulk_length : ProtocolError
  too_big_bulk_count invalid_bulk_length : ProtocolError
  expected_dollar : ℕ → ProtocolError

-- The parser's part of `redisClient`, the flags REDIS_MULTI, REDIS_BLOCKED, REDIS_CLOSE_AFTER_REPLY
-- and REDIS_ASKING, and what commands work on. A type of 0 and a length of -1 are `none`.
pub record Client (S : Type 0) : Type 0 where
  pub querybuf : Text
  pub reqtype : Option RequestType
  pub multibulklen : ℕ
  pub bulklen : Option ℕ
  pub argv : List Text
  pub multi : Bool
  pub blocked : Bool
  pub close_after_reply : Bool
  pub asking : Bool
  pub errors : List ProtocolError
  pub server : S

-- What a parser answers: REDIS_OK, REDIS_ERR, or an assertion fails.
pub data Parsed (S : Type 0) : Type 0 where
  done : Client S → Parsed S
  wait : Client S → Parsed S
  crash : Parsed S

-- A part of the loop over the arguments goes on at an offset of the buffer, leaves the loop there,
-- or returns REDIS_ERR.
pub data Step (S : Type 0) : Type 0 where
  go : ℕ → Client S → Step S
  break : ℕ → Client S → Step S
  fail : Client S → Step S

abbrev pub next_index : Option ℕ → Option ℕ
next_index none = none
next_index (some i) = some (suc i)

-- `strchr`, which stops at a nul
unfoldable pub find_char : ℕ → Text → Option ℕ
find_char ch [] = none
find_char ch (c ∷ r) =
    let rest = next_index (find_char ch r) in
    if c == ch then some 0 else if c == 0 then none else rest

abbrev pub head_or : Text → ℕ → ℕ
head_or [] d = d
head_or (c ∷ r) d = c

-- `strstr(_, "\r\n")`, which stops at a nul
unfoldable pub find_crlf : Text → Option ℕ
find_crlf [] = none
find_crlf (c ∷ r) =
    let rest = next_index (find_crlf r) in
    if c == b'\r' && head_or r 0 == b'\n' then some 0 else if c == 0 then none else rest

-- the loop of `sdssplitlen` for a separator of one byte, with the token that has begun
unfoldable pub split_loop : ℕ → Text → Text → List Text
split_loop sep token [] = token ∷ []
split_loop sep token (c ∷ r) =
    if c == sep then token ∷ split_loop sep [] r else split_loop sep (token ++ c ∷ []) r

-- `sdssplitlen` for a separator of one byte
unfoldable pub split_len : Text → ℕ → List Text
split_len [] sep = []
split_len (c ∷ r) sep = split_loop sep [] (c ∷ r)

-- the loop that makes arguments of the tokens that are not empty
unfoldable pub full_tokens : List Text → List Text
full_tokens [] = []
full_tokens (t ∷ ts) = if length t == 0 then full_tokens ts else t ∷ full_tokens ts

module _ {S : Type 0} where
  -- `resetClient`
  unfoldable pub reset_client : Client S → Client S
  reset_client c = record c {
    argv = [];
    reqtype = none;
    multibulklen = 0;
    bulklen = none;
    asking = c.asking && c.multi;
  }

  -- `addReplyError`, and `setProtocolError` at an offset
  unfoldable pub protocol_error : ProtocolError → ℕ → Client S → Client S
  protocol_error e offset c = record c {
    errors = c.errors ++ e ∷ [];
    close_after_reply = true;
    querybuf = drop offset c.querybuf;
  }

  -- from the end of the line on
  unfoldable pub split_line : Option ℕ → Client S → Parsed S
  split_line none c =
      wait
        (if ltb inline_max_size (length c.querybuf) then protocol_error too_big_inline 0 c else c)
  split_line (some n) c = done (record c {
    argv = full_tokens (split_len (take n c.querybuf) b' ');
    querybuf = drop (n + 2) c.querybuf;
  })

  -- `processInlineBuffer`
  unfoldable pub process_inline_buffer : Client S → Parsed S
  process_inline_buffer c = split_line (find_crlf c.querybuf) c

  -- `c->querybuf = sdsrange(c->querybuf, pos, -1)`
  abbrev pub trim : ℕ → Client S → Client S
  trim offset c = record c { querybuf = drop offset c.querybuf }

  -- A length that was read: a large one moves the argument to the front of the buffer.
  unfoldable pub set_bulklen : ℕ → ℕ → Client S → Step S
  set_bulklen len offset c =
      if leb mbulk_big_arg len
      then go 0 (record (trim offset c) { bulklen = some len })
      else go offset (record c { bulklen = some len })

  -- the length behind `$` as `string2ll` reads it, with the tests on it
  unfoldable pub check_bulklen : Option ℤ → ℕ → ℕ → Client S → Step S
  check_bulklen none offset next c = fail (protocol_error invalid_bulk_length offset c)
  check_bulklen (some ll) offset next c =
      if ltb_ℤ ll (pos 0) || ltb_ℤ (pos (512 * 1024 * 1024)) ll
      then fail (protocol_error invalid_bulk_length offset c)
      else set_bulklen (pos_part ll) next c

  -- from the carriage return on, which was found behind the offset
  unfoldable pub read_length_line : ℕ → Option ℕ → Client S → Step S
  read_length_line offset none c =
      break offset (
        if ltb inline_max_size (length c.querybuf)
        then protocol_error too_big_bulk_count 0 c
        else c)
  read_length_line offset (some i) c =
      let first = head_or (drop offset c.querybuf) 0 in
      if ltb (length c.querybuf) (offset + i + 2)
      then break offset c
      else if not (first == b'$')
      then fail (protocol_error (expected_dollar first) offset c)
      else check_bulklen (string2ll (take (i - 1) (drop (offset + 1) c.querybuf))) offset
          (offset + i + 2) c

  -- `if (c->bulklen == -1)`
  unfoldable pub find_bulklen : Option ℕ → ℕ → Client S → Step S
  find_bulklen none offset c = read_length_line offset (find_char b'\r' (drop offset c.querybuf)) c
  find_bulklen (some len) offset c = go offset c

  unfoldable pub read_bulklen : ℕ → Client S → Step S
  read_bulklen offset c = find_bulklen c.bulklen offset c

  -- `Read bulk argument`
  unfoldable pub read_argument : Option ℕ → ℕ → Client S → Step S
  read_argument none offset c = break offset c
  read_argument (some len) offset c =
      if ltb (length c.querybuf - offset) (len + 2)
      then break offset c
      else if offset == 0 && leb mbulk_big_arg len && length c.querybuf == len + 2
      then go 0 (record c {
        argv = c.argv ++ take len c.querybuf ∷ [];
        querybuf = [];
        bulklen = none;
        multibulklen = c.multibulklen - 1;
      })
      else go (offset + len + 2) (record c {
        argv = c.argv ++ take len (drop offset c.querybuf) ∷ [];
        bulklen = none;
        multibulklen = c.multibulklen - 1;
      })

  unfoldable pub read_bulk : ℕ → Client S → Step S
  read_bulk offset c = read_argument c.bulklen offset c

  abbrev pub and_then : Step S → (ℕ → Client S → Step S) → Step S
  and_then (go offset c) f = f offset c
  and_then (break offset c) f = break offset c
  and_then (fail c) f = fail c

  -- `Trim to pos` behind the loop, or the next round
  abbrev pub next_round : Step S → (ℕ → Client S → Parsed S) → Parsed S
  next_round (go offset c) f = f offset c
  next_round (break offset c) f = wait (trim offset c)
  next_round (fail c) f = wait c

  -- `while(c->multibulklen)`, with this length
  unfoldable pub read_bulks : ℕ → ℕ → Client S → Parsed S
  read_bulks zero offset c = done (trim offset c)
  read_bulks (suc n) offset c =
      next_round (and_then (read_bulklen offset c) read_bulk) (read_bulks n)

  -- the number behind `*` as `string2ll` reads it, with the tests on it
  unfoldable pub check_multibulklen : Option ℤ → ℕ → Client S → Parsed S
  check_multibulklen none next c = wait (protocol_error invalid_multibulk_length 0 c)
  check_multibulklen (some ll) next c =
      if ltb_ℤ (pos (1024 * 1024)) ll
      then wait (protocol_error invalid_multibulk_length 0 c)
      else if leb_ℤ ll (pos 0)
      then done (trim next c)
      else read_bulks (pos_part ll) next (record c { multibulklen = pos_part ll })

  -- from the carriage return on
  unfoldable pub read_count_line : Option ℕ → Client S → Parsed S
  read_count_line none c = wait (
      if ltb inline_max_size (length c.querybuf) then protocol_error too_big_mbulk_count 0 c else c)
  read_count_line (some i) c =
      if ltb (length c.querybuf) (i + 2)
      then wait c
      else if not (head_or c.querybuf 0 == b'*')
      then crash
      else check_multibulklen (string2ll (take (i - 1) (drop 1 c.querybuf))) (i + 2) c

  -- `processMultibulkBuffer`
  unfoldable pub process_multibulk_buffer : Client S → Parsed S
  process_multibulk_buffer c =
      if c.multibulklen == 0
      then (if length c.argv == 0 then read_count_line (find_char b'\r' c.querybuf) c else crash)
      else read_bulks c.multibulklen 0 c

  -- `Determine request type when unknown.`
  unfoldable pub determine : Option RequestType → Client S → Client S
  determine none c = record c {
    reqtype = some (if head_or c.querybuf 0 == b'*' then multibulk else inline);
  }
  determine (some t) c = c

  unfoldable pub parse_by : Option RequestType → Client S → Parsed S
  parse_by (some inline) c = process_inline_buffer c
  parse_by (some multibulk) c = process_multibulk_buffer c
  parse_by none c = crash
