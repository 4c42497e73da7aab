-- ===== src/Protocol/Tests.antt =====
-- The theorems on the protocol at concrete requests, and some runs of the parser.
use my_node_redis.Prelude.{
  ◌<◌, ℕ, ◌^◌, inr, ◌≤◌, ◌≡◌, Bool, true, false, none, some, List, [], ◌∷◌, ◌++◌, length, replicate,
  refl, arith,
}
use my_node_redis.Numbers.{
  Text, ll2string, magnitude, digits_loop, string2ll, signed, parse_magnitude, parse_loop,
}
use my_node_redis.Protocol.{
  Client, done, multibulk, process_inline_buffer, invalid_bulk_length, parse_by, determine,
  process_multibulk_buffer, read_count_line, find_char, check_multibulklen, read_bulks,
  read_bulklen, find_bulklen, read_length_line, check_bulklen, protocol_error,
}
use my_node_redis.Protocol.Input.{ended, bytes, process_input_buffer, read_query_from_client}
use my_node_redis.Protocol.Encode.{
  cat_append_only_generic_command, cat_arguments, length_line, crlf,
}
use my_node_redis.Protocol.Requests.{run_all}
use my_node_redis.Protocol.Inline.{spaced, words, process_inline_buffer-words}
use my_node_redis.Protocol.Safe.{IsServed, read_query_from_client-IsServed}
use my_node_redis.Protocol.Delivery.{written, deliver, IsIdle, deliver-written}

-- The state is the list of the commands that have been run, the last in front.
abbrev History : Type 0
History = List (List Text)

abbrev execute : List Text → History → History
execute argv s = argv ∷ s

abbrev run : Client History → Bool × Client History
run c = (true, record c { server = execute c.argv c.server })

abbrev fresh : Client History
fresh = record {
  querybuf = [];
  reqtype = none;
  multibulklen = 0;
  bulklen = none;
  argv = [];
  multi = false;
  blocked = false;
  close_after_reply = false;
  asking = false;
  errors = [];
  server = [];
}

abbrev get_k : List Text
get_k = (b'G' ∷ b'E' ∷ b'T' ∷ []) ∷ (b'k' ∷ []) ∷ []

abbrev ping : List Text
ping = (b'P' ∷ b'I' ∷ b'N' ∷ b'G' ∷ []) ∷ []

get_k_bytes :
    written [] (get_k ∷ [])
    ≡ b'*' ∷ b'2' ∷ b'\r' ∷ b'\n' ∷ b'$' ∷ b'3' ∷ b'\r' ∷ b'\n' ∷ b'G' ∷ b'E' ∷ b'T' ∷ b'\r' ∷ b'\n'
      ∷ b'$' ∷ b'1' ∷ b'\r' ∷ b'\n' ∷ b'k' ∷ crlf
unfolding written cat_append_only_generic_command cat_arguments length_line ll2string magnitude
    digits_loop
get_k_bytes = refl

-- What is behind `$` has to be a number.
bad_length :
    process_input_buffer run 30
      (record fresh { querybuf = b'*' ∷ b'1' ∷ b'\r' ∷ b'\n' ∷ b'$' ∷ b'x' ∷ crlf })
    ≡ ended (record fresh {
      querybuf = b'$' ∷ b'x' ∷ crlf;
      reqtype = some multibulk;
      multibulklen = 1;
      close_after_reply = true;
      errors = invalid_bulk_length ∷ [];
    })
unfolding process_input_buffer parse_by determine process_multibulk_buffer read_count_line find_char
    check_multibulklen string2ll signed parse_magnitude parse_loop read_bulks read_bulklen
    find_bulklen read_length_line check_bulklen protocol_error
bad_length = refl

two_commands : length (written [] (get_k ∷ ping ∷ [])) ≤ length (replicate {A = ℕ} 40 2)
unfolding written cat_append_only_generic_command cat_arguments length_line ll2string magnitude
    digits_loop
two_commands = omega arith

two_commands_small : length (written [] (get_k ∷ ping ∷ [])) < 2 ^ 30
two_commands_small = omega (arith, two_commands)

deliver-written_example :
    (d : Client History) × (deliver run
        (2 ^ 30)
        (replicate 40 2)
        (written [] (get_k ∷ ping ∷ []))
        fresh
      ≡ ended d)
    × IsIdle d
    × (d.server ≡ run_all execute (get_k ∷ ping ∷ []) [])
deliver-written_example =
    deliver-written run execute (λ c. refl) (2 ^ 30) (replicate 40 2) (get_k ∷ ping ∷ []) fresh
      (omega arith) (omega arith)
      (record {
        not_blocked = refl;
        not_closing = refl;
        no_input = refl;
        no_type = refl;
        no_count = refl;
        no_length = refl;
        no_args = refl;
      })
      two_commands_small two_commands

read_query_from_client-IsServed_example : IsServed (
    read_query_from_client run
      (2 ^ 30)
      (bytes (b'*' ∷ b'1' ∷ b'\r' ∷ b'\n' ∷ b'$' ∷ b'x' ∷ crlf))
      fresh)
read_query_from_client-IsServed_example =
    read_query_from_client-IsServed run
      (record { leaves_buffer = λ c. refl; err_closes = λ c e. cc }) (2 ^ 30)
      (bytes (b'*' ∷ b'1' ∷ b'\r' ∷ b'\n' ∷ b'$' ∷ b'x' ∷ crlf)) fresh (inr (refl, refl))

-- `GET`, two blanks, `k`, a blank
abbrev line : List (Text × ℕ)
line = (b'G' ∷ b'E' ∷ b'T' ∷ [], 2) ∷ (b'k' ∷ [], 1) ∷ []

process_inline_buffer-words_example :
    process_inline_buffer
      (record fresh { querybuf = (replicate 1 b' ' ++ spaced line) ++ (crlf ++ []) })
    ≡ done (record fresh { argv = words line; querybuf = [] })
process_inline_buffer-words_example =
    process_inline_buffer-words
      (record fresh { querybuf = (replicate 1 b' ' ++ spaced line) ++ (crlf ++ []) }) 1 line []
      (omega arith) refl
