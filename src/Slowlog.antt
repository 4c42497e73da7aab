-- ===== src/Slowlog.antt =====
-- redis/src/slowlog.c: the log of slow commands. Texts are lists of bytes, and the log is the list of its
-- entries from its head. `decimal` is what `sdscatprintf` writes for %d and %lu, `now` is what `time`
-- answers; reference counts are left out.
pub mod Entry
pub mod Log
pub mod Tests
use my_node_redis.Prelude.{
  ℕ, suc, zero, ◌+◌, ◌-◌, ◌==◌, ltb, Bool, true, false, not, ◌&&◌, ◌||◌, if◌then◌else◌, Option,
  none, some, List, [], ◌∷◌, ◌++◌, length, take,
}
use my_node_redis.Prelude.Int.{ℤ, pos, negsuc, ltb_ℤ}

abbrev pub Text : Type 0
Text = List ℕ

-- an argument: its text, and whether it is a string object with the raw encoding
pub record Argument : Type 0 where
  pub raw : Bool
  pub text : Text

pub record SlowlogEntry : Type 0 where
  pub id : ℕ
  pub time : ℕ
  pub duration : ℤ
  pub argv : List Argument

-- `slowlog`, `slowlog_entry_id`, `slowlog_log_slower_than` and `slowlog_max_len` of the server
pub record Server : Type 0 where
  pub slowlog : List SlowlogEntry
  pub slowlog_entry_id : ℕ
  pub slowlog_log_slower_than : ℤ
  pub slowlog_max_len : ℕ

-- SLOWLOG_ENTRY_MAX_ARGC and SLOWLOG_ENTRY_MAX_STRING
abbrev pub max_argc : ℕ
max_argc = 32

abbrev pub max_string : ℕ
max_string = 128

module _ (decimal : ℕ → Text) where
  -- "... (%d more arguments)"
  abbrev pub more_arguments : ℕ → Text
  more_arguments n =
      (b'.' ∷ b'.' ∷ b'.' ∷ b' ' ∷ b'(' ∷ [])
      ++ (decimal n
          ++ (b' ' ∷ b'm' ∷ b'o' ∷ b'r' ∷ b'e' ∷ b' ' ∷ b'a' ∷ b'r' ∷ b'g' ∷ b'u' ∷ b'm' ∷ b'e'
              ∷ b'n' ∷ b't' ∷ b's' ∷ b')' ∷ []))

  -- "... (%lu more bytes)"
  abbrev pub more_bytes : ℕ → Text
  more_bytes n =
      (b'.' ∷ b'.' ∷ b'.' ∷ b' ' ∷ b'(' ∷ [])
      ++ (decimal n
          ++ (b' ' ∷ b'm' ∷ b'o' ∷ b'r' ∷ b'e' ∷ b' ' ∷ b'b' ∷ b'y' ∷ b't' ∷ b'e' ∷ b's' ∷ b')'
              ∷ []))

  -- a raw string that is too long is cut
  unfoldable pub trim_argument : Argument → Argument
  trim_argument a =
      if a.raw && ltb max_string (length a.text)
      then record {
        raw = true;
        text = take max_string a.text ++ more_bytes (length a.text - max_string);
      }
      else a

  -- the loop of `slowlogCreateEntry` from `j` on, over the arguments from there on
  unfoldable pub entry_argv : ℕ → ℕ → ℕ → List Argument → List Argument
  entry_argv argc slargc j [] = []
  entry_argv argc slargc j (a ∷ l) =
      let rest = entry_argv argc slargc (suc j) l in
      if ltb j slargc
      then (if not (slargc == argc) && j == slargc - 1
          then record { raw = true; text = more_arguments (argc - slargc + 1) }
          else trim_argument a)
        ∷ rest
      else []

  -- `slowlogCreateEntry`
  unfoldable pub create_entry : ℕ → List Argument → ℤ → Server → SlowlogEntry × Server
  unfolding entry_argv trim_argument
  create_entry now argv duration s =
      let argc = length argv in
      let slargc = if ltb max_argc argc then max_argc else argc in
      (
        record {
          id = s.slowlog_entry_id;
          time = now;
          duration = duration;
          argv = entry_argv argc slargc 0 argv;
        },
        record s { slowlog_entry_id = s.slowlog_entry_id + 1 },
      )

abbrev pub delete_last : List SlowlogEntry → List SlowlogEntry
delete_last [] = []
delete_last (e ∷ []) = []
delete_last (e ∷ f ∷ l) = e ∷ delete_last (f ∷ l)

-- `while (listLength(server.slowlog) > n) listDelNode(..., listLast(...))`, with fuel
unfoldable pub trim : ℕ → ℕ → List SlowlogEntry → List SlowlogEntry
trim zero n l = l
trim (suc fuel) n l = let rest = trim fuel n (delete_last l) in if ltb n (length l) then rest else l

-- `duration >= server.slowlog_log_slower_than`, and whether the log is on
abbrev pub is_slow : ℤ → ℤ → Bool
is_slow slower_than duration = not (ltb_ℤ duration slower_than)

abbrev pub is_disabled : ℤ → Bool
is_disabled (pos n) = false
is_disabled (negsuc n) = true

-- `listAddNodeHead`
abbrev pub add_head : SlowlogEntry × Server → Server
add_head (e, s) = record s { slowlog = e ∷ s.slowlog }

-- the log is cut to its greatest length
abbrev pub cut : Server → Server
cut s = record s { slowlog = trim (length s.slowlog) s.slowlog_max_len s.slowlog }

-- `slowlogPushEntryIfNeeded`
unfoldable pub push_entry_if_needed : (ℕ → Text) → ℕ → List Argument → ℤ → Server → Server
unfolding create_entry trim
push_entry_if_needed decimal now argv duration s =
    if is_disabled s.slowlog_log_slower_than
    then s
    else cut (
        if is_slow s.slowlog_log_slower_than duration
        then add_head (create_entry decimal now argv duration s)
        else s)

-- `slowlogReset`
unfoldable pub slowlog_reset : Server → Server
unfolding trim
slowlog_reset s = record s { slowlog = trim (length s.slowlog) 0 s.slowlog }

pub data Reply : Type 0 where
  ok syntax_error not_an_integer : Reply
  integer : ℕ → Reply
  entries : List SlowlogEntry → Reply

-- `while(count-- && (ln = listNext(&li)))`
unfoldable pub sent_entries : ℤ → List SlowlogEntry → List SlowlogEntry
sent_entries (pos zero) l = []
sent_entries (pos (suc n)) [] = []
sent_entries (pos (suc n)) (e ∷ l) = e ∷ sent_entries (pos n) l
sent_entries (negsuc n) [] = []
sent_entries (negsuc n) (e ∷ l) = e ∷ sent_entries (negsuc (suc n)) l

-- the subcommand that an argument names, by `strcasecmp`
pub data Subcommand : Type 0 where
  reset len get other : Subcommand

-- `slowlogCommand`, with `subcommand` for the texts and `number` for `getLongFromObjectOrReply`
unfoldable pub slowlog_command :
    (Text → Subcommand) → (Text → Option ℤ) → List Text → Server → Server × Reply
unfolding slowlog_reset sent_entries
slowlog_command subcommand number (c ∷ x ∷ []) s = elim (subcommand x) [
  | reset ↦ (slowlog_reset s, ok)
  | len ↦ (s, integer (length s.slowlog))
  | get ↦ (s, entries (sent_entries (pos 10) s.slowlog))
  | other ↦ (s, syntax_error)
]
slowlog_command subcommand number (c ∷ x ∷ n ∷ []) s = elim (subcommand x) [
  | get ↦ elim (number n) [
    | none ↦ (s, not_an_integer)
    | some count ↦ (s, entries (sent_entries count s.slowlog))
  ]
  | _ ↦ (s, syntax_error)
]
slowlog_command subcommand number argv s = (s, syntax_error)
