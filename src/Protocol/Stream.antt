-- ===== src/Protocol/Stream.antt =====
-- Where a client stands that reads a request, on a buffer that holds a part of a stream.
use my_node_redis.Prelude.{
  ℕ, ◌+◌, ◌*◌, ◌≤◌, ◌<◌, ◌≡◌, ◌⊎◌, inl, inr, false, Option, none, some, List, [], ◌∷◌, ◌++◌, length,
  drop, refl, arith,
}
use my_node_redis.Numbers.{Text}
use my_node_redis.Protocol.{
  Client, multibulk, Parsed, done, wait, crash, Step, go, break, fail, trim,
}
use my_node_redis.Protocol.Encode.{crlf, bulks}

abbrev pub AreSmall : List Text → Type 0
AreSmall [] = Unit {0}
AreSmall (a ∷ l) = (length a ≤ 512 * 1024 * 1024) × AreSmall l

-- the bytes that are still to come when the length of the next argument may have been read
abbrev pub body : Option ℕ → List Text → Text → Text
body none args rest = bulks args ++ rest
body (some len) [] rest = rest
body (some len) (a ∷ l) rest = a ++ (crlf ++ (bulks l ++ rest))

-- a length that was read is that of the next argument
abbrev pub Announces : Option ℕ → List Text → Type 0
Announces none args = Unit {0}
Announces (some len) [] = ⊥
Announces (some len) (a ∷ l) = len ≡ length a

-- how much the buffer holds in the loop and between two reads
abbrev pub Room : Option ℕ → ℕ → ℕ → Type 0
Room none offset n = n ≤ 65536
Room (some len) offset n = (n ≤ 65536) ⊎ ((32768 ≤ len) × (offset ≡ 0) × (n ≤ len + 2))

abbrev pub Rest : Option ℕ → ℕ → Type 0
Rest none n = n ≤ 32769
Rest (some len) n = (n ≤ 32769) ⊎ ((32768 ≤ len) × (n < len + 2))

-- The client is neither blocked nor about to be closed, and commands have led to this state.
abbrev pub IsOpen : {S : Type 0} → S → Client S → Type 0
IsOpen s c = (c.blocked ≡ false) × (c.close_after_reply ≡ false) × (c.server ≡ s)

-- `later` is what the client has yet to send, `rest` what stands behind this request, `all` the
-- arguments of the request.
module _ {S : Type 0} (later rest : Text) (all : List Text) (s : S) where
  pub record Reading (o : Option ℕ) (offset : ℕ) (c : Client S) (args : List Text) : Type 0 where
    pub free : IsOpen s c
    pub kind : c.reqtype ≡ some multibulk
    pub known : c.bulklen ≡ o
    pub collected : c.argv ++ args ≡ all
    pub left : c.multibulklen ≡ length args
    pub stream : drop offset c.querybuf ++ later ≡ body o args rest
    pub announces : Announces o args
    pub small : AreSmall args
    pub room : Room o offset (length c.querybuf)

  -- The client waits in the midst of a request.
  pub record Paused (c : Client S) : Type 0 where
    pub o : Option ℕ
    pub args : List Text
    pub reading : Reading o 0 c args
    pub some_left : 0 < length args
    pub held : Rest o (length c.querybuf)
    pub more : 0 < length later

  -- The request is complete.
  pub record Complete (c : Client S) : Type 0 where
    pub free : IsOpen s c
    pub collected : c.argv ≡ all
    pub stream : c.querybuf ++ later ≡ rest
    pub room : length c.querybuf ≤ 65536

  abbrev pub Goes : (ℕ → Client S → Type 0) → Step S → Type 0
  Goes P (go offset c) = P offset c
  Goes P (break offset c) = Paused (trim offset c)
  Goes P (fail c) = ⊥

  abbrev pub Reads : Parsed S → Type 0
  Reads (done c) = Complete c
  Reads (wait c) = Paused c
  Reads crash = ⊥

  Room-Rest : (o : Option ℕ) (n : ℕ) → Rest o n → Room o 0 n
  Room-Rest none n h = omega arith
  Room-Rest (some len) n (inl h) = inl (omega arith)
  Room-Rest (some len) n (inr h) = inr (h.0, refl, omega (arith, h.1))

  pub trim-Paused :
      (o : Option ℕ) (offset : ℕ) (c : Client S) (args : List Text)
      → Reading o offset c args
      → 0 < length args
      → Rest o (length (drop offset c.querybuf))
      → 0 < length later
      → Paused (trim offset c)
  trim-Paused o offset c args r p h m = record {
    o = o;
    args = args;
    reading = record {
      free = r.free;
      kind = r.kind;
      known = r.known;
      collected = r.collected;
      left = r.left;
      stream = r.stream;
      announces = r.announces;
      small = r.small;
      room = Room-Rest o (length (drop offset c.querybuf)) h;
    };
    some_left = p;
    held = h;
    more = m;
  }
