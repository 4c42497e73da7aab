-- ===== src/Protocol/Bulks.antt =====
-- All arguments of a request are read, or the client waits for more of it.
use mathlib.Core.Path.{subst}
use my_node_redis.Prelude.{
  ℕ, Option, none, some, List, [], ◌∷◌, length, length-drop, append-nil, sym, ◌∙◌, arith,
}
use my_node_redis.Numbers.{Text}
use my_node_redis.Protocol.{
  Client, Parsed, Step, go, break, fail, find_bulklen, read_bulklen, read_argument, read_bulk,
  and_then, next_round, read_bulks,
}
use my_node_redis.Protocol.Encode.{bulks}
use my_node_redis.Protocol.Stream.{Reading, Goes, Reads}
use my_node_redis.Protocol.Lengths.{find_bulklen-Goes}
use my_node_redis.Protocol.Arguments.{argument-Goes}

module _ {S : Type 0} (later rest : Text) (all : List Text) (s : S) where
  abbrev Read : Option ℕ → List Text → ℕ → Client S → Type 0
  Read o args offset c = Reading later rest all s o offset c args

  abbrev Leads : (ℕ → Client S → Type 0) → Step S → Type 0
  Leads P t = Goes later rest all s P t

  and_then-Goes :
      (P Q : ℕ → Client S → Type 0) (t : Step S) (f : ℕ → Client S → Step S)
      → Leads P t
      → ((offset : ℕ) (c : Client S) → P offset c → Leads Q (f offset c))
      → Leads Q (and_then t f)
  and_then-Goes P Q (go offset c) f h k = k offset c h
  and_then-Goes P Q (break offset c) f h k = h
  and_then-Goes P Q (fail c) f h k = h

  next_round-Reads :
      (P : ℕ → Client S → Type 0) (t : Step S) (f : ℕ → Client S → Parsed S)
      → Leads P t
      → ((offset : ℕ) (c : Client S) → P offset c → Reads later rest all s (f offset c))
      → Reads later rest all s (next_round t f)
  next_round-Reads P (go offset c) f h k = k offset c h
  next_round-Reads P (break offset c) f h k = h
  next_round-Reads P (fail c) f h k = absurd h

  length-Goes :
      (o : Option ℕ) (offset : ℕ) (c : Client S) (a : Text) (l : List Text)
      → Read o (a ∷ l) offset c
      → Leads (Read (some (length a)) (a ∷ l)) (find_bulklen o offset c)
  length-Goes none offset c a l r = find_bulklen-Goes later rest all s offset c a l r
  length-Goes (some len) offset c a l r =
      unfold find_bulklen in subst (λ k. Read (some k) (a ∷ l) offset c) (r.announces) r

  round-Goes :
      (o : Option ℕ) (offset : ℕ) (c : Client S) (a : Text) (l : List Text)
      → Read o (a ∷ l) offset c
      → Leads (Read none l) (and_then (read_bulklen offset c) read_bulk)
  unfolding read_bulklen read_bulk
  round-Goes o offset c a l r =
      and_then-Goes (Read (some (length a)) (a ∷ l)) (Read none l) (find_bulklen c.bulklen offset c)
        read_bulk
        (subst (λ k. Leads (Read (some (length a)) (a ∷ l)) (find_bulklen k offset c)) (sym r.known)
          (length-Goes o offset c a l r))
        (λ next d t.
          subst (λ k. Leads (Read none l) (read_argument k next d)) (sym t.known)
            (argument-Goes later rest all s next d a l t))

  -- The loop reads all arguments that are left and then stands behind the request, or the buffer
  -- has too little and the client waits.
  pub read_bulks-Reads :
      (args : List Text) (o : Option ℕ) (offset : ℕ) (c : Client S)
      → Read o args offset c
      → Reads later rest all s (read_bulks (length args) offset c)
  unfolding read_bulks
  read_bulks-Reads [] none offset c r = record {
    free = r.free;
    collected = sym (append-nil c.argv) ∙ r.collected;
    stream = unfold bulks in r.stream;
    room = omega (arith, length-drop offset c.querybuf, r.room);
  }
  read_bulks-Reads [] (some len) offset c r = absurd (r.announces)
  read_bulks-Reads (a ∷ l) o offset c r =
      next_round-Reads (Read none l) (and_then (read_bulklen offset c) read_bulk)
        (λ n d. read_bulks (length l) n d) (round-Goes o offset c a l r)
        (λ n d t. read_bulks-Reads l none n d t)
