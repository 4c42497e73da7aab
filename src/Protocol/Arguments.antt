-- ===== src/Protocol/Arguments.antt =====
-- The next argument, once its length has been read.
use my_node_redis.Prelude.{
  ℕ, ◌+◌, ◌-◌, ◌*◌, ◌≤◌, ◌<◌, ◌≡◌, inl, inr, ◌==◌, ltb, leb, Bool-cases, true, false, ◌&&◌, Option,
  none, some, List, [], ◌∷◌, ◌++◌, length, length-append, length-drop, take, drop, append_assoc,
  refl, ap, sym, arith, ◌∙◌,
}
use my_node_redis.Numbers.{Text}
use my_node_redis.Protocol.{Client, Step, read_argument, trim}
use my_node_redis.Protocol.Encode.{crlf, bulks}
use my_node_redis.Protocol.Buffers.{drop-drop, drop_eq, drop_all, buffer-starts}
use my_node_redis.Protocol.Stream.{Room, Rest, Reading, Paused, Goes, trim-Paused}

module _ {S : Type 0} (later rest : Text) (all : List Text) (s : S) where
  abbrev Read : Option ℕ → ℕ → Client S → List Text → Type 0
  Read o offset c args = Reading later rest all s o offset c args

  abbrev Leads : (ℕ → Client S → Type 0) → Step S → Type 0
  Leads P t = Goes later rest all s P t

  -- `Read bulk argument` takes the argument, or waits for the rest of it.
  module _ (offset : ℕ) (c : Client S) (a : Text) (l : List Text) where
    abbrev took : Text → Text → Client S
    took arg buffer = record c {
      argv = c.argv ++ arg ∷ [];
      querybuf = buffer;
      bulklen = none;
      multibulklen = c.multibulklen - 1;
    }

    took-Reading :
        (next : ℕ) (arg buffer : Text)
        → Read (some (length a)) offset c (a ∷ l)
        → arg ≡ a
        → drop next buffer ++ later ≡ bulks l ++ rest
        → length buffer ≤ 65536
        → Read none next (took arg buffer) l
    took-Reading next arg buffer r e t h = record {
      free = r.free;
      kind = r.kind;
      known = refl;
      collected = rw e (append_assoc c.argv (a ∷ []) l ∙ r.collected);
      left = omega (arith, r.left);
      stream = t;
      announces = tt;
      small = (r.small).1;
      room = h;
    }

    -- A large argument that fills the buffer has gone the other way.
    small_enough :
        (offset == 0 && leb (1024 * 32) (length a) && length c.querybuf == length a + 2) ≡ false
        → length a + 2 ≤ length (drop offset c.querybuf)
        → Room (some (length a)) offset (length c.querybuf)
        → length c.querybuf ≤ 65536
    small_enough copy enough (inl h) = h
    small_enough copy enough (inr (big, start, h)) =
        absurd (ground (arith, copy, enough, big, start, h, length-drop offset c.querybuf))

    -- what waits of an argument
    argument-Paused :
        Read (some (length a)) offset c (a ∷ l)
        → ltb (length c.querybuf - offset) (length a + 2) ≡ true
        → Paused later rest all s (trim offset c)
    argument-Paused r short =
        let t = drop offset c.querybuf in
        let size : length t < length a + 2 = ground (arith, short, length-drop offset c.querybuf) in
        let held : Rest (some (length a)) (length t) = elim (Bool-cases (leb 32768 (length a))) [
          | inl big ↦ inr (ground arith, size)
          | inr fits ↦ inl (ground (arith, size, fits))
        ] in
        let behind = crlf ++ (bulks l ++ rest) in
        trim-Paused later rest all s (some (length a)) offset c (a ∷ l) r (omega arith) held
          (omega (arith, ap length (r.stream), length-append t later, length-append a behind, size))

    argument-Reading :
        Read (some (length a)) offset c (a ∷ l)
        → ltb (length c.querybuf - offset) (length a + 2) ≡ false
        → Leads (λ o d. Read none o d l) (read_argument (some (length a)) offset c)
    unfolding read_argument
    argument-Reading r whole =
        let t = drop offset c.querybuf in
        let behind = bulks l ++ rest in
        let enough : length a + 2 ≤ length t =
          ground (arith, whole, length-drop offset c.querybuf) in
        let first = buffer-starts a t later (crlf ++ behind) (r.stream) (omega arith) in
        let both =
          buffer-starts (a ++ crlf) t later behind (r.stream ∙ sym (append_assoc a crlf behind))
            (omega (arith, length-append a crlf)) in
        let size = length-append a crlf in
        elim (Bool-cases
          (offset == 0 && leb (1024 * 32) (length a) && length c.querybuf == length a + 2)) [
            | inl front ↦
                let start : offset ≡ 0 = ground (arith, front) in
                let all_of_it : drop (length (a ++ crlf)) t ≡ [] =
                  drop_all _ t (ground (arith, front, size, length-drop offset c.querybuf)) in
                rw (whole, front)
                  (took-Reading 0 (take (length a) c.querybuf) [] r (rw start at (first.0))
                    (rw all_of_it at (both.1)) (omega arith))
            | inr copy ↦
                let next : drop (offset + length a + 2) c.querybuf ≡ drop (length (a ++ crlf)) t =
                  drop_eq c.querybuf (omega (arith, size))
                  ∙ drop-drop offset (length (a ++ crlf)) c.querybuf in
                rw (whole, copy)
                  (took-Reading (offset + length a + 2) (take (length a) t) c.querybuf r (first.0)
                    (rw next (both.1)) (small_enough copy enough (r.room)))
          ]

    pub argument-Goes :
        Read (some (length a)) offset c (a ∷ l)
        → Leads (λ o d. Read none o d l) (read_argument (some (length a)) offset c)
    argument-Goes r = elim (Bool-cases (ltb (length c.querybuf - offset) (length a + 2))) [
      | inl short ↦ unfold read_argument in rw short (argument-Paused r short)
      | inr whole ↦ argument-Reading r whole
    ]
