-- ===== src/Protocol/Lengths.antt =====
-- The line with the length of the next argument.
use my_node_redis.Prelude.{
  ℕ, ◌+◌, ◌*◌, ◌≡◌, inl, inr, ltb, leb, Bool-cases, true, false, ◌||◌, Option, none, some, List,
  ◌∷◌, ◌++◌, length, length-drop, drop, append_assoc, refl, arith, ◌∙◌,
}
use my_node_redis.Prelude.Int.{pos, ltb_ℤ}
use my_node_redis.Numbers.{Text}
use my_node_redis.Protocol.{
  Client, Step, set_bulklen, check_bulklen, read_length_line, find_bulklen,
}
use my_node_redis.Protocol.Encode.{crlf, length_line, bulks}
use my_node_redis.Protocol.Buffers.{drop-drop, drop_eq}
use my_node_redis.Protocol.Header.{IsCut, IsWhole, length_line-cases}
use my_node_redis.Protocol.Stream.{Reading, Goes, trim-Paused}

module _ {S : Type 0} (later rest : Text) (all : List Text) (s : S) where
  abbrev Read : Option ℕ → ℕ → Client S → List Text → Type 0
  Read o offset c args = Reading later rest all s o offset c args

  abbrev Leads : (ℕ → Client S → Type 0) → Step S → Type 0
  Leads P t = Goes later rest all s P t

  -- the stream behind a length line
  bulks-cons :
      (a : Text) (l : List Text)
      → bulks (a ∷ l) ++ rest ≡ length_line b'$' (length a) ++ (a ++ (crlf ++ (bulks l ++ rest)))
  unfolding bulks
  bulks-cons a l = simp append_assoc

  module _ (offset : ℕ) (c : Client S) (a : Text) (l : List Text) where
    set_bulklen-Goes :
        (next : ℕ)
        → Read none offset c (a ∷ l)
        → drop next c.querybuf ++ later ≡ a ++ (crlf ++ (bulks l ++ rest))
        → Leads (λ o d. Read (some (length a)) o d (a ∷ l)) (set_bulklen (length a) next c)
    unfolding set_bulklen
    set_bulklen-Goes next r e = elim (Bool-cases (leb (1024 * 32) (length a))) [
      | inl big ↦ rw big (record {
        free = r.free;
        kind = r.kind;
        known = refl;
        collected = r.collected;
        left = r.left;
        stream = e;
        announces = refl;
        small = r.small;
        room = inl (omega (arith, length-drop next c.querybuf, r.room));
      })
      | inr fits ↦ rw fits (record {
        free = r.free;
        kind = r.kind;
        known = refl;
        collected = r.collected;
        left = r.left;
        stream = e;
        announces = refl;
        small = r.small;
        room = inl (r.room);
      })
    ]

    cut-Goes :
        Read none offset c (a ∷ l)
        → IsCut (drop offset c.querybuf) later
        → Leads (λ o d. Read (some (length a)) o d (a ∷ l)) (find_bulklen none offset c)
    unfolding find_bulklen read_length_line
    cut-Goes r cut =
        let wait =
          trim-Paused later rest all s none offset c (a ∷ l) r (omega arith)
            (omega (arith, cut.short)) (cut.more) in
        let size = length-drop offset c.querybuf in
        elim (cut.absent) [
          | inl absent ↦
              let room : ltb (1024 * 64) (length c.querybuf) ≡ false = ground (arith, r.room) in
              rw (absent, room) wait
          | inr (i, found, short) ↦
              let cut_off : ltb (length c.querybuf) (offset + i + 2) ≡ true =
                ground (arith, short, size) in
              rw (found, cut_off) wait
        ]

    whole-Goes :
        Read none offset c (a ∷ l)
        → IsWhole b'$' (length a) (drop offset c.querybuf) later (a ++ (crlf ++ (bulks l ++ rest)))
        → Leads (λ o d. Read (some (length a)) o d (a ∷ l)) (find_bulklen none offset c)
    unfolding find_bulklen read_length_line check_bulklen
    whole-Goes r w =
        let size = length-drop offset c.querybuf in
        let fits : ltb (length c.querybuf) (offset + w.end + 2) ≡ false =
          ground (arith, w.fits, size) in
        let in_range : (ltb_ℤ (pos (length a)) (pos 0)
              || ltb_ℤ (pos (512 * 1024 * 1024)) (pos (length a)))
            ≡ false =
          ground (arith, r.small) in
        let at_end : drop (offset + w.end + 2) c.querybuf
            ≡ drop (w.end + 2) (drop offset c.querybuf) =
          drop_eq c.querybuf (omega arith) ∙ drop-drop offset (w.end + 2) c.querybuf in
        let set = set_bulklen-Goes (offset + w.end + 2) r (rw at_end (w.left)) in
        rw (w.found, fits, w.marked, drop-drop offset 1 c.querybuf, w.reads, in_range) set

    pub find_bulklen-Goes :
        Read none offset c (a ∷ l)
        → Leads (λ o d. Read (some (length a)) o d (a ∷ l)) (find_bulklen none offset c)
    find_bulklen-Goes r =
        elim (length_line-cases b'$' (length a) later (a ++ (crlf ++ (bulks l ++ rest)))
          (omega (arith, r.small)) refl refl (drop offset c.querybuf) (r.stream ∙ bulks-cons a l)) [
            | inl cut ↦ cut-Goes r cut
            | inr whole ↦ whole-Goes r whole
          ]
