-- ===== src/Ziplist/Index.antt =====
-- What `ziplistIndex` finds in the memory of a list.
use my_node_redis.Prelude.{
  ℕ, zero, suc, ◌+◌, ◌-◌, ◌≤◌, ◌<◌, ◌≡◌, ◌==◌, ltb, leb, Bool, Bool-cases, true, false,
  if◌then◌else◌, none, some, List, [], ◌∷◌, length, inl, inr, refl, arith, ap, ◌∙◌,
}
use my_node_redis.Prelude.Int.{pos, negsuc}
use my_node_redis.Memory.{Bytes}
use my_node_redis.Ziplist.{zip_raw_entry_length}
use my_node_redis.Ziplist.Entry.{Zlentry, zip_entry}
use my_node_redis.Ziplist.Walk.{entry_head, entry_tail, forward, backward, found, ziplist_index}

-- There is an entry at an address, of this length and with this length before it.
pub record HasEntry (m : Bytes) (p prev len : ℕ) : Type 0 where
  pub parts : Zlentry
  pub entry : zip_entry p m ≡ some parts
  pub before : parts.prevrawlen ≡ prev
  pub raw : zip_raw_entry_length p m ≡ some len
  pub more : (m p == 255) ≡ false
  pub positive : 0 < len

-- Entries of these lengths follow one another, up to the end.
abbrev pub Chain : Bytes → ℕ → ℕ → List ℕ → Type 0
Chain m p prev [] = (m p == 255) ≡ true
Chain m p prev (l ∷ ls) = HasEntry m p prev l × Chain m (p + l) l ls

-- the address of the entry at an index
abbrev pub address : ℕ → ℕ → List ℕ → ℕ
address zero p ls = p
address (suc i) p [] = p
address (suc i) p (l ∷ ls) = address i (p + l) ls

-- A ziplist whose entries have these lengths: the tail is the last entry, or the end of an empty list.
pub record IsZiplist (zl : ℕ) (m : Bytes) (ls : List ℕ) : Type 0 where
  pub chain : Chain m (entry_head zl) 0 ls
  pub tail : entry_tail zl m ≡ address (length ls - 1) (entry_head zl) ls

forward-found :
    (i p prev : ℕ) (m : Bytes) (ls : List ℕ)
    → Chain m p prev ls
    → (r : ℕ × Bool) × (forward i p m ≡ some r)
      × (found m r ≡ (if ltb i (length ls) then some (address i p ls) else none))
unfolding forward
forward-found zero p prev m [] c = ((p, false), refl, rw c refl)
forward-found zero p prev m (l ∷ ls) c = ((p, false), refl, rw ((c.0).more) (ground arith))
forward-found (suc i) p prev m [] c = ((p, true), rw c refl, rw c (ground arith))
forward-found (suc i) p prev m (l ∷ ls) c =
    let (r, done, at) = forward-found i (p + l) l m ls (c.1) in
    (r, rw ((c.0).more, (c.0).raw) done, at ∙ ground arith)

-- The entries before an address, the nearest first
abbrev Back : Bytes → ℕ → ℕ → List ℕ → Type 0
Back m p prev [] = prev ≡ 0
Back m p prev (l ∷ ls) =
    (prev ≡ l) × (l ≤ p) × ((before : ℕ) × HasEntry m (p - l) before l × Back m (p - l) before ls)

-- the address so many entries back
abbrev back_address : ℕ → ℕ → List ℕ → ℕ
back_address zero p ls = p
back_address (suc i) p [] = p
back_address (suc i) p (l ∷ ls) = back_address i (p - l) ls

backward-found :
    (i p prev : ℕ) (m : Bytes) (ls : List ℕ)
    → (m p == 255) ≡ false
    → Back m p prev ls
    → (r : ℕ × Bool) × (backward i p prev m ≡ some r)
      × (found m r ≡ (if ltb i (suc (length ls)) then some (back_address i p ls) else none))
unfolding backward
backward-found zero p prev m ls here b = ((p, false), refl, rw here (ground arith))
backward-found (suc i) p prev m [] here b = ((p, true), rw b refl, rw here (ground arith))
backward-found (suc i) p prev m (l ∷ ls) here b =
    let (before, e, rest) = b.2 in
    let (r, done, at) = backward-found i (p - l) before m ls e.more rest in
    let some_before : (prev == 0) ≡ false = ground (arith, b.0, e.positive) in
    (r, rw (some_before, b.0, e.entry, e.before) done, at ∙ ground arith)

-- The last entry of a chain, and the entries before it
record Last (m : Bytes) (p l : ℕ) (ls bs : List ℕ) : Type 0 where
  prev : ℕ
  len : ℕ
  behind : List ℕ
  entry : HasEntry m (address (length ls) p (l ∷ ls)) prev len
  back : Back m (address (length ls) p (l ∷ ls)) prev behind
  total : length behind ≡ length ls + length bs
  near :
      (k : ℕ)
      → k ≤ length ls
      → back_address k (address (length ls) p (l ∷ ls)) behind ≡ address (length ls - k) p (l ∷ ls)
  far :
      (j : ℕ)
      → back_address (length ls + j) (address (length ls) p (l ∷ ls)) behind ≡ back_address j p bs

one-Back :
    (m : Bytes) (p prev l : ℕ) (bs : List ℕ)
    → HasEntry m p prev l
    → Back m p prev bs
    → Back m (p + l) l (l ∷ bs)
one-Back m p prev l bs e b =
    let same : p + l - l ≡ p = omega arith in (refl, omega arith, (prev, rw same e, rw same b))

chain-Last :
    (m : Bytes) (p prev l : ℕ) (ls bs : List ℕ)
    → Chain m p prev (l ∷ ls)
    → Back m p prev bs
    → Last m p l ls bs
chain-Last m p prev l [] bs c b = record {
  prev = prev;
  len = l;
  behind = bs;
  entry = c.0;
  back = b;
  total = omega arith;
  near = λ k h. let z : k ≡ 0 = omega (arith, h) in rw z refl;
  far = λ j. ap (λ i. back_address i p bs) (omega arith);
}
chain-Last m p prev l (k ∷ ls) bs c b =
    let r = chain-Last m (p + l) l k ls (l ∷ bs) (c.1) (one-Back m p prev l bs (c.0) b) in
    record {
      prev = r.prev;
      len = r.len;
      behind = r.behind;
      entry = r.entry;
      back = r.back;
      total = r.total ∙ omega arith;
      near = λ i h. elim (Bool-cases (leb i (length ls))) [
        | inl inside ↦
            let next : suc (length ls) - i ≡ suc (length ls - i) = ground arith in
            r.near i (ground arith) ∙ rw next refl
        | inr first ↦
            let e : i ≡ length ls + 1 = ground (arith, h) in
            let z : suc (length ls) - i ≡ 0 = omega arith in
            let q = address (length ls) (p + l) (k ∷ ls) in
            rw z (ap (λ x. back_address x q r.behind) e ∙ r.far 1 ∙ omega arith)
      ];
      far = λ j.
          let q = address (length ls) (p + l) (k ∷ ls) in
          ap (λ x. back_address x q r.behind) (omega arith)
          ∙ r.far (suc j)
          ∙ ap (λ x. back_address j x bs) (omega arith);
    }

-- In the memory of a ziplist, a chain of entries from the head to the end byte where each entry
-- holds the length of the one before and the tail offset leads to the last, `ziplistIndex` gives
-- the address of the entry at an index, counted from the end for a negative one, and NULL for an
-- index behind either end; it fails no assertion.
pub ziplist_index_lem :
    (zl : ℕ) (m : Bytes) (ls : List ℕ)
    → IsZiplist zl m ls
    → (i : ℕ)
    → (ziplist_index zl (pos i) m
        ≡ some (if ltb i (length ls) then some (address i (entry_head zl) ls) else none))
      × (ziplist_index zl (negsuc i) m
          ≡ some (
              if ltb i (length ls)
              then some (address (length ls - 1 - i) (entry_head zl) ls)
              else none))
unfolding ziplist_index
ziplist_index_lem zl m [] z i =
    let (r, done, at) = forward-found i (entry_head zl) 0 m [] z.chain in
    (rw done (ap (λ x. some x) at), rw (z.tail, z.chain, z.chain) (ground arith))
ziplist_index_lem zl m (l ∷ ls) z i =
    let (r, done, at) = forward-found i (entry_head zl) 0 m (l ∷ ls) z.chain in
    let last = chain-Last m (entry_head zl) 0 l ls [] z.chain refl in
    let q = address (length ls) (entry_head zl) (l ∷ ls) in
    let tail : entry_tail zl m ≡ q =
      z.tail ∙ ap (λ k. address k (entry_head zl) (l ∷ ls)) (omega arith) in
    let (b, back, here) = backward-found i q last.prev m last.behind last.entry.more last.back in
    let same_count : suc (length last.behind) ≡ suc (length ls) = omega (arith, last.total) in
    let meant : (if ltb i (suc (length ls)) then some (back_address i q last.behind) else none) ≡ (
        if ltb i (suc (length ls))
        then some (address (suc (length ls) - 1 - i) (entry_head zl) (l ∷ ls))
        else none) =
      elim (Bool-cases (ltb i (suc (length ls)))) [
        | inr past ↦ rw past refl
        | inl inside ↦
            let less : suc (length ls) - 1 - i ≡ length ls - i = omega arith in
            rw (inside, less) (ap (λ x. some x) (last.near i (ground arith)))
      ] in
    (
      rw done (ap (λ x. some x) at),
      rw (tail, last.entry.more, last.entry.entry, last.entry.before, back)
          (ap (λ x. some x) (here ∙ rw same_count meant)),
    )
