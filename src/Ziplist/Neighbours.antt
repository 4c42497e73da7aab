-- ===== src/Ziplist/Neighbours.antt =====
-- From an entry of a ziplist to the next one and to the one before.
use my_node_redis.Prelude.{
  ℕ, zero, suc, ◌+◌, ◌-◌, ◌≤◌, ◌<◌, ◌≡◌, ◌==◌, false, some, List, [], ◌∷◌, length, refl, arith, sym,
}
use my_node_redis.Memory.{Bytes}
use my_node_redis.Ziplist.Walk.{entry_head, ziplist_next, ziplist_prev}
use my_node_redis.Ziplist.Index.{HasEntry, Chain, address, IsZiplist}

-- Two entries, one behind the other
record Neighbours (m : Bytes) (low p q : ℕ) : Type 0 where
  before : ℕ
  len : ℕ
  after : ℕ
  first : HasEntry m p before len
  second : HasEntry m q len after
  apart : q ≡ p + len
  above : low ≤ p

chain-Neighbours :
    (i p prev : ℕ) (m : Bytes) (ls : List ℕ)
    → Chain m p prev ls
    → suc i < length ls
    → Neighbours m p (address i p ls) (address (suc i) p ls)
chain-Neighbours i p prev m [] c h = absurd (omega arith)
chain-Neighbours i p prev m (l ∷ []) c h = absurd (omega arith)
chain-Neighbours zero p prev m (l ∷ k ∷ ls) c h = record {
  before = prev;
  len = l;
  after = k;
  first = c.0;
  second = c.1.0;
  apart = refl;
  above = omega arith;
}
chain-Neighbours (suc i) p prev m (l ∷ k ∷ ls) c h =
    let r = chain-Neighbours i (p + l) l m (k ∷ ls) (c.1) (omega arith) in
    record {
      before = r.before;
      len = r.len;
      after = r.after;
      first = r.first;
      second = r.second;
      apart = r.apart;
      above = omega (arith, r.above);
    }

-- In the memory of a ziplist, `ziplistNext` leads from every entry but the last to the entry behind
-- it, and `ziplistPrev` leads from there back; it fails no assertion.
pub ziplist_prev-ziplist_next :
    (zl : ℕ) (m : Bytes) (ls : List ℕ)
    → IsZiplist zl m ls
    → (i : ℕ) → suc i < length ls
    → (ziplist_next (address i (entry_head zl) ls) m
        ≡ some (some (address (suc i) (entry_head zl) ls)))
      × (ziplist_prev zl (address (suc i) (entry_head zl) ls) m
          ≡ some (some (address i (entry_head zl) ls)))
unfolding ziplist_next ziplist_prev
ziplist_prev-ziplist_next zl m ls z i h =
    let n = chain-Neighbours i (entry_head zl) 0 m ls z.chain h in
    let p = address i (entry_head zl) ls in
    let q = address (suc i) (entry_head zl) ls in
    let same : p + n.len ≡ q = sym n.apart in
    let inside : (q == entry_head zl) ≡ false =
      ground (arith, n.apart, n.above, n.first.positive) in
    let some_before : (n.len == 0) ≡ false = ground (arith, n.first.positive) in
    let back : q - n.len ≡ p = omega (arith, n.apart) in
    (
      rw (n.first.more, n.first.raw, same, n.second.more) refl,
      rw (n.second.more, inside, n.second.entry, n.second.before, some_before, back) refl,
    )
