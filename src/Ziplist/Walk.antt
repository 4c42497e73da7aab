-- ===== src/Ziplist/Walk.antt =====
-- Walking through a ziplist: `ziplistIndex`, `ziplistNext` and `ziplistPrev` on the memory of a list.
use my_node_redis.Prelude.{
  ℕ, zero, suc, ◌+◌, ◌-◌, ◌==◌, Bool, true, false, ◌||◌, if◌then◌else◌, Option, none, some,
}
use my_node_redis.Prelude.Int.{ℤ, pos, negsuc}
use my_node_redis.Memory.{Bytes, read_word}
use my_node_redis.Ziplist.{zip_raw_entry_length}
use my_node_redis.Ziplist.Entry.{zip_entry}

infixl 5 ◌>>=◌
abbrev pub ◌>>=◌ : {A B : Type 0} → Option A → (A → Option B) → Option B
none >>= f = none
some a >>= f = f a

-- ZIPLIST_ENTRY_HEAD and ZIPLIST_ENTRY_TAIL
abbrev pub entry_head : ℕ → ℕ
entry_head zl = zl + 10

abbrev pub entry_tail : ℕ → Bytes → ℕ
entry_tail zl m = zl + read_word 4 m (zl + 4)

-- `while (p[0] != ZIP_END && index--)`: where it stops, and whether the index is above 0 then
unfoldable pub forward : ℕ → ℕ → Bytes → Option (ℕ × Bool)
forward zero p m = some (p, false)
forward (suc i) p m =
    if m p == 255 then some (p, true) else zip_raw_entry_length p m >>= λ l. forward i (p + l) m

-- `while (entry.prevrawlen > 0 && index--)`, with the length of the entry before
unfoldable pub backward : ℕ → ℕ → ℕ → Bytes → Option (ℕ × Bool)
backward zero p prev m = some (p, false)
backward (suc i) p prev m =
    if prev == 0
    then some (p, true)
    else zip_entry (p - prev) m >>= λ e. backward i (p - prev) e.prevrawlen m

-- `(p[0] == ZIP_END || index > 0) ? NULL : p`
abbrev pub found : Bytes → ℕ × Bool → Option ℕ
found m (p, more) = if m p == 255 || more then none else some p

-- `ziplistIndex`; `none` inside is NULL. The index -2 ^ 31, which has no negation, is left out.
unfoldable pub ziplist_index : ℕ → ℤ → Bytes → Option (Option ℕ)
ziplist_index zl (pos i) m = forward i (entry_head zl) m >>= λ r. some (found m r)
ziplist_index zl (negsuc i) m =
    let p = entry_tail zl m in
    (if m p == 255
      then some (p, if i == 0 then false else true)
      else zip_entry p m >>= λ e. backward i p e.prevrawlen m)
    >>= λ r. some (found m r)

-- `ziplistNext`
unfoldable pub ziplist_next : ℕ → Bytes → Option (Option ℕ)
ziplist_next p m =
    if m p == 255
    then some none
    else zip_raw_entry_length p m >>= λ l. some (if m (p + l) == 255 then none else some (p + l))

-- `ziplistPrev`, with its assertion
unfoldable pub ziplist_prev : ℕ → ℕ → Bytes → Option (Option ℕ)
ziplist_prev zl p m =
    if m p == 255
    then (let q = entry_tail zl m in some (if m q == 255 then none else some q))
    else if p == entry_head zl
    then some none
    else zip_entry p m >>= λ e. if e.prevrawlen == 0 then none else some (some (p - e.prevrawlen))
