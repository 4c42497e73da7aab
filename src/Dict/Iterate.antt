-- ===== src/Dict/Iterate.antt =====
-- `dictIterator`: `passed` is `index + 1`, `second` is `table == 1`, and a pointer to an entry is the
-- rest of its chain from there on, which is empty for NULL. The dictionary is threaded through.
use my_node_redis.Prelude.{
  ℕ, zero, suc, ◌+◌, ◌-◌, leb, ◌==◌, ◌&&◌, not, if◌then◌else◌, Bool, true, false, Option, none,
  some, [], ◌∷◌,
}
use my_node_redis.Dict.Chains.{Chain}
use my_node_redis.Dict.{Dict, is_rehashing}

pub record Iterator {ℓ} (K V : Type ℓ) : Type ℓ where
  pub second : Bool
  pub passed : ℕ
  pub safe : Bool
  pub entry : Chain K V
  pub next_entry : Chain K V

module _ {ℓ} {K V : Type ℓ} where
  -- `dictGetIterator` and `dictGetSafeIterator`
  unfoldable pub get_iterator : Bool → Iterator K V
  get_iterator safe = record {
    second = false;
    passed = 0;
    safe = safe;
    entry = [];
    next_entry = [];
  }

  -- `iter->index == -1 && iter->table == 0`
  abbrev pub at_start : Iterator K V → Bool
  at_start i = i.passed == 0 && not i.second

  abbrev pub size_of : Dict K V → Bool → ℕ
  size_of d second = if second then d.ht1.size else d.ht0.size

  abbrev pub bucket : Dict K V → Bool → ℕ → Chain K V
  bucket d second index = if second then d.ht1.slots index else d.ht0.slots index

  -- the move to the next bucket; false is the `break`
  unfoldable pub advance : Dict K V → Iterator K V → (Dict K V × Iterator K V) × Bool
  advance d i =
      let d' = if i.safe && at_start i then record d { iterators = d.iterators + 1 } else d in
      if leb (size_of d i.second) i.passed
      then if is_rehashing d && not i.second
        then ((d', record i { second = true; passed = 1; entry = bucket d true 0 }), true)
        else ((d', record i { passed = i.passed + 1 }), false)
      else ((d', record i { passed = i.passed + 1; entry = bucket d i.second i.passed }), true)

  -- the bottom of the loop: the entry that is returned, if there is one
  abbrev pub found_entry : Iterator K V → Option ((K × V) × Iterator K V)
  found_entry i = elim (i.entry) [ [] ↦ none | e ∷ c ↦ some (e, record i { next_entry = c }) ]

  -- the top of the loop
  abbrev pub to_entry : Dict K V → Iterator K V → (Dict K V × Iterator K V) × Bool
  to_entry d i = elim (i.entry) [
    | [] ↦ advance d i
    | e ∷ c ↦ ((d, record i { entry = i.next_entry }), true)
  ]

  -- `dictNext`; the fuel counts the buckets that are passed, and the entry is `none` for NULL
  unfoldable pub next : ℕ → Dict K V → Iterator K V → Option (K × V) × (Dict K V × Iterator K V)
  next zero d i = (none, (d, i))
  next (suc n) d i =
      let ((d', i'), go) = to_entry d i in
      elim go [
        | false ↦ (none, (d', i'))
        | true ↦ elim (found_entry i') [ some (e, i'') ↦ (some e, (d', i'')) | none ↦ next n d' i' ]
      ]

  -- `dictReleaseIterator`
  unfoldable pub release : Dict K V → Iterator K V → Dict K V
  release d i = if i.safe && not (at_start i) then record d { iterators = d.iterators - 1 } else d
