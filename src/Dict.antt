-- ===== src/Dict.antt =====
-- redis/src/dict.c: a chained hash table that is resized incrementally. While `rehashidx` is set
-- the entries of the buckets below it have moved from `ht0` (`d->ht[0]`) to `ht1` (`d->ht[1]`).
-- A chain of `dictEntry` nodes is the list of its entries, head first, and an array of buckets is a
-- function of the index; `table == NULL` holds exactly when `size` is 0. A key and its duplicate
-- by `keyDup` are the same value, and so for `valDup`; destructors have no effect on the table.
-- Sizes and counts are size_t (64 bits), hashes are unsigned int (32 bits).
pub mod Chains
pub mod Lookup
pub mod Invariant
pub mod Rehash
pub mod Find
pub mod Expand
pub mod Write
pub mod Add
pub mod Replace
pub mod Delete
pub mod Empty
pub mod Hash
pub mod Iterate
pub mod Tests
use Prim.Native.Nat.{bit_and}
use my_node_redis.Prelude.{
  ℕ, zero, suc, ◌+◌, ◌-◌, ◌*◌, ◌/◌, ◌%◌, ◌^◌, ltb, leb, ◌==◌, ◌&&◌, ◌||◌, not, if◌then◌else◌, Bool,
  true, false, Option, none, some, List, [], ◌∷◌, length,
}
use my_node_redis.Dict.Chains.{
  DictType, Chain, Slots, push, assign, chain_find, erase, move_chain, update,
}

pub record Table {ℓ} (K V : Type ℓ) : Type ℓ where
  pub slots : Slots K V
  pub size : ℕ
  pub sizemask : ℕ
  pub used : ℕ

-- `rehashidx` is `none` for -1.
pub record Dict {ℓ} (K V : Type ℓ) : Type ℓ where
  pub ht0 : Table K V
  pub ht1 : Table K V
  pub rehashidx : Option ℕ
  pub iterators : ℕ

abbrev pub initial_size : ℕ
initial_size = 4

-- The server is built for Windows, where a long has 32 bits.
abbrev pub long_max : ℕ
long_max = 2 ^ 31 - 1

abbrev pub force_resize_ratio : ℕ
force_resize_ratio = 5

-- the int `minimal`; it is negative from 2 ^ 31 on
abbrev pub minimal : ℕ → ℕ
minimal used =
    let low : ℕ = used % 2 ^ 32 in
    if leb (2 ^ 31) low || ltb low initial_size then initial_size else low

-- `while(1) { if (i >= size) return i; i *= 2; }`
unfoldable pub next_power_loop : ℕ → ℕ → ℕ → ℕ
next_power_loop zero size i = i
next_power_loop (suc fuel) size i =
    let rest = next_power_loop fuel size (i * 2 % 2 ^ 64) in if leb size i then i else rest

unfoldable pub next_power : ℕ → ℕ
next_power size = if leb long_max size then long_max else next_power_loop 30 size initial_size

-- `rehashidx != -1`
abbrev pub is_some : Option ℕ → Bool
is_some none = false
is_some (some i) = true

abbrev pub position : Option ℕ → ℕ
position none = 0
position (some i) = i

module _ {ℓ} {K V : Type ℓ} where
  -- `_dictReset`
  unfoldable pub reset : Table K V
  reset = record { slots = λ i. []; size = 0; sizemask = 0; used = 0 }

  -- `dictCreate` and `_dictInit`
  unfoldable pub create : Dict K V
  unfolding reset
  create = record { ht0 = reset; ht1 = reset; rehashidx = none; iterators = 0 }

  abbrev pub is_rehashing : Dict K V → Bool
  is_rehashing d = is_some d.rehashidx

  -- `dictSize`
  abbrev pub dict_size : Dict K V → ℕ
  dict_size d = d.ht0.used + d.ht1.used

  abbrev pub fresh : ℕ → Table K V
  fresh n = record { slots = λ i. []; size = n; sizemask = n - 1; used = 0 }

  -- `dictExpand`; true is DICT_OK
  unfoldable pub expand : Dict K V → ℕ → Dict K V × Bool
  expand d size =
      if is_rehashing d || ltb size d.ht0.used
      then (d, false)
      else if d.ht0.size == 0
      then (record d { ht0 = fresh (next_power size) }, true)
      else (record d { ht1 = fresh (next_power size); rehashidx = some 0 }, true)

  -- `dictResize`; `can_resize` is the global `dict_can_resize`
  unfoldable pub resize : Bool → Dict K V → Dict K V × Bool
  resize can_resize d =
      if not can_resize || is_rehashing d then (d, false) else expand d (minimal d.ht0.used)

  -- `_dictExpandIfNeeded`
  unfoldable pub expand_if_needed : Bool → Dict K V → Dict K V × Bool
  expand_if_needed can_resize d =
      if is_rehashing d
      then (d, true)
      else if d.ht0.size == 0
      then expand d initial_size
      else if leb d.ht0.size d.ht0.used
          && (can_resize || ltb force_resize_ratio (d.ht0.used / d.ht0.size))
      then expand d ((if ltb d.ht0.used d.ht0.size then d.ht0.size else d.ht0.used) * 2 % 2 ^ 64)
      else (d, true)

  -- `while(d->ht[0].table[d->rehashidx] == NULL) d->rehashidx++`
  unfoldable pub skip_empty : ℕ → Slots K V → ℕ → ℕ
  skip_empty zero t i = i
  skip_empty (suc fuel) t i = elim (t i) [ [] ↦ skip_empty fuel t (i + 1) | e ∷ c ↦ i ]

  -- `_dictClear`: the table that is left; the entries are freed.
  unfoldable pub clear : Table K V → Table K V
  unfolding reset
  clear t = reset

  -- `dictEmpty`
  unfoldable pub empty : Dict K V → Dict K V
  unfolding clear
  empty d = record { ht0 = clear d.ht0; ht1 = clear d.ht1; rehashidx = none; iterators = 0 }

module _ {ℓ} {K V : Type ℓ} (type : DictType K) where
  -- `dictHashKey(d, key) & sizemask`
  abbrev pub index : Table K V → K → ℕ
  index t k = bit_and (type.hash k) t.sizemask

  abbrev pub chain_of : Table K V → K → Chain K V
  chain_of t k = t.slots (index t k)

  -- one round of the loop of `dictRehash`, behind the test that `ht[0].used` is not 0
  unfoldable pub move_bucket : Dict K V → ℕ → Dict K V
  move_bucket d start =
      let i = skip_empty d.ht0.size d.ht0.slots start in
      let c = d.ht0.slots i in
      record d {
        ht0 = record (d.ht0) { slots = update d.ht0.slots i []; used = d.ht0.used - length c };
        ht1 = record (d.ht1) {
          slots = move_chain type d.ht1.sizemask c d.ht1.slots;
          used = d.ht1.used + length c;
        };
        rehashidx = some (i + 1);
      }

  -- `while(n--)` of `dictRehash`; false is its early 0, when nothing is left to move. The assertion
  -- that `rehashidx` is below the size, and the width of this int, are left out.
  unfoldable pub rehash_loop : ℕ → Dict K V → Dict K V × Bool
  rehash_loop zero d = (d, true)
  rehash_loop (suc n) d =
      let rest = rehash_loop n (move_bucket d (position d.rehashidx)) in
      if d.ht0.used == 0
      then (record d { ht0 = d.ht1; ht1 = reset; rehashidx = none }, false)
      else rest

  -- `dictRehash`
  unfoldable pub rehash : Dict K V → ℕ → Dict K V × Bool
  rehash d n = if is_rehashing d then rehash_loop n d else (d, false)

  -- `if (dictIsRehashing(d)) _dictRehashStep(d)`
  unfoldable pub rehash_step : Dict K V → Dict K V
  rehash_step d = if is_rehashing d then if d.iterators == 0 then (rehash d 1).0 else d else d

  -- the loop over the two tables, `table = 0, 1`
  unfoldable pub find_in : Dict K V → K → Option V
  find_in d k = elim (chain_find type k (chain_of d.ht0 k)) [
    | some v ↦ some v
    | none ↦ if is_rehashing d then chain_find type k (chain_of d.ht1 k) else none
  ]

  -- `dictFind` and `dictFetchValue`: the value of the entry, and the table after the step
  unfoldable pub find : Dict K V → K → Option V × Dict K V
  find d k = if d.ht0.size == 0 then (none, d) else let d' = rehash_step d in (find_in d' k, d')

  -- `_dictKeyIndex` behind the expansion: `none` is -1
  unfoldable pub free_index : Dict K V → K → Option ℕ
  free_index d k = elim (find_in d k) [
    | some v ↦ none
    | none ↦ some (if is_rehashing d then index d.ht1 k else index d.ht0 k)
  ]

  unfoldable pub key_index : Bool → Dict K V → K → Option ℕ × Dict K V
  key_index can_resize d k =
      let (d', ok) = expand_if_needed can_resize d in (if ok then free_index d' k else none, d')

  -- the insertion at the end of `dictAddRaw`, the value set by its caller
  unfoldable pub insert_entry : Dict K V → ℕ → K × V → Dict K V
  insert_entry d i e =
      if is_rehashing d
      then record d { ht1 = record (d.ht1) { slots = push d.ht1.slots i e; used = d.ht1.used + 1 } }
      else record d { ht0 = record (d.ht0) { slots = push d.ht0.slots i e; used = d.ht0.used + 1 } }

  -- `dictAdd` and `dictAddRaw`; true is DICT_OK
  unfoldable pub add : Bool → Dict K V → K → V → Dict K V × Bool
  add can_resize d k v =
      let (slot, d') = key_index can_resize (rehash_step d) k in
      elim slot [ none ↦ (d', false) | some i ↦ (insert_entry d' i (k, v), true) ]

  -- `dictSetVal` on the entry that `dictFind` returned
  unfoldable pub set_val : Dict K V → K → V → Dict K V
  set_val d k v = elim (chain_find type k (chain_of d.ht0 k)) [
    | some old ↦ record d {
      ht0 = record (d.ht0) {
        slots = update d.ht0.slots (index d.ht0 k) (assign type k v (chain_of d.ht0 k));
      };
    }
    | none ↦ record d {
      ht1 = record (d.ht1) {
        slots = update d.ht1.slots (index d.ht1 k) (assign type k v (chain_of d.ht1 k));
      };
    }
  ]

  -- `dictReplace`; true is 1, the key was new
  unfoldable pub replace : Bool → Dict K V → K → V → Dict K V × Bool
  replace can_resize d k v =
      let (d1, added) = add can_resize d k v in
      if added then (d1, true) else (set_val (find d1 k).1 k v, false)

  abbrev pub without : Table K V → K → Table K V
  without t k = record t {
    slots = update t.slots (index t k) (erase type k (chain_of t k));
    used = t.used - 1;
  }

  -- the loop over the two tables of `dictGenericDelete`
  unfoldable pub delete_in : Dict K V → K → Dict K V × Bool
  delete_in d k = elim (chain_find type k (chain_of d.ht0 k)) [
    | some v ↦ (record d { ht0 = without d.ht0 k }, true)
    | none ↦
        if is_rehashing d
        then elim (chain_find type k (chain_of d.ht1 k)) [
          | some v ↦ (record d { ht1 = without d.ht1 k }, true)
          | none ↦ (d, false)
        ]
        else (d, false)
  ]

  -- `dictDelete` and `dictDeleteNoFree`; true is DICT_OK
  unfoldable pub delete : Dict K V → K → Dict K V × Bool
  delete d k = if d.ht0.size == 0 then (d, false) else delete_in (rehash_step d) k
