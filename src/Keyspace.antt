-- ===== src/Keyspace.antt =====
-- redis/src/db.c: the keys of a database with their values and the times at which they expire. A
-- client works on one database; the time that `mstime` gives is an argument. `none` is an assertion
-- that fails.
pub mod Table
pub mod Commands
pub mod Expiry
pub mod Lookups
pub mod Linked
pub mod Steps
pub mod Effects
pub mod Rename
pub mod Tests
use my_node_redis.Prelude.{
  ℕ, suc, ◌+◌, ◌-◌, ◌*◌, ◌/◌, ◌==◌, ◌&&◌, ◌||◌, not, ltb, leb, Bool, true, false, if◌then◌else◌,
  Option, none, some, List, [], ◌∷◌, ◌++◌, length,
}
use my_node_redis.Prelude.Int.{ℤ, pos, negsuc, pos_part, neg_part, ltb_ℤ, leb_ℤ, eqb_ℤ}
use my_node_redis.Prelude.Equality.{Eq, ◌=?◌}
use my_node_redis.Memory.{to_word, of_word}
use my_node_redis.Keyspace.Table.{find, insert, remove, has}

-- what other parts of the server see: `signalModifiedKey`, and the DEL of `propagateExpire`
pub data Event (K : Type 0) : Type 0 where
  modified : K → Event K
  flushed : Event K
  propagated_del : K → Event K

-- `dict` and `expires` of the database, and what the code uses of the server: `loading`,
-- `masterhost != NULL`, `dirty`, `stat_expiredkeys`, `stat_keyspace_hits` and `stat_keyspace_misses`
pub record Keyspace (K V : Type 0) : Type 0 where
  pub dict : List (K × V)
  pub expires : List (K × ℤ)
  pub loading : Bool
  pub slave : Bool
  pub dirty : ℕ
  pub expired_keys : ℕ
  pub hits : ℕ
  pub misses : ℕ
  pub log : List (Event K)

pub data Answer : Type 0 where
  ok_reply same_object no_key : Answer
  number : ℤ → Answer

-- `none` is an assertion that fails.
abbrev pub M : Type 0 → Type 0 → Type 0 → Type 0
M K V A = Keyspace K V → Option (A × Keyspace K V)

abbrev pub chain :
    {K V A B : Type 0} → Option (A × Keyspace K V) → (A → M K V B) → Option (B × Keyspace K V)
chain none f = none
chain (some (a, s)) f = f a s

infixl 5 ◌>>=◌ ◌>>◌
abbrev pub ◌>>=◌ : {K V A B : Type 0} → M K V A → (A → M K V B) → M K V B
◌>>=◌ m f s = chain (m s) f

abbrev pub ◌>>◌ : {K V A B : Type 0} → M K V A → M K V B → M K V B
m >> n = m >>= λ _. n

abbrev pub pure : {K V A : Type 0} → A → M K V A
pure a s = some (a, s)

abbrev pub get : {K V : Type 0} → M K V (Keyspace K V)
get s = some (s, s)

abbrev pub signal : {K V : Type 0} → Event K → M K V (Unit {0})
signal e s = some (tt, record s { log = s.log ++ e ∷ [] })

-- `server.dirty++`
abbrev pub count_change : {K V : Type 0} → M K V (Unit {0})
count_change s = some (tt, record s { dirty = s.dirty + 1 })

abbrev pub with_state : {S A : Type 0} → S → Option A → Option (A × S)
with_state s none = none
with_state s (some a) = some (a, s)

-- the time that is stored, with the check that the key is there
abbrev pub time_of : Bool → Option ℤ → Option ℤ
time_of present none = some (negsuc 0)
time_of present (some when) = if present then some when else none

module _ {K V : Type 0} ⦃e : Eq K⦄ where
  -- `dbExists`
  abbrev pub db_exists : K → Keyspace K V → Bool
  db_exists k s = has k s.dict

  -- `dbAdd`
  unfoldable pub db_add : K → V → M K V (Unit {0})
  db_add k v s = if has k s.dict then none else some (tt, record s { dict = insert k v s.dict })

  -- `dbOverwrite`
  unfoldable pub db_overwrite : K → V → M K V (Unit {0})
  db_overwrite k v s =
      if has k s.dict then some (tt, record s { dict = insert k v s.dict }) else none

  -- `dbDelete`
  unfoldable pub db_delete : K → M K V Bool
  db_delete k s = some (
    has k s.dict,
    record s {
      dict = remove k s.dict;
      expires = if length s.expires == 0 then s.expires else remove k s.expires;
    },
  )

  -- `removeExpire`
  unfoldable pub remove_expire : K → M K V Bool
  remove_expire k s =
      if has k s.dict
      then some (has k s.expires, record s { expires = remove k s.expires })
      else none

  -- `setExpire`
  unfoldable pub set_expire : K → ℤ → M K V (Unit {0})
  set_expire k when s =
      if has k s.dict then some (tt, record s { expires = insert k when s.expires }) else none

  -- `getExpire`, which is -1 for a key that does not expire
  unfoldable pub get_expire : K → M K V ℤ
  get_expire k s =
      with_state s (
        if length s.expires == 0
        then some (negsuc 0)
        else time_of (has k s.dict) (find k s.expires))

  -- the end of `expireIfNeeded`: a key that has expired is deleted
  unfoldable pub expire_key : K → M K V Bool
  expire_key k s =
      db_delete k
        (record s { expired_keys = s.expired_keys + 1; log = s.log ++ propagated_del k ∷ [] })

  -- `expireIfNeeded`
  unfoldable pub expire_if_needed : ℕ → K → M K V Bool
  expire_if_needed now k = do
    when ← get_expire k
    s ← get
    if ltb_ℤ when (pos 0) || s.loading
        then pure false
        else if s.slave
        then pure (ltb_ℤ when (pos now))
        else if leb_ℤ (pos now) when
        then pure false
        else expire_key k

  -- `lookupKey`; the time of access is left out
  abbrev pub lookup_key : K → M K V (Option V)
  lookup_key k s = some (find k s.dict, s)

  abbrev pub count_lookup : Option V → M K V (Unit {0})
  count_lookup none s = some (tt, record s { misses = s.misses + 1 })
  count_lookup (some v) s = some (tt, record s { hits = s.hits + 1 })

  -- `lookupKeyRead`
  unfoldable pub lookup_key_read : ℕ → K → M K V (Option V)
  lookup_key_read now k = do expire_if_needed now k; val ← lookup_key k; count_lookup val; pure val

  -- `lookupKeyWrite`
  unfoldable pub lookup_key_write : ℕ → K → M K V (Option V)
  lookup_key_write now k = do expire_if_needed now k; lookup_key k

  abbrev pub add_or_overwrite : K → V → Option V → M K V (Unit {0})
  add_or_overwrite k v none = db_add k v
  add_or_overwrite k v (some old) = db_overwrite k v

  -- `setKey`
  unfoldable pub set_key : ℕ → K → V → M K V (Unit {0})
  set_key now k v = do
    old ← lookup_key_write now k
    add_or_overwrite k v old
    remove_expire k
    signal (modified k)
