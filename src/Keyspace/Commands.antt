-- ===== src/Keyspace/Commands.antt =====
-- redis/src/db.c: the commands on keys of any type. The arguments of EXPIRE are numbers already.
use my_node_redis.Prelude.{
  ℕ, ◌+◌, ◌-◌, ◌*◌, ◌/◌, ◌&&◌, ◌||◌, not, leb, Bool, if◌then◌else◌, Option, none, some, List, [],
  ◌∷◌, ◌++◌, length,
}
use my_node_redis.Prelude.Int.{ℤ, pos, negsuc, pos_part, neg_part, leb_ℤ, ltb_ℤ, eqb_ℤ}
use my_node_redis.Prelude.Equality.{Eq, ◌=?◌}
use my_node_redis.Memory.{to_word, of_word}
use my_node_redis.Keyspace.Table.{has}
use my_node_redis.Keyspace.{
  modified, flushed, M, ◌>>=◌, ◌>>◌, pure, get, signal, count_change, Answer, ok_reply, same_object,
  no_key, number, db_exists, db_add, db_delete, set_expire, get_expire, remove_expire,
  expire_if_needed, lookup_key_read, lookup_key_write,
}

-- a - b, and the sum in a long long
unfoldable pub sub_ℕ : ℕ → ℕ → ℤ
sub_ℕ a b = if leb b a then pos (a - b) else negsuc (b - a - 1)

unfoldable pub add_long_long : ℤ → ℤ → ℤ
unfolding sub_ℕ
add_long_long a b =
    of_word 8 (to_word 8 (sub_ℕ (pos_part a + pos_part b) (neg_part a + neg_part b)))

unfoldable pub thousandfold : ℤ → ℤ
unfolding sub_ℕ
thousandfold a = of_word 8 (to_word 8 (sub_ℕ (pos_part a * 1000) (neg_part a * 1000)))

-- `if (unit == UNIT_SECONDS) when *= 1000; when += basetime`
unfoldable pub expire_time : ℤ → Bool → ℤ → ℤ
expire_time basetime seconds when =
    add_long_long (if seconds then thousandfold when else when) basetime

-- `/ 1000`, which drops the fraction
abbrev pub thousandth : ℤ → ℤ
thousandth a = sub_ℕ (pos_part a / 1000) (neg_part a / 1000)

-- what TTL and PTTL answer for a time of expiry; a key without one has -1
unfoldable pub time_left : ℕ → Bool → ℤ → ℤ
unfolding sub_ℕ add_long_long
time_left now output_ms expire =
    let ttl : ℤ = add_long_long expire (sub_ℕ 0 now) in
    if eqb_ℤ expire (negsuc 0) || ltb_ℤ ttl (pos 0)
    then negsuc 0
    else if output_ms
    then ttl
    else thousandth (add_long_long ttl (pos 500))

module _ {K V : Type 0} ⦃e : Eq K⦄ where
  -- the loop of `delCommand`, with the number of keys that were deleted
  unfoldable pub delete_keys : List K → ℕ → M K V ℕ
  delete_keys [] deleted = pure deleted
  delete_keys (k ∷ ks) deleted = do
    found ← db_delete k
    if found then (signal (modified k) >> count_change) else pure tt
    delete_keys ks (if found then deleted + 1 else deleted)

  -- `delCommand`
  unfoldable pub del_command : List K → M K V Answer
  del_command ks = do deleted ← delete_keys ks 0; pure (number (pos deleted))

  -- `existsCommand`
  unfoldable pub exists_command : ℕ → K → M K V Answer
  exists_command now k = do
    expire_if_needed now k
    s ← get
    pure (number (pos (if db_exists k s then 1 else 0)))

  -- `renameGenericCommand` from the creation of the new key on
  unfoldable pub rename_to : Bool → K → K → V → ℤ → M K V Answer
  rename_to nx src dst o expire = do
    db_add dst o
    if eqb_ℤ expire (negsuc 0) then pure tt else set_expire dst expire
    db_delete src
    signal (modified src)
    signal (modified dst)
    count_change
    pure (if nx then number (pos 1) else ok_reply)

  abbrev pub rename_over : Bool → K → K → V → ℤ → Option V → M K V Answer
  rename_over nx src dst o expire none = rename_to nx src dst o expire
  rename_over nx src dst o expire (some old) =
      if nx then pure (number (pos 0)) else (db_delete dst >> rename_to nx src dst o expire)

  abbrev pub rename_found : ℕ → Bool → K → K → Option V → M K V Answer
  rename_found now nx src dst none = pure no_key
  rename_found now nx src dst (some o) = do
    expire ← get_expire src
    old ← lookup_key_write now dst
    rename_over nx src dst o expire old

  -- `renameGenericCommand`
  unfoldable pub rename_generic_command : ℕ → Bool → K → K → M K V Answer
  rename_generic_command now nx src dst =
      if src =? dst
      then pure same_object
      else do o ← lookup_key_write now src; rename_found now nx src dst o

  -- the time has passed: the key is deleted, which must succeed
  unfoldable pub expire_now : K → M K V Answer
  expire_now k = do
    found ← db_delete k
    if found then pure tt else λ s. none
    count_change
    signal (modified k)
    pure (number (pos 1))

  unfoldable pub expire_later : K → ℤ → M K V Answer
  expire_later k when = do
    set_expire k when
    signal (modified k)
    count_change
    pure (number (pos 1))

  abbrev pub expire_found : ℕ → K → ℤ → Option V → M K V Answer
  expire_found now k when none = pure (number (pos 0))
  expire_found now k when (some o) = do
    s ← get
    if leb_ℤ when (pos now) && not s.loading && not s.slave
        then expire_now k
        else expire_later k when

  -- `expireGenericCommand`; the clock is read once, where the code calls `mstime` three times
  unfoldable pub expire_generic_command : ℕ → ℤ → Bool → K → ℤ → M K V Answer
  expire_generic_command now basetime seconds k param = do
    o ← lookup_key_read now k
    expire_found now k (expire_time basetime seconds param) o

  -- `ttlGenericCommand`
  unfoldable pub ttl_generic_command : ℕ → Bool → K → M K V Answer
  ttl_generic_command now output_ms k = do
    expire ← get_expire k
    pure (number (time_left now output_ms expire))

  -- `persistCommand`
  unfoldable pub persist_command : K → M K V Answer
  persist_command k = do
    s ← get
    if has k s.dict
        then (remove_expire k >>= λ removed.
            if removed then (count_change >> pure (number (pos 1))) else pure (number (pos 0)))
        else pure (number (pos 0))

  -- `flushdbCommand`
  unfoldable pub flushdb_command : M K V Answer
  flushdb_command s = some (
    ok_reply,
    record s {
      dirty = s.dirty + length s.dict;
      log = s.log ++ flushed ∷ [];
      dict = [];
      expires = [];
    },
  )

  -- the loop of `keysCommand` over the entries
  unfoldable pub matching_keys : (K → Bool) → ℕ → List (K × V) → M K V (List K)
  matching_keys matches now [] = pure []
  matching_keys matches now ((k, v) ∷ t) =
      if matches k
      then (do
        expired ← expire_if_needed now k
        rest ← matching_keys matches now t
        pure (if expired then rest else k ∷ rest))
      else matching_keys matches now t

  -- `keysCommand`
  unfoldable pub keys_command : (K → Bool) → ℕ → M K V (List K)
  keys_command matches now = do s ← get; matching_keys matches now s.dict
