-- ===== src/Keyspace/Steps.antt =====
-- Any commands at any times.
use my_node_redis.Prelude.{
  ℕ, ◌≡◌, ◌&&◌, not, Bool, Bool-cases, inl, inr, true, Option, none, some, List, [], ◌∷◌, refl,
}
use my_node_redis.Prelude.Int.{ℤ, pos, leb_ℤ}
use my_node_redis.Prelude.Equality.{Eq}
use my_node_redis.Keyspace.Table.{find, has}
use my_node_redis.Keyspace.{
  Keyspace, M, ◌>>=◌, pure, expire_if_needed, lookup_key_read, remove_expire, set_expire, set_key,
}
use my_node_redis.Keyspace.Commands.{
  delete_keys, del_command, exists_command, rename_generic_command, expire_now, expire_later,
  expire_found, expire_generic_command, expire_time, ttl_generic_command, persist_command,
  flushdb_command, matching_keys, keys_command,
}
use my_node_redis.Keyspace.Expiry.{
  IsLinked, checked, checked-IsLinked, deleted-IsLinked, db_delete-deleted, get_expire-expiry,
}
use my_node_redis.Keyspace.Lookups.{counted, counted-IsLinked, lookup_key_read-counted}
use my_node_redis.Keyspace.Linked.{
  Succeeds, Keeps, chain-Succeeds, expire_if_needed-Keeps, lookup_key_read-Keeps, set_key-Keeps,
  delete_keys-Keeps, rename_generic_command-Keeps, timed-IsLinked, untimed-IsLinked,
}

-- the commands on keys, and SET and GET as the functions on keys that they call
pub data Command (K V : Type 0) : Type 0 where
  set : K → V → Command K V
  read : K → Command K V
  del : List K → Command K V
  exists : K → Command K V
  rename : Bool → K → K → Command K V
  expire : ℤ → Bool → K → ℤ → Command K V
  ttl : Bool → K → Command K V
  persist : K → Command K V
  keys : (K → Bool) → Command K V
  flush : Command K V

module _ {K V : Type 0} ⦃e : Eq K⦄ where
  expire_found-Succeeds :
      (now : ℕ) (k : K) (when : ℤ) (o : Option V) (s : Keyspace K V)
      → find k s.dict ≡ o
      → IsLinked s
      → Succeeds (expire_found now k when o s)
  unfolding expire_now expire_later set_expire
  expire_found-Succeeds now k when none s f l = l
  expire_found-Succeeds now k when (some o) s f l =
      let present : has k s.dict ≡ true = rw f refl in
      elim (Bool-cases (leb_ℤ when (pos now) && not s.loading && not s.slave)) [
        | inl past ↦ rw (past, db_delete-deleted k s, present) (deleted-IsLinked k s l)
        | inr later ↦ rw (later, present) (timed-IsLinked k when s present l)
      ]

  find-counted :
      (k : K) (o : Option V) (s : Keyspace K V) → find k (counted o s).dict ≡ find k s.dict
  find-counted k none s = refl
  find-counted k (some v) s = refl

  expire_generic_command-Keeps :
      (now : ℕ) (basetime : ℤ) (seconds : Bool) (k : K) (param : ℤ)
      → Keeps {V = V} (expire_generic_command now basetime seconds k param)
  unfolding expire_generic_command
  expire_generic_command-Keeps now basetime seconds k param s l =
      let t = checked now k s in
      let o = find k t.dict in
      rw (lookup_key_read-counted now k s l) (
        expire_found-Succeeds now k (expire_time basetime seconds param) o (counted o t)
          (find-counted k o t) (counted-IsLinked o t (checked-IsLinked now k s l)))

  persist_command-Keeps : (k : K) → Keeps {V = V} (persist_command k)
  unfolding persist_command remove_expire
  persist_command-Keeps k s l = elim (Bool-cases (has k s.dict)) [
    | inr absent ↦ rw absent l
    | inl present ↦ elim (Bool-cases (has k s.expires)) [
      | inl timed ↦ rw (present, present, timed) (untimed-IsLinked k s l)
      | inr forever ↦ rw (present, present, forever) (untimed-IsLinked k s l)
    ]
  ]

  matching_keys-Keeps :
      (matches : K → Bool) (now : ℕ) (t : List (K × V)) → Keeps (matching_keys matches now t)
  unfolding matching_keys
  matching_keys-Keeps matches now [] s l = l
  matching_keys-Keeps matches now ((k, v) ∷ t) s l = elim (Bool-cases (matches k)) [
    | inr other ↦ rw other (matching_keys-Keeps matches now t s l)
    | inl match ↦ rw match (
        chain-Succeeds (expire_if_needed now k s) _ (expire_if_needed-Keeps now k s l) (λ b r h.
          chain-Succeeds (matching_keys matches now t r) _ (matching_keys-Keeps matches now t r h)
            (λ ks q g. g)))
  ]

  flushdb_command-Keeps : Keeps (flushdb_command {K = K} {V = V})
  unfolding flushdb_command find
  flushdb_command-Keeps s l k h = h

  abbrev ignore : {A : Type 0} → M K V A → M K V (Unit {0})
  ignore m = m >>= λ a. pure tt

  unfoldable pub perform : ℕ → Command K V → M K V (Unit {0})
  perform now (set k v) = set_key now k v
  perform now (read k) = ignore (lookup_key_read now k)
  perform now (del ks) = ignore (del_command ks)
  perform now (exists k) = ignore (exists_command now k)
  perform now (rename nx a b) = ignore (rename_generic_command now nx a b)
  perform now (expire basetime seconds k param) =
      ignore (expire_generic_command now basetime seconds k param)
  perform now (ttl output_ms k) = ignore (ttl_generic_command now output_ms k)
  perform now (persist k) = ignore (persist_command k)
  perform now (keys matches) = ignore (keys_command matches now)
  perform now flush = ignore flushdb_command

  unfoldable pub run : List (ℕ × Command K V) → M K V (Unit {0})
  run [] = pure tt
  run ((now, c) ∷ l) = perform now c >>= λ u. run l

  ignore-Keeps : {A : Type 0} (m : M K V A) → Keeps m → Keeps (ignore m)
  ignore-Keeps m h s l = chain-Succeeds (m s) _ (h s l) (λ a t g. g)

  perform-Keeps : (now : ℕ) (c : Command K V) → Keeps (perform now c)
  unfolding perform del_command exists_command ttl_generic_command keys_command
  perform-Keeps now (set k v) s l = set_key-Keeps now k v s l
  perform-Keeps now (read k) s l =
      ignore-Keeps (lookup_key_read now k) (lookup_key_read-Keeps now k) s l
  perform-Keeps now (del ks) s l =
      chain-Succeeds (del_command ks s) _
        (chain-Succeeds (delete_keys ks 0 s) _ (delete_keys-Keeps ks 0 s l) (λ n t g. g))
        (λ a t g. g)
  perform-Keeps now (exists k) s l =
      chain-Succeeds (exists_command now k s) _
        (chain-Succeeds (expire_if_needed now k s) _ (expire_if_needed-Keeps now k s l)
          (λ b t g. g))
        (λ a t g. g)
  perform-Keeps now (rename nx a b) s l =
      ignore-Keeps (rename_generic_command now nx a b) (rename_generic_command-Keeps now nx a b) s l
  perform-Keeps now (expire basetime seconds k param) s l =
      ignore-Keeps (expire_generic_command now basetime seconds k param)
        (expire_generic_command-Keeps now basetime seconds k param) s l
  perform-Keeps now (ttl output_ms k) s l = rw (get_expire-expiry k s l) l
  perform-Keeps now (persist k) s l = ignore-Keeps (persist_command k) (persist_command-Keeps k) s l
  perform-Keeps now (keys matches) s l =
      ignore-Keeps (keys_command matches now) (λ t h. matching_keys-Keeps matches now t.dict t h) s
        l
  perform-Keeps now flush s l = ignore-Keeps flushdb_command flushdb_command-Keeps s l

  -- From a database in which every key with a time has a value, on a master or a slave, any
  -- sequence of `setKey`, `lookupKeyRead`, DEL, EXISTS, RENAME, RENAMENX, the EXPIRE commands, TTL,
  -- PTTL, PERSIST, KEYS and FLUSHDB at any times fails no assertion and ends in such a database.
  pub run-IsLinked :
      (l : List (ℕ × Command K V)) (s : Keyspace K V) → IsLinked s → Succeeds (run l s)
  unfolding run
  run-IsLinked [] s h = h
  run-IsLinked ((now, c) ∷ l) s h =
      chain-Succeeds (perform now c s) _ (perform-Keeps now c s h) (λ u. run-IsLinked l)
