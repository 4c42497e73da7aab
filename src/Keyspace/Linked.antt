-- ===== src/Keyspace/Linked.antt =====
-- The commands fail no assertion, and every key with a time keeps having a value.
use my_node_redis.Prelude.{
  ℕ, ◌+◌, ◌≡◌, Bool, Bool-cases, inl, inr, true, false, Option, none, some, List, ◌++◌, [], ◌∷◌,
  refl,
}
use my_node_redis.Prelude.Int.{ℤ, negsuc, eqb_ℤ}
use my_node_redis.Prelude.Equality.{Eq, ◌=?◌, equal_refl}
use my_node_redis.Keyspace.Table.{find, insert, remove, has, find-insert, find-remove, has-insert}
use my_node_redis.Keyspace.{
  Keyspace, M, chain, modified, count_lookup, expire_if_needed, lookup_key_read, lookup_key_write,
  db_add, db_overwrite, add_or_overwrite, remove_expire, set_expire, set_key,
}
use my_node_redis.Keyspace.Commands.{
  delete_keys, rename_to, rename_over, rename_found, rename_generic_command,
}
use my_node_redis.Keyspace.Expiry.{
  IsLinked, expiry, checked, deleted, expire_if_needed-checked, checked-IsLinked, deleted-IsLinked,
  db_delete-deleted, get_expire-expiry,
}

module _ {K V : Type 0} ⦃e : Eq K⦄ where
  -- no assertion has failed
  abbrev pub Succeeds : {A : Type 0} → Option (A × Keyspace K V) → Type 0
  Succeeds none = ⊥
  Succeeds (some (a, s)) = IsLinked s

  abbrev pub Keeps : {A : Type 0} → M K V A → Type 0
  Keeps m = (s : Keyspace K V) → IsLinked s → Succeeds (m s)

  pub chain-Succeeds :
      {A B : Type 0} (o : Option (A × Keyspace K V)) (f : A → M K V B)
      → Succeeds o
      → ((a : A) → Keeps (f a))
      → Succeeds (chain o f)
  chain-Succeeds none f h k = absurd h
  chain-Succeeds (some (a, s)) f h k = k a s h

  pub expire_if_needed-Keeps : (now : ℕ) (k : K) → Keeps (expire_if_needed now k)
  expire_if_needed-Keeps now k s l =
      let (b, done) = expire_if_needed-checked now k s l in rw done (checked-IsLinked now k s l)

  count_lookup-Keeps : (o : Option V) → Keeps (count_lookup o)
  count_lookup-Keeps none s l = l
  count_lookup-Keeps (some v) s l = l

  lookup_key_write-Keeps : (now : ℕ) (k : K) → Keeps (lookup_key_write now k)
  unfolding lookup_key_write
  lookup_key_write-Keeps now k s l =
      chain-Succeeds (expire_if_needed now k s) _ (expire_if_needed-Keeps now k s l) (λ b t h. h)

  pub lookup_key_read-Keeps : (now : ℕ) (k : K) → Keeps (lookup_key_read now k)
  unfolding lookup_key_read
  lookup_key_read-Keeps now k s l =
      chain-Succeeds (expire_if_needed now k s) _ (expire_if_needed-Keeps now k s l) (λ b t h.
        chain-Succeeds (count_lookup (find k t.dict) t) _ (count_lookup-Keeps (find k t.dict) t h)
          (λ u r g. g))

  -- a key that gets a value
  abbrev valued : K → V → Keyspace K V → Keyspace K V
  valued k v s = record s { dict = insert k v s.dict }

  valued-IsLinked : (k : K) (v : V) (s : Keyspace K V) → IsLinked s → IsLinked (valued k v s)
  valued-IsLinked k v s l j h = elim (Bool-cases (k =? j)) [
    | inl same ↦ rw (find-insert k j v s.dict, same) refl
    | inr other ↦ rw (find-insert k j v s.dict, other) (l j h)
  ]

  pub untimed-IsLinked :
      (k : K) (s : Keyspace K V) → IsLinked s → IsLinked (record s { expires = remove k s.expires })
  untimed-IsLinked k s l j h = elim (Bool-cases (k =? j)) [
    | inl same ↦ cc (rw (find-remove k j s.expires, same) at h)
    | inr other ↦ l j (rw (find-remove k j s.expires, other) at h)
  ]

  pub timed-IsLinked :
      (k : K) (when : ℤ) (s : Keyspace K V)
      → has k s.dict ≡ true
      → IsLinked s
      → IsLinked (record s { expires = insert k when s.expires })
  timed-IsLinked k when s p l j h = elim (Bool-cases (k =? j)) [
    | inl same ↦ rw (← (e.equal_iff k j).0 same) p
    | inr other ↦ l j (rw (find-insert k j when s.expires, other) at h)
  ]

  add_or_overwrite-valued :
      (k : K) (v : V) (s : Keyspace K V) (o : Option V)
      → find k s.dict ≡ o
      → add_or_overwrite k v o s ≡ some (tt, valued k v s)
  unfolding db_add db_overwrite
  add_or_overwrite-valued k v s none f = rw f refl
  add_or_overwrite-valued k v s (some old) f = rw f refl

  -- the state that `setKey` leaves
  abbrev pub stored : K → V → Keyspace K V → Keyspace K V
  stored k v s = record (valued k v s) {
    expires = remove k s.expires;
    log = s.log ++ modified k ∷ [];
  }

  pub set_key-stored :
      (now : ℕ) (k : K) (v : V) (s : Keyspace K V)
      → IsLinked s
      → set_key now k v s ≡ some (tt, stored k v (checked now k s))
  unfolding set_key lookup_key_write remove_expire
  set_key-stored now k v s l =
      let (b, done) = expire_if_needed-checked now k s l in
      let t = checked now k s in
      rw (done, add_or_overwrite-valued k v t (find k t.dict) refl, has-insert k v t.dict) refl

  pub stored-IsLinked : (k : K) (v : V) (s : Keyspace K V) → IsLinked s → IsLinked (stored k v s)
  stored-IsLinked k v s l = untimed-IsLinked k (valued k v s) (valued-IsLinked k v s l)

  pub set_key-Keeps : (now : ℕ) (k : K) (v : V) → Keeps (set_key now k v)
  set_key-Keeps now k v s l =
      rw (set_key-stored now k v s l)
        (stored-IsLinked k v (checked now k s) (checked-IsLinked now k s l))

  pub delete_keys-Keeps : (ks : List K) (n : ℕ) → Keeps (delete_keys ks n)
  unfolding delete_keys
  delete_keys-Keeps [] n s l = l
  delete_keys-Keeps (k ∷ ks) n s l = elim (Bool-cases (has k s.dict)) [
    | inl found ↦
        rw (db_delete-deleted k s, found) (delete_keys-Keeps ks (n + 1) _ (deleted-IsLinked k s l))
    | inr absent ↦
        rw (db_delete-deleted k s, absent) (delete_keys-Keeps ks n _ (deleted-IsLinked k s l))
  ]

  rename_to-Succeeds :
      (nx : Bool) (src dst : K) (o : V) (expire : ℤ) (s : Keyspace K V)
      → has dst s.dict ≡ false
      → IsLinked s
      → Succeeds (rename_to nx src dst o expire s)
  unfolding rename_to db_add set_expire
  rename_to-Succeeds nx src dst o expire s absent l =
      let t = valued dst o s in
      let k = valued-IsLinked dst o s l in
      let p = has-insert dst o s.dict in
      elim (Bool-cases (eqb_ℤ expire (negsuc 0))) [
        | inl forever ↦ rw (absent, forever, db_delete-deleted src t) (deleted-IsLinked src t k)
        | inr given ↦
            let r = record t { expires = insert dst expire s.expires } in
            rw (absent, given, p, db_delete-deleted src r)
              (deleted-IsLinked src r (timed-IsLinked dst expire t p k))
      ]

  rename_over-Succeeds :
      (nx : Bool) (src dst : K) (o : V) (expire : ℤ) (s : Keyspace K V) (old : Option V)
      → find dst s.dict ≡ old
      → IsLinked s
      → Succeeds (rename_over nx src dst o expire old s)
  rename_over-Succeeds nx src dst o expire s none f l =
      rename_to-Succeeds nx src dst o expire s (rw f refl) l
  rename_over-Succeeds true src dst o expire s (some old) f l = l
  rename_over-Succeeds false src dst o expire s (some old) f l = rw (db_delete-deleted dst s) (
      rename_to-Succeeds false src dst o expire (deleted dst s)
        (rw (find-remove dst dst s.dict, equal_refl dst) refl) (deleted-IsLinked dst s l))

  rename_found-Keeps :
      (now : ℕ) (nx : Bool) (src dst : K) (o : Option V) → Keeps (rename_found now nx src dst o)
  unfolding lookup_key_write
  rename_found-Keeps now nx src dst none s l = l
  rename_found-Keeps now nx src dst (some o) s l =
      let (b, done) = expire_if_needed-checked now dst s l in
      let t = checked now dst s in
      rw (get_expire-expiry src s l, done)
        (rename_over-Succeeds nx src dst o (expiry (find src s.expires)) t (find dst t.dict) refl
          (checked-IsLinked now dst s l))

  pub rename_generic_command-Keeps :
      (now : ℕ) (nx : Bool) (src dst : K) → Keeps (rename_generic_command now nx src dst)
  unfolding rename_generic_command
  rename_generic_command-Keeps now nx src dst s l = elim (Bool-cases (src =? dst)) [
    | inl same ↦ rw same l
    | inr other ↦ rw other (
        chain-Succeeds (lookup_key_write now src s) _ (lookup_key_write-Keeps now src s l)
          (rename_found-Keeps now nx src dst))
  ]
