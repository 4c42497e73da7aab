-- ===== src/Keyspace/Lookups.antt =====
-- What the functions on keys do to the part of a database that can be seen.
use my_node_redis.Prelude.{ℕ, ◌+◌, ◌≡◌, ◌≤◌, Option, none, some, refl, ◌∙◌}
use my_node_redis.Prelude.Equality.{Eq}
use my_node_redis.Keyspace.Table.{find}
use my_node_redis.Keyspace.{Keyspace, count_lookup, lookup_key_read, lookup_key_write}
use my_node_redis.Keyspace.Expiry.{
  IsLinked, IsMaster, checked, live, expire_if_needed-checked, checked-IsLinked, live-checked,
  find-checked,
}

module _ {K V : Type 0} ⦃e : Eq K⦄ where
  abbrev pub counted : Option V → Keyspace K V → Keyspace K V
  counted none s = record s { misses = s.misses + 1 }
  counted (some v) s = record s { hits = s.hits + 1 }

  -- The call succeeds with the value that can be seen; all that can be seen then and later stays as
  -- it is, and every key with a time has a value.
  pub record Looks (now : ℕ) (k : K) (s : Keyspace K V) (o : Option (Option V × Keyspace K V))
      : Type 0 where
    pub after : Keyspace K V
    pub result : o ≡ some (live now s k, after)
    pub linked : IsLinked after
    pub unseen : (t : ℕ) (j : K) → now ≤ t → live t after j ≡ live t s j

  pub lookup_key_write-Looks :
      (now : ℕ) (k : K) (s : Keyspace K V)
      → IsLinked s
      → IsMaster s
      → Looks now k s (lookup_key_write now k s)
  unfolding lookup_key_write
  lookup_key_write-Looks now k s l m =
      let (b, done) = expire_if_needed-checked now k s l in
      record {
        after = checked now k s;
        result = rw (done, find-checked now k s m) refl;
        linked = checked-IsLinked now k s l;
        unseen = λ t j h. live-checked now t k j s h;
      }

  counted-live :
      (o : Option V) (t : ℕ) (s : Keyspace K V) (j : K) → live t (counted o s) j ≡ live t s j
  counted-live none t s j = refl
  counted-live (some v) t s j = refl

  pub counted-IsLinked : (o : Option V) (s : Keyspace K V) → IsLinked s → IsLinked (counted o s)
  counted-IsLinked none s l = l
  counted-IsLinked (some v) s l = l

  count_lookup-counted :
      (o : Option V) (s : Keyspace K V) → count_lookup o s ≡ some (tt, counted o s)
  count_lookup-counted none s = refl
  count_lookup-counted (some v) s = refl

  pub lookup_key_read-counted :
      (now : ℕ) (k : K) (s : Keyspace K V)
      → IsLinked s
      → let t = checked now k s in
        lookup_key_read now k s ≡ some (find k t.dict, counted (find k t.dict) t)
  unfolding lookup_key_read
  lookup_key_read-counted now k s l =
      let (b, done) = expire_if_needed-checked now k s l in
      let t = checked now k s in rw (done, count_lookup-counted (find k t.dict) t) refl

  -- On a master that is not loading, where every key with a time has a value, `lookupKeyRead` fails
  -- no assertion and gives the value of the key unless it has expired; deleting it then changes
  -- nothing that can be seen then or later, and every key with a time still has a value.
  pub lookup_key_read-Looks :
      (now : ℕ) (k : K) (s : Keyspace K V)
      → IsLinked s
      → IsMaster s
      → Looks now k s (lookup_key_read now k s)
  unfolding lookup_key_read
  lookup_key_read-Looks now k s l m =
      let (b, done) = expire_if_needed-checked now k s l in
      let o = live now s k in
      record {
        after = counted o (checked now k s);
        result = rw (done, find-checked now k s m, count_lookup-counted o (checked now k s)) refl;
        linked = counted-IsLinked o (checked now k s) (checked-IsLinked now k s l);
        unseen = λ t j h. counted-live o t (checked now k s) j ∙ live-checked now t k j s h;
      }
