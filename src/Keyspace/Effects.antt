-- ===== src/Keyspace/Effects.antt =====
-- What setting a value, a time or no time does to what can be seen of a database.
use my_node_redis.Prelude.{
  ◌||◌, ℕ, ◌+◌, ◌*◌, ◌/◌, ◌^◌, ◌≡◌, ◌≤◌, ◌<◌, ◌&&◌, not, ltb, Bool-cases, Option-cases, inl, inr,
  true, false, if◌then◌else◌, Option, none, some, ◌++◌, [], ◌∷◌, refl, arith, ap, ◌∙◌,
}
use my_node_redis.Prelude.Int.{pos, negsuc, pos_part, neg_part, eqb_ℤ, ltb_ℤ, leb_ℤ}
use my_node_redis.Prelude.Equality.{Eq, ◌=?◌, equal_refl}
use my_node_redis.Memory.{of_word, to_word}
use my_node_redis.Memory.Laws.{of_word-to_word}
use my_node_redis.Keyspace.Table.{find, insert, remove, has, find-insert, find-remove}
use my_node_redis.Keyspace.{Keyspace, modified, number, set_key, set_expire, remove_expire}
use my_node_redis.Keyspace.Commands.{
  expire_later, expire_found, expire_generic_command, expire_time, add_long_long, thousandfold,
  sub_ℕ, thousandth, time_left, ttl_generic_command, persist_command,
}
use my_node_redis.Keyspace.Expiry.{
  IsLinked, IsMaster, checked, live, is_late, checked-IsLinked, live-checked, find-checked,
  get_expire-expiry,
}
use my_node_redis.Keyspace.Lookups.{counted, counted-IsLinked, lookup_key_read-counted}
use my_node_redis.Keyspace.Linked.{stored, set_key-stored, timed-IsLinked}

sub_ℕ-zero : (n : ℕ) → sub_ℕ n 0 ≡ pos n
unfolding sub_ℕ
sub_ℕ-zero n = ground arith

thousandfold-pos : (n : ℕ) → n * 1000 < 2 ^ 63 → thousandfold (pos n) ≡ pos (n * 1000)
unfolding thousandfold
thousandfold-pos n h =
    ap (λ v. of_word 8 (to_word 8 v)) (sub_ℕ-zero (n * 1000))
    ∙ of_word-to_word 8 (pos (n * 1000)) (omega arith, omega arith)

add_long_long-pos : (m n : ℕ) → m + n < 2 ^ 63 → add_long_long (pos m) (pos n) ≡ pos (m + n)
unfolding add_long_long
add_long_long-pos m n h =
    ap (λ v. of_word 8 (to_word 8 v)) (sub_ℕ-zero (m + n))
    ∙ of_word-to_word 8 (pos (m + n)) (omega arith, omega arith)

expire_time-seconds :
    (now secs : ℕ)
    → secs * 1000 + now < 2 ^ 63
    → expire_time (pos now) true (pos secs) ≡ pos (secs * 1000 + now)
unfolding expire_time
expire_time-seconds now secs h =
    ap (λ v. add_long_long v (pos now)) (thousandfold-pos secs (omega arith))
    ∙ add_long_long-pos (secs * 1000) now h

left-ttl :
    (now when : ℕ) → when + now < 2 ^ 63 → add_long_long (pos (when + now)) (sub_ℕ 0 now) ≡ pos when
unfolding add_long_long
left-ttl now when h =
    let difference : sub_ℕ (when + now + pos_part (sub_ℕ 0 now)) (0 + neg_part (sub_ℕ 0 now))
        ≡ pos when =
      unfold sub_ℕ in ground arith in
    ap (λ v. of_word 8 (to_word 8 v)) difference
    ∙ of_word-to_word 8 (pos when) (omega arith, omega arith)

thousandth-seconds : (secs : ℕ) → thousandth (pos (secs * 1000 + 500)) ≡ pos secs
thousandth-seconds secs =
    let whole : (secs * 1000 + 500) / 1000 ≡ secs = omega arith in rw whole (sub_ℕ-zero secs)

time_left-seconds :
    (now secs : ℕ)
    → secs * 1000 + now < 2 ^ 63
    → time_left now false (pos (secs * 1000 + now)) ≡ pos secs
unfolding time_left
time_left-seconds now secs h =
    let counts : (eqb_ℤ (pos (secs * 1000 + now)) (negsuc 0) || ltb_ℤ (pos (secs * 1000)) (pos 0))
        ≡ false =
      ground arith in
    rw (left-ttl now (secs * 1000) h, counts, add_long_long-pos (secs * 1000) 500 (omega arith))
      (thousandth-seconds secs)

module _ {K V : Type 0} ⦃e : Eq K⦄ where
  stored-live :
      (t : ℕ) (k : K) (v : V) (s : Keyspace K V) (j : K)
      → live t (stored k v s) j ≡ (if k =? j then some v else live t s j)
  stored-live t k v s j = elim (Bool-cases (k =? j)) [
    | inl same ↦ rw (find-remove k j s.expires, find-insert k j v s.dict, same) refl
    | inr other ↦ rw (find-remove k j s.expires, find-insert k j v s.dict, other) refl
  ]

  -- Where every key with a time has a value, `setKey` fails no assertion; then and later the key
  -- has the value and no time of expiry, and what can be seen of the other keys is as before.
  pub set_key-live :
      (now : ℕ) (k : K) (v : V) (s : Keyspace K V)
      → IsLinked s
      → (after : Keyspace K V) × (set_key now k v s ≡ some (tt, after))
        × (find k after.expires ≡ none)
        × ((t : ℕ) (j : K) → now ≤ t → live t after j ≡ (if k =? j then some v else live t s j))
  set_key-live now k v s l =
      let t = checked now k s in
      (
        stored k v t,
        set_key-stored now k v s l,
        rw (find-remove k k t.expires, equal_refl k) refl,
        λ u j h.
            stored-live u k v t j
            ∙ ap (λ o. if k =? j then some v else o) (live-checked now u k j s h),
      )

  has_time : (now : ℕ) (k : K) (s : Keyspace K V) → is_late now k s ≡ true → has k s.expires ≡ true
  has_time now k s h = elim (Option-cases (find k s.expires)) [
    | inl absent ↦ cc (rw absent at h)
    | inr (when, found) ↦ rw found refl
  ]

  -- PERSIST does not ask whether the time of a key has passed: where every key with a time has a
  -- value, a key that has expired and can no longer be seen, but has not been deleted, can be seen
  -- again after PERSIST, which answers 1, at any time.
  pub persist_command-live :
      (now : ℕ) (k : K) (v : V) (s : Keyspace K V)
      → IsLinked s
      → find k s.dict ≡ some v
      → is_late now k s ≡ true
      → (live now s k ≡ none)
        × ((after : Keyspace K V) × (persist_command k s ≡ some (number (pos 1), after))
            × ((t : ℕ) → live t after k ≡ some v))
  unfolding persist_command remove_expire
  persist_command-live now k v s l f h =
      let timed : has k s.expires ≡ true = has_time now k s h in
      (
        rw h refl,
        (
          record s { expires = remove k s.expires; dirty = s.dirty + 1 },
          rw (f, f, timed) refl,
          λ t. rw (find-remove k k s.expires, equal_refl k) f,
        ),
      )

  find-counted :
      (k : K) (o : Option V) (s : Keyspace K V) → find k (counted o s).dict ≡ find k s.dict
  find-counted k none s = refl
  find-counted k (some v) s = refl

  -- a key that is there, with a time that is still to come
  expire_found-later :
      (now : ℕ) (k : K) (when : ℕ) (v : V) (s : Keyspace K V)
      → find k s.dict ≡ some v
      → now < when
      → (after : Keyspace K V) × (expire_found now k (pos when) (some v) s
          ≡ some (number (pos 1), after))
        × (find k after.expires ≡ some (pos when))
        × (find k after.dict ≡ some v)
        × (after.loading ≡ s.loading)
        × (IsLinked s → IsLinked after)
  unfolding expire_later set_expire
  expire_found-later now k when v s f h =
      let later : (leb_ℤ (pos when) (pos now) && not s.loading && not s.slave) ≡ false =
        ground (arith, h) in
      let present : has k s.dict ≡ true = rw f refl in
      (
        record s {
          expires = insert k (pos when) s.expires;
          log = s.log ++ modified k ∷ [];
          dirty = s.dirty + 1;
        },
        rw (later, f) refl,
        rw (find-insert k k (pos when) s.expires, equal_refl k) refl,
        f,
        refl,
        λ l. timed-IsLinked k (pos when) s present l,
      )

  loading_of : (o : Option V) (s : Keyspace K V) → (counted o s).loading ≡ s.loading
  loading_of none s = refl
  loading_of (some v) s = refl

  counted-loading :
      (o : Option V) (now : ℕ) (k : K) (s : Keyspace K V)
      → (counted o (checked now k s)).loading ≡ s.loading
  counted-loading o now k s = elim (Bool-cases (is_late now k s && not s.slave)) [
    | inl gone ↦ loading_of o (checked now k s) ∙ rw gone refl
    | inr kept ↦ loading_of o (checked now k s) ∙ rw kept refl
  ]

  -- On a master that is not loading, where every key with a time has a value, EXPIRE with a
  -- positive number of seconds, for a key that can be seen, answers 1; TTL then answers this
  -- number, and the key can be seen, with its value, up to the end of these seconds and no longer.
  -- The time fits a long long.
  pub ttl-expire :
      (now secs : ℕ) (k : K) (v : V) (s : Keyspace K V)
      → IsLinked s
      → IsMaster s
      → live now s k ≡ some v
      → 0 < secs
      → secs * 1000 + now < 2 ^ 63
      → (after : Keyspace K V) × (expire_generic_command now (pos now) true k (pos secs) s
          ≡ some (number (pos 1), after))
        × (ttl_generic_command now false k after ≡ some (number (pos secs), after))
        × ((t : ℕ) → live t after k ≡ (if ltb (secs * 1000 + now) t then none else some v))
  unfolding expire_generic_command ttl_generic_command
  ttl-expire now secs k v s l m f p h =
      let t = checked now k s in
      let there : find k t.dict ≡ some v = find-checked now k s m ∙ f in
      let o = find k t.dict in
      let r = counted o t in
      let (after, done, timed, valued, loading, keeps) =
        expire_found-later now k (secs * 1000 + now) v r (find-counted k o t ∙ there)
          (omega arith) in
      let linked : IsLinked after = keeps (counted-IsLinked o t (checked-IsLinked now k s l)) in
      let not_loading : after.loading ≡ false = loading ∙ counted-loading o now k s ∙ m.1 in
      (
        after,
        rw (lookup_key_read-counted now k s l, expire_time-seconds now secs h)
            ((λ i. expire_found now k (pos (secs * 1000 + now)) (there i) r) ∙ done),
        rw (get_expire-expiry k after linked, timed, time_left-seconds now secs h) refl,
        λ u. rw (timed, valued, not_loading) (ground arith),
      )
