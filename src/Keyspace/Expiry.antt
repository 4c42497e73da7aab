-- ===== src/Keyspace/Expiry.antt =====
-- What `expireIfNeeded` does, and what of a database can be seen at a time.
use mathlib.Core.Path.{subst}
use my_node_redis.Prelude.{
  ℕ, ◌+◌, ◌≡◌, ◌≤◌, ◌==◌, ◌&&◌, ◌||◌, not, Bool, Bool-cases, Option-cases, inl, inr, true, false,
  if◌then◌else◌, Option, none, some, List, [], ◌∷◌, ◌++◌, length, refl, arith, sym,
}
use my_node_redis.Prelude.Int.{ℤ, pos, negsuc, ltb_ℤ, leb_ℤ}
use my_node_redis.Prelude.Equality.{Eq, ◌=?◌, equal_refl}
use my_node_redis.Keyspace.Table.{find, remove, has, find-remove}
use my_node_redis.Keyspace.{
  Keyspace, propagated_del, db_delete, get_expire, expire_key, expire_if_needed,
}

-- the time of a key, or -1
abbrev pub expiry : Option ℤ → ℤ
expiry none = negsuc 0
expiry (some when) = when

module _ {K A : Type 0} ⦃e : Eq K⦄ where
  remove_empty : (k : K) (t : List (K × A)) → (if length t == 0 then t else remove k t) ≡ remove k t
  unfolding remove
  remove_empty k [] = refl
  remove_empty k (x ∷ t) = let full : (length (x ∷ t) == 0) ≡ false = ground arith in rw full refl

  find_empty : (k : K) (t : List (K × A)) → (length t == 0) ≡ true → find k t ≡ none
  unfolding find
  find_empty k [] h = refl
  find_empty k (x ∷ t) h = absurd (ground (arith, h))

module _ {K V : Type 0} ⦃e : Eq K⦄ where
  -- Every key with a time has a value.
  abbrev pub IsLinked : Keyspace K V → Type 0
  IsLinked s = (k : K) → has k s.expires ≡ true → has k s.dict ≡ true

  abbrev pub deleted : K → Keyspace K V → Keyspace K V
  deleted k s = record s { dict = remove k s.dict; expires = remove k s.expires }

  abbrev pub purged : K → Keyspace K V → Keyspace K V
  purged k s =
      deleted k
        (record s { expired_keys = s.expired_keys + 1; log = s.log ++ propagated_del k ∷ [] })

  pub db_delete-deleted :
      (k : K) (s : Keyspace K V) → db_delete k s ≡ some (has k s.dict, deleted k s)
  unfolding db_delete
  db_delete-deleted k s = rw (remove_empty k s.expires) refl

  pub get_expire-expiry :
      (k : K) (s : Keyspace K V) → IsLinked s → get_expire k s ≡ some (expiry (find k s.expires), s)
  unfolding get_expire
  get_expire-expiry k s l = elim (Bool-cases (length s.expires == 0)) [
    | inl empty ↦ rw (empty, find_empty k s.expires empty) refl
    | inr full ↦ elim (Option-cases (find k s.expires)) [
      | inl absent ↦ rw (full, absent) refl
      | inr (when, found) ↦ rw (full, found, l k (rw found refl)) refl
    ]
  ]

  -- a key that the server knows to have expired, as a slave may too
  abbrev pub is_late : ℕ → K → Keyspace K V → Bool
  is_late now k s =
      let when = expiry (find k s.expires) in
      if ltb_ℤ when (pos 0) || s.loading then false else ltb_ℤ when (pos now)

  -- It is deleted by a server that is no slave.
  abbrev pub checked : ℕ → K → Keyspace K V → Keyspace K V
  checked now k s = if is_late now k s && not s.slave then purged k s else s

  -- `expireIfNeeded` fails no assertion where every key with a time has a value.
  pub expire_if_needed-checked :
      (now : ℕ) (k : K) (s : Keyspace K V)
      → IsLinked s
      → (b : Bool) × (expire_if_needed now k s ≡ some (b, checked now k s))
  unfolding expire_if_needed expire_key
  expire_if_needed-checked now k s l =
      let when = expiry (find k s.expires) in
      elim (Bool-cases (ltb_ℤ when (pos 0) || s.loading)) [
        | inl none_yet ↦ (false, rw (get_expire-expiry k s l, none_yet) refl)
        | inr may ↦ elim (Bool-cases (s.slave)) [
          | inl slave ↦ elim (Bool-cases (ltb_ℤ when (pos now))) [
            | inl late ↦ (true, rw (get_expire-expiry k s l, may, slave, late) refl)
            | inr soon ↦ (false, rw (get_expire-expiry k s l, may, slave, soon) refl)
          ]
          | inr master ↦ elim (Bool-cases (ltb_ℤ when (pos now))) [
            | inl late ↦
                let passed : leb_ℤ (pos now) when ≡ false = ground (arith, late) in
                (
                  has k s.dict,
                  rw (get_expire-expiry k s l, may, master, late, passed) (db_delete-deleted k _),
                )
            | inr soon ↦
                let waits : leb_ℤ (pos now) when ≡ true = ground (arith, soon) in
                (false, rw (get_expire-expiry k s l, may, master, soon, waits) refl)
          ]
        ]
      ]

  pub deleted-IsLinked : (k : K) (s : Keyspace K V) → IsLinked s → IsLinked (deleted k s)
  deleted-IsLinked k s l j h = elim (Bool-cases (k =? j)) [
    | inl same ↦ cc (rw (find-remove k j s.expires, same) at h)
    | inr other ↦
        rw (find-remove k j s.dict, other) (l j (rw (find-remove k j s.expires, other) at h))
  ]

  pub checked-IsLinked :
      (now : ℕ) (k : K) (s : Keyspace K V) → IsLinked s → IsLinked (checked now k s)
  checked-IsLinked now k s l = elim (Bool-cases (is_late now k s && not s.slave)) [
    | inl gone ↦ rw gone (deleted-IsLinked k s l)
    | inr kept ↦ rw kept l
  ]

  -- What a client can see of a key at a time: nothing once it has expired.
  abbrev pub live : ℕ → Keyspace K V → K → Option V
  live now s k = if is_late now k s then none else find k s.dict

  -- A server that is no slave and does not load a file
  abbrev pub IsMaster : Keyspace K V → Type 0
  IsMaster s = (s.slave ≡ false) × (s.loading ≡ false)

  late_later :
      (now t : ℕ) (k : K) (s : Keyspace K V)
      → now ≤ t
      → is_late now k s ≡ true
      → is_late t k s ≡ true
  late_later now t k s h late = ground (arith, h, late)

  -- Deleting a key that has expired cannot be seen, then or later.
  pub live-checked :
      (now t : ℕ) (k j : K) (s : Keyspace K V) → now ≤ t → live t (checked now k s) j ≡ live t s j
  live-checked now t k j s h = elim (Bool-cases (is_late now k s && not s.slave)) [
    | inr kept ↦ rw kept refl
    | inl gone ↦ rw gone (
        rw (find-remove k j s.expires, find-remove k j s.dict)
          (elim (Bool-cases (k =? j)) [
            | inr other ↦ rw other refl
            | inl same ↦
                let late : is_late t k s ≡ true = late_later now t k s h (ground (arith, gone)) in
                let nothing : live t s j ≡ none =
                  subst (λ i. live t s i ≡ none) ((e.equal_iff k j).0 same) (rw late refl) in
                rw same (sym nothing)
          ]))
  ]

  -- A master's look-up sees what is live.
  pub find-checked :
      (now : ℕ) (k : K) (s : Keyspace K V)
      → IsMaster s
      → find k (checked now k s).dict ≡ live now s k
  find-checked now k s m = elim (Bool-cases (is_late now k s)) [
    | inl late ↦
        let gone : (is_late now k s && not s.slave) ≡ true = ground (arith, late, m) in
        rw (gone, late, find-remove k k s.dict, equal_refl k) refl
    | inr soon ↦ rw soon refl
  ]
