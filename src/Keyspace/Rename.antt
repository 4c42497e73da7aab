-- ===== src/Keyspace/Rename.antt =====
-- RENAME moves a value with its time.
use mathlib.Core.Path.{subst}
use my_node_redis.Prelude.{
  ℕ, ◌+◌, ◌≡◌, ◌≤◌, ◌&&◌, not, Bool-cases, Option-cases, inl, inr, false, if◌then◌else◌, Option,
  none, some, ◌++◌, [], ◌∷◌, refl, ap, sym, ◌∙◌,
}
use my_node_redis.Prelude.Int.{ℤ, negsuc, eqb_ℤ, eqb_ℤ_iff}
use my_node_redis.Prelude.Equality.{Eq, ◌=?◌, equal_refl, equal_sym}
use my_node_redis.Keyspace.Table.{find, insert, has, find-insert, find-remove, has-insert}
use my_node_redis.Keyspace.{
  Keyspace, modified, Answer, ok_reply, set_expire, db_add, expire_if_needed, lookup_key_write,
}
use my_node_redis.Keyspace.Commands.{rename_to, rename_over, rename_generic_command}
use my_node_redis.Keyspace.Expiry.{
  IsLinked, IsMaster, checked, deleted, live, is_late, expiry, expire_if_needed-checked,
  checked-IsLinked, live-checked, db_delete-deleted, get_expire-expiry,
}

-- what is stored for a time that `getExpire` has answered
abbrev given : ℤ → Option ℤ
given w = if eqb_ℤ w (negsuc 0) then none else some w

given-expiry : (w : ℤ) → expiry (given w) ≡ w
given-expiry w = elim (Bool-cases (eqb_ℤ w (negsuc 0))) [
  | inl forever ↦ rw forever (sym ((eqb_ℤ_iff w (negsuc 0)).0 forever))
  | inr timed ↦ rw timed refl
]

module _ {K V : Type 0} ⦃e : Eq K⦄ where
  -- A key has gone from a database, and nothing else.
  record Cleared (dst : K) (t u : Keyspace K V) : Type 0 where
    no_value : has dst u.dict ≡ false
    no_time : find dst u.expires ≡ none
    same_values : (j : K) → (dst =? j) ≡ false → find j u.dict ≡ find j t.dict
    same_times : (j : K) → (dst =? j) ≡ false → find j u.expires ≡ find j t.expires
    same_loading : u.loading ≡ t.loading

  absent-Cleared :
      (dst : K) (t : Keyspace K V) → IsLinked t → find dst t.dict ≡ none → Cleared dst t t
  absent-Cleared dst t l f = record {
    no_value = rw f refl;
    no_time = elim (Option-cases (find dst t.expires)) [
      | inl absent ↦ absent
      | inr (w, found) ↦ cc (rw f at (l dst (rw found refl)))
    ];
    same_values = λ j h. refl;
    same_times = λ j h. refl;
    same_loading = refl;
  }

  deleted-Cleared : (dst : K) (t : Keyspace K V) → Cleared dst t (deleted dst t)
  deleted-Cleared dst t = record {
    no_value = rw (find-remove dst dst t.dict, equal_refl dst) refl;
    no_time = rw (find-remove dst dst t.expires, equal_refl dst) refl;
    same_values = λ j h. rw (find-remove dst j t.dict, h) refl;
    same_times = λ j h. rw (find-remove dst j t.expires, h) refl;
    same_loading = refl;
  }

  -- The new key has the value and the time, the old one is gone.
  record Renames (src dst : K) (o : V) (w : ℤ) (u : Keyspace K V)
      (r : Option (Answer × Keyspace K V)) : Type 0 where
    after : Keyspace K V
    result : r ≡ some (ok_reply, after)
    values :
        (j : K)
        → find j after.dict
          ≡ (if src =? j then none else if dst =? j then some o else find j u.dict)
    times :
        (j : K)
        → find j after.expires
          ≡ (if src =? j then none else if dst =? j then given w else find j u.expires)
    same_loading : after.loading ≡ u.loading

  rename_to-Renames :
      (src dst : K) (o : V) (w : ℤ) (u : Keyspace K V)
      → has dst u.dict ≡ false
      → find dst u.expires ≡ none
      → Renames src dst o w u (rename_to false src dst o w u)
  unfolding rename_to db_add set_expire
  rename_to-Renames src dst o w u absent untimed =
      let t = record u { dict = insert dst o u.dict } in
      elim (Bool-cases (eqb_ℤ w (negsuc 0))) [
        | inl forever ↦ record {
          after = record (deleted src t) {
            log = (u.log ++ modified src ∷ []) ++ modified dst ∷ [];
            dirty = u.dirty + 1;
          };
          result = rw (absent, forever, db_delete-deleted src t) refl;
          values = λ j. rw (find-remove src j t.dict, find-insert dst j o u.dict) refl;
          times = λ j. rw (find-remove src j t.expires, forever) (same_time j);
          same_loading = refl;
        }
        | inr timed ↦
            let r = record t { expires = insert dst w u.expires } in
            record {
              after = record (deleted src r) {
                log = (u.log ++ modified src ∷ []) ++ modified dst ∷ [];
                dirty = u.dirty + 1;
              };
              result = rw (absent, timed, has-insert dst o u.dict, db_delete-deleted src r) refl;
              values = λ j. rw (find-remove src j t.dict, find-insert dst j o u.dict) refl;
              times =
                  λ j. rw (find-remove src j r.expires, find-insert dst j w u.expires, timed) refl;
              same_loading = refl;
            }
      ]
    where
      same_time :
          (j : K)
          → (if src =? j then none else find j u.expires)
            ≡ (if src =? j then none else if dst =? j then none else find j u.expires)
      same_time j = elim (Bool-cases (dst =? j)) [
        | inr other ↦ rw other refl
        | inl same ↦ rw same (
            ap (λ q. if src =? j then none else q)
              (subst (λ k. find k u.expires ≡ none) ((e.equal_iff dst j).0 same) untimed))
      ]

  not_late :
      (now : ℕ) (k : K) (o : V) (s : Keyspace K V) → live now s k ≡ some o → is_late now k s ≡ false
  not_late now k o s f = elim (Bool-cases (is_late now k s)) [
    | inl late ↦ cc (rw late at f)
    | inr soon ↦ soon
  ]

  checked-same :
      (now : ℕ) (k : K) (s : Keyspace K V) → is_late now k s ≡ false → checked now k s ≡ s
  checked-same now k s h = rw h refl

  -- `renameGenericCommand` behind the look-up of the new key
  rename_over-Renames :
      (src dst : K) (o : V) (w : ℤ) (t : Keyspace K V) (old : Option V)
      → IsLinked t
      → find dst t.dict ≡ old
      → (u : Keyspace K V) × Cleared dst t u
        × Renames src dst o w u (rename_over false src dst o w old t)
  rename_over-Renames src dst o w t none l f =
      let c = absent-Cleared dst t l f in
      (t, c, rename_to-Renames src dst o w t c.no_value c.no_time)
  rename_over-Renames src dst o w t (some old) l f =
      let c = deleted-Cleared dst t in
      let u = deleted dst t in
      (u, c, rw (db_delete-deleted dst t) (rename_to-Renames src dst o w u c.no_value c.no_time))

  checked-loading : (now : ℕ) (k : K) (s : Keyspace K V) → (checked now k s).loading ≡ s.loading
  checked-loading now k s = elim (Bool-cases (is_late now k s && not s.slave)) [
    | inl gone ↦ rw gone refl
    | inr kept ↦ rw kept refl
  ]

  moved-live :
      (now t : ℕ) (src dst : K) (o : V) (s u : Keyspace K V) (r : Option (Answer × Keyspace K V))
      (j : K)
      → (src =? dst) ≡ false
      → s.loading ≡ false
      → find src s.dict ≡ some o
      → Cleared dst (checked now dst s) u
      → (n : Renames src dst o (expiry (find src s.expires)) u r) → now ≤ t
      → live t n.after j
        ≡ (if dst =? j then live t s src else if src =? j then none else live t s j)
  moved-live now t src dst o s u r j d m f c n h =
      let c0 = checked now dst s in
      let quiet : n.after.loading ≡ false =
        n.same_loading ∙ c.same_loading ∙ checked-loading now dst s ∙ m in
      elim (Bool-cases (src =? j)) [
        | inl old ↦
            let other : (dst =? j) ≡ false =
              subst (λ k. (dst =? k) ≡ false) ((e.equal_iff src j).0 old) (equal_sym dst src ∙ d) in
            rw (n.times j, n.values j, old, other) refl
        | inr kept ↦ elim (Bool-cases (dst =? j)) [
          | inl new ↦
              rw
                (
                  n.times j,
                  n.values j,
                  kept,
                  new,
                  quiet,
                  m,
                  f,
                  given-expiry (expiry (find src s.expires)),
                )
                refl
          | inr other ↦
              let quiet0 : c0.loading ≡ false = checked-loading now dst s ∙ m in
              let same : live t n.after j ≡ live t c0 j =
                rw
                  (
                    n.times j,
                    n.values j,
                    kept,
                    other,
                    quiet,
                    quiet0,
                    c.same_values j other,
                    c.same_times j other,
                  )
                  refl in
              rw (kept, other) (same ∙ live-checked now t dst j s h)
        ]
      ]

  -- On a master that is not loading, where every key with a time has a value, RENAME of a key that
  -- can be seen to another key fails no assertion and answers OK; then and later the new key is
  -- seen as the old one would be, with its value and up to its time, the old key is not seen, and
  -- the others as before.
  pub rename_generic_command-live :
      (now : ℕ) (src dst : K) (o : V) (s : Keyspace K V)
      → IsLinked s
      → IsMaster s
      → (src =? dst) ≡ false
      → live now s src ≡ some o
      → (after : Keyspace K V) × (rename_generic_command now false src dst s
          ≡ some (ok_reply, after))
        × ((t : ℕ) (j : K)
            → now ≤ t
            → live t after j
              ≡ (if dst =? j then live t s src else if src =? j then none else live t s j))
  unfolding rename_generic_command lookup_key_write
  rename_generic_command-live now src dst o s l m d f =
      let soon = not_late now src o s f in
      let found : find src s.dict ≡ some o = rw soon at f in
      let (b, first) = expire_if_needed-checked now src s l in
      let looked : expire_if_needed now src s ≡ some (b, s) =
        first ∙ ap (λ q. some (b, q)) (checked-same now src s soon) in
      let (b2, second) = expire_if_needed-checked now dst s l in
      let t = checked now dst s in
      let w = expiry (find src s.expires) in
      let (u, c, n) =
        rename_over-Renames src dst o w t (find dst t.dict) (checked-IsLinked now dst s l) refl in
      (
        n.after,
        rw (d, looked, found, get_expire-expiry src s l, second) n.result,
        λ q j h.
            moved-live now q src dst o s u (rename_over false src dst o w (find dst t.dict) t) j d
              m.1 found c n h,
      )
