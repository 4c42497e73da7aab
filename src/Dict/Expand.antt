-- ===== src/Dict/Expand.antt =====
-- `_dictNextPower`, `dictExpand` and `dictResize`: the new table is empty, so the map is kept.
use native.Mathlib.Nat.{pow-suc, one-le-pow}
use my_node_redis.Prelude.{
  ℕ, zero, suc, ◌*◌, ◌^◌, ◌/◌, ◌%◌, ◌≤◌, ◌<◌, ◌≡◌, ◌⊎◌, inl, inr, ◌==◌, ==_iff, Bool-cases,
  if◌then◌else◌, Bool, true, false, none, some, refl, arith, ap, ◌∙◌, not, ◌&&◌, ◌||◌, ltb, leb,
  dec_lt,
}
use mathlib.Core.Option.{some-injective}
use my_node_redis.Dict.Chains.{DictType, chain_find}
use my_node_redis.Dict.Lookup.{count, total_nil}
use my_node_redis.Dict.{
  Dict, index, fresh, is_rehashing, next_power, next_power_loop, long_max, expand, resize,
  expand_if_needed, initial_size, force_resize_ratio,
}
use my_node_redis.Dict.Invariant.{IsValid, view, fresh-IsTable}
use my_node_redis.Dict.Rehash.{Keeps, Keeps-refl, rehashing_at}
use my_node_redis.Dict.Find.{idle_none, no_table}

abbrev pub PowerOf : ℕ → ℕ → Type 0
PowerOf i r = (k : ℕ) × (r ≡ i * 2 ^ k)

doubled : (i k : ℕ) → i * 2 * 2 ^ k ≡ i * 2 ^ suc k
doubled i k = omega (arith, ap (λ (t : ℕ). i * t) (pow-suc 2 k))

le_times : (i k : ℕ) → i * 2 ≤ i * 2 * 2 ^ k
le_times i k = grind (arith, one-le-pow k 2)

next_power_loop_lem :
    (fuel size i : ℕ)
    → 0 < i
    → i * 2 ^ fuel < 2 ^ 64
    → size ≤ i * 2 ^ fuel
    → let r = next_power_loop fuel size i in (size ≤ r) × PowerOf i r × ((r ≡ i) ⊎ (r < 2 * size))
unfolding next_power_loop
next_power_loop_lem zero size i p small h = (omega arith, (0, omega arith), inl refl)
next_power_loop_lem (suc fuel) size i p small h = elim (Bool-cases (leb size i)) [
  | inl enough ↦ rw enough (ground arith, (0, omega arith), inl refl)
  | inr less ↦
      let grow = doubled i fuel in
      let below : i < size = ground arith in
      let fits : i * 2 % 2 ^ 64 ≡ i * 2 = omega (arith, le_times i fuel) in
      let (lo, (k, e), hi) =
        next_power_loop_lem fuel size (i * 2) (omega arith) (omega arith) (omega arith) in
      rw (less, fits) (lo, (suc k, e ∙ doubled i k), inr (omega arith))
]

-- For a size below LONG_MAX `_dictNextPower` gives 4 * 2 ^ k for some k, no less than the size, and
-- less than twice the size or else 4.
pub next_power_lem :
    (size : ℕ)
    → size < long_max
    → (size ≤ next_power size)
      × PowerOf initial_size (next_power size)
      × ((next_power size ≡ initial_size) ⊎ (next_power size < 2 * size))
unfolding next_power
next_power_lem size h =
    let test : leb long_max size ≡ false = ground arith in
    rw test (next_power_loop_lem 30 size initial_size (omega arith) (omega arith) (omega arith))

pub next_power_pos : (size : ℕ) → 0 < next_power size
next_power_pos size = elim (dec_lt size long_max) [
  | yes p ↦ let (lo, (k, e), hi) = next_power_lem size p in omega (arith, one-le-pow k 2)
  | no p ↦ unfold next_power in ground arith
]

pub next_power_small : (size : ℕ) → next_power size < 2 ^ 32
next_power_small size = elim (dec_lt size long_max) [
  | yes p ↦ omega (arith, (next_power_lem size p).2)
  | no p ↦ unfold next_power in ground arith
]

-- The table into which a new key goes has buckets.
abbrev pub HasRoom {ℓ} : {K V : Type ℓ} → Dict K V → Type 0
HasRoom d = 0 < (if is_rehashing d then d.ht1.size else d.ht0.size)

-- What `_dictExpandIfNeeded` achieves.
pub record Prepared {ℓ} {K V : Type ℓ} (type : DictType K) (d : Dict K V) (r : Dict K V × Bool)
    : Type ℓ where
  pub keeps : Keeps type d r.0
  pub succeeds : r.1 ≡ true
  pub room : HasRoom r.0

module _ {ℓ} {K V : Type ℓ} (type : DictType K) where
  module _ (d : Dict K V) (valid : IsValid type d) where
    first_table : (n : ℕ) → n < 2 ^ 32 → d.ht0.size ≡ 0 → Keeps type d (record d { ht0 = fresh n })
    unfolding view chain_find count
    first_table n small e =
        let (idle, empty0, empty1) = no_table type d valid e in
        record {
          valid = record {
            table0 = fresh-IsTable type n small;
            table1 = valid.table1;
            once = λ q. rw (empty1 (index type d.ht1 q)) (omega arith);
            idle = valid.idle;
            idle_used = valid.idle_used;
            moving = λ i p. cc;
          };
          map = λ q. rw (empty0 (index type d.ht0 q), empty1 (index type d.ht1 q));
          entries =
              omega (arith, valid.table0.used, total_nil d.ht0.size d.ht0.slots (λ i h. empty0 i));
        }

    second_table :
        (n : ℕ)
        → 0 < n
        → n < 2 ^ 32
        → 0 < d.ht0.size
        → d.rehashidx ≡ none
        → Keeps type d (record d { ht1 = fresh n; rehashidx = some 0 })
    unfolding view chain_find count
    second_table n p small q idle = record {
      valid = record {
        table0 = valid.table0;
        table1 = fresh-IsTable type n small;
        once = λ x. omega (arith, valid.once x);
        idle = λ e. cc;
        idle_used = λ e. cc;
        moving = λ i e. (
          p,
          omega (arith, some-injective 0 i e),
          q,
          λ j h. absurd (omega (arith, some-injective 0 i e)),
        );
      };
      map = λ x. rw (valid.idle idle (index type d.ht1 x));
      entries = omega (arith, valid.idle_used idle);
    }

    -- `dictExpand` keeps a valid dictionary valid, its map and its number of entries, whether it
    -- succeeds or not.
    pub expand-Keeps : (size : ℕ) → Keeps type d (expand d size).0
    unfolding expand
    expand-Keeps size = elim (Bool-cases (is_rehashing d || ltb size d.ht0.used)) [
      | inl refused ↦ rw refused (Keeps-refl type d valid)
      | inr free ↦ elim (Bool-cases (d.ht0.size == 0)) [
        | inl empty ↦
            rw (free, empty)
              (first_table (next_power size) (next_power_small size) ((==_iff _ _).0 empty))
        | inr table ↦
            rw (free, table)
              (second_table (next_power size) (next_power_pos size) (next_power_small size)
                (ground arith) (idle_none d.rehashidx (ground arith)))
      ]
    ]

    -- `dictResize` keeps a valid dictionary valid, its map and its number of entries, whether it is
    -- allowed or not.
    pub resize-Keeps : (can_resize : Bool) → Keeps type d (resize can_resize d).0
    unfolding resize
    resize-Keeps can_resize = elim (Bool-cases (not can_resize || is_rehashing d)) [
      | inl refused ↦ rw refused (Keeps-refl type d valid)
      | inr free ↦ rw free (expand-Keeps _)
    ]

    expand-ok :
        (size : ℕ)
        → is_rehashing d ≡ false
        → d.ht0.used ≤ size
        → ((expand d size).1 ≡ true) × HasRoom (expand d size).0
    unfolding expand
    expand-ok size off h =
        let room : ltb size d.ht0.used ≡ false = ground arith in
        elim (Bool-cases (d.ht0.size == 0)) [
          | inl empty ↦ rw (off, room, empty, off) (refl, next_power_pos size)
          | inr table ↦ rw (off, room, table) (refl, next_power_pos size)
        ]

    double-le :
        d.ht0.used < 2 ^ 62
        → d.ht0.used ≤ (if ltb d.ht0.used d.ht0.size then d.ht0.size else d.ht0.used) * 2 % 2 ^ 64
    double-le few = ground (arith, valid.table0.small)

    expand-Prepared :
        (size : ℕ) → is_rehashing d ≡ false → d.ht0.used ≤ size → Prepared type d (expand d size)
    expand-Prepared size off h =
        let (ok, room) = expand-ok size off h in
        record { keeps = expand-Keeps size; succeeds = ok; room = room }

    stay-Prepared : HasRoom d → Prepared type d (d, true)
    stay-Prepared room = record { keeps = Keeps-refl type d valid; succeeds = refl; room = room }

    no_entries : d.ht0.size ≡ 0 → d.ht0.used ≡ 0
    no_entries e =
        let (idle, empty0, empty1) = no_table type d valid e in
        omega (arith, valid.table0.used, total_nil d.ht0.size d.ht0.slots (λ i h. empty0 i))

    -- `_dictExpandIfNeeded` on a valid dictionary with fewer than 2 ^ 62 entries in its first table
    -- succeeds, keeps it valid, its map and its number of entries, and the table into which a new
    -- key goes has buckets.
    pub expand_if_needed-Prepared :
        (can_resize : Bool) → d.ht0.used < 2 ^ 62 → Prepared type d (expand_if_needed can_resize d)
    unfolding expand_if_needed
    expand_if_needed-Prepared can_resize few = elim (Bool-cases (is_rehashing d)) [
      | inl on ↦ rw on (stay-Prepared (rw on (valid.moving _ (rehashing_at d.rehashidx on)).0))
      | inr off ↦ elim (Bool-cases (d.ht0.size == 0)) [
        | inl empty ↦
            rw (off, empty)
              (expand-Prepared initial_size off (omega (arith, no_entries ((==_iff _ _).0 empty))))
        | inr table ↦
            elim (Bool-cases (
              leb d.ht0.size d.ht0.used
              && (can_resize || ltb force_resize_ratio (d.ht0.used / d.ht0.size)))) [
                | inl full ↦ rw (off, table, full) (expand-Prepared _ off (double-le few))
                | inr roomy ↦ rw (off, table, roomy) (stay-Prepared (rw off (ground arith)))
              ]
      ]
    ]
