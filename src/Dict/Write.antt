-- ===== src/Dict/Write.antt =====
-- Writing the chain of one key in one of the two tables.
use Prim.Native.Nat.{bit_and}
use my_node_redis.Prelude.{
  ℕ, ◌+◌, ◌≤◌, ◌<◌, ◌≡◌, inl, inr, Bool-cases, if◌then◌else◌, true, false, Option, none, some,
  length, refl, arith, sym, ap, ◌∙◌, ℕ_discrete,
}
use my_node_redis.Dict.Chains.{DictType, Chain, update, chain_find}
use my_node_redis.Dict.Lookup.{count, first, update_ne, update_self, equal_hash}
use my_node_redis.Dict.{Table, Dict, index, chain_of, is_rehashing, dict_size}
use my_node_redis.Dict.Invariant.{IsTable, IsValid, view, write-IsTable}

abbrev pub found {ℓ} : {V : Type ℓ} → Option V → ℕ
found none = 0
found (some v) = 1

-- The map is that of `d` but for the value of `k`, which is now `v`; the entries are counted.
pub record Writes {ℓ} {K V : Type ℓ} (type : DictType K) (d : Dict K V) (k : K) (v : Option V)
    (d' : Dict K V) : Type ℓ where
  pub valid : IsValid type d'
  pub map : (q : K) → view type d' q ≡ (if type.equal k q then v else view type d q)
  pub entries : dict_size d' + found (view type d k) ≡ dict_size d + found v

module _ {ℓ} {K V : Type ℓ} (type : DictType K) (t : Table K V) (k : K) (c : Chain K V)
    (u : ℕ) where
  abbrev pub wrote : Table K V
  wrote = record t { slots = update t.slots (index type t k) c; used = u }

  -- A chain that differs from the old one at most in `k`.
  pub record Alike : Type ℓ where
    pub few : (q : K) → type.equal k q ≡ false → count type q c ≤ count type q (chain_of type t k)
    pub reads :
        (q : K)
        → type.equal k q ≡ false
        → chain_find type q c ≡ chain_find type q (chain_of type t k)
    pub entries : u + length (chain_of type t k) ≡ t.used + length c

  same_bucket : (q : K) → type.equal k q ≡ true → index type t q ≡ index type t k
  same_bucket q e = ap (λ h. bit_and h t.sizemask) (sym (equal_hash type k q e))

  pub wrote_self : (q : K) → type.equal k q ≡ true → chain_of type wrote q ≡ c
  wrote_self q e = rw (same_bucket q e) (update_self t.slots (index type t k) c)

  module _ (alike : Alike) where
    pub wrote_other :
        (q : K)
        → type.equal k q ≡ false
        → (chain_find type q (chain_of type wrote q) ≡ chain_find type q (chain_of type t q))
          × (count type q (chain_of type wrote q) ≤ count type q (chain_of type t q))
    wrote_other q e = elim (ℕ_discrete (index type t q) (index type t k)) [
      | yes p ↦
          let same : chain_of type t q ≡ chain_of type t k = ap t.slots p in
          rw (p, update_self)
            (
              alike.reads q e ∙ ap (chain_find type q) (sym same),
              omega (arith, alike.few q e, ap (count type q) same),
            )
      | no p ↦ rw (update_ne t.slots (index type t k) (index type t q) c p) (refl, omega arith)
    ]

    pub wrote-IsTable : IsTable type t → 0 < t.size → IsTable type wrote
    wrote-IsTable ok room = write-IsTable type t ok k room c u alike.few alike.entries

module _ {ℓ} {K V : Type ℓ} (type : DictType K) (d : Dict K V) (valid : IsValid type d) (k : K)
    (c : Chain K V) (u : ℕ) (v : Option V) where
  equal_eq : (q : K) → type.equal k q ≡ true → q ≡ k
  equal_eq q e = sym ((type.equal_iff k q).0 e)

  -- a write to `ht0` in a bucket that has not been moved
  pub write0-Writes :
      Alike type d.ht0 k c u
      → 0 < d.ht0.size
      → ((n : ℕ) → d.rehashidx ≡ some n → n ≤ index type d.ht0 k)
      → count type k c + count type k (chain_of type d.ht1 k) ≤ 1
      → first (chain_find type k c) (chain_find type k (chain_of type d.ht1 k)) ≡ v
      → u + found (view type d k) ≡ d.ht0.used + found v
      → Writes type d k v (record d { ht0 = wrote type d.ht0 k c u })
  unfolding view
  write0-Writes alike room unmoved once here size = record {
    valid = record {
      table0 = wrote-IsTable type d.ht0 k c u alike valid.table0 room;
      table1 = valid.table1;
      once = λ q. elim (Bool-cases (type.equal k q)) [
        | inl e ↦ rw (equal_eq q e, update_self) once
        | inr e ↦ omega (arith, (wrote_other type d.ht0 k c u alike q e).1, valid.once q)
      ];
      idle = valid.idle;
      idle_used = valid.idle_used;
      moving = λ n e. (
        (valid.moving n e).0,
        (valid.moving n e).1,
        (valid.moving n e).2,
        λ i h.
            update_ne d.ht0.slots (index type d.ht0 k) i c (omega (arith, unmoved n e))
            ∙ (valid.moving n e).3 i h,
      );
    };
    map = λ q. elim (Bool-cases (type.equal k q)) [
      | inl e ↦ rw (e, equal_eq q e, update_self) here
      | inr e ↦ rw (e, (wrote_other type d.ht0 k c u alike q e).0)
    ];
    entries = omega arith;
  }

  -- a write to `ht1`, which takes the new keys while a rehash is under way
  pub write1-Writes :
      Alike type d.ht1 k c u
      → is_rehashing d ≡ true
      → 0 < d.ht1.size
      → count type k (chain_of type d.ht0 k) + count type k c ≤ 1
      → first (chain_find type k (chain_of type d.ht0 k)) (chain_find type k c) ≡ v
      → u + found (view type d k) ≡ d.ht1.used + found v
      → Writes type d k v (record d { ht1 = wrote type d.ht1 k c u })
  unfolding view
  write1-Writes alike on room once here size = record {
    valid = record {
      table0 = valid.table0;
      table1 = wrote-IsTable type d.ht1 k c u alike valid.table1 room;
      once = λ q. elim (Bool-cases (type.equal k q)) [
        | inl e ↦ rw (equal_eq q e, update_self) once
        | inr e ↦ omega (arith, (wrote_other type d.ht1 k c u alike q e).1, valid.once q)
      ];
      idle = λ e. cc;
      idle_used = λ e. cc;
      moving = λ n e. (room, (valid.moving n e).1, (valid.moving n e).2, (valid.moving n e).3);
    };
    map = λ q. elim (Bool-cases (type.equal k q)) [
      | inl e ↦ rw (e, equal_eq q e, update_self) here
      | inr e ↦ rw (e, (wrote_other type d.ht1 k c u alike q e).0)
    ];
    entries = omega arith;
  }
