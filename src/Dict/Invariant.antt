-- ===== src/Dict/Invariant.antt =====
-- The representation invariant of a dictionary, and the map that it stands for.
use Prim.Native.Nat.{bit_and}
use my_node_redis.Prelude.{
  ℕ, ◌+◌, ◌-◌, ◌^◌, ◌≤◌, ◌<◌, ◌≡◌, ◌≢◌, inl, inr, ◌==◌, ==_iff, Bool-cases, false, Option, none,
  some, [], length, refl, arith, sym, ap, ◌∙◌,
}
use my_node_redis.Dict.Chains.{DictType, Chain, update, chain_find, bit_and-le}
use my_node_redis.Dict.Lookup.{count, first, total, total-update, equal_hash, update_ne, total_nil}
use my_node_redis.Dict.{Table, Dict, index, chain_of, create, fresh}

module _ {ℓ} {K V : Type ℓ} (type : DictType K) where
  -- Every key stands in its own bucket, and `used` counts the entries. No table is larger than
  -- `_dictNextPower` allows.
  pub record IsTable (t : Table K V) : Type ℓ where
    pub home : (q : K) (i : ℕ) → index type t q ≢ i → count type q (t.slots i) ≡ 0
    pub used : t.used ≡ total t.size t.slots
    pub mask : t.sizemask ≡ t.size - 1
    pub small : t.size < 2 ^ 32
    pub outside : (i : ℕ) → t.size ≤ i → t.slots i ≡ []

  -- `once`: a key stands once, in one of the tables. `idle`: a table that is not being filled has
  -- no entry. `moving`: the buckets below `rehashidx` are empty.
  pub record IsValid (d : Dict K V) : Type ℓ where
    pub table0 : IsTable d.ht0
    pub table1 : IsTable d.ht1
    pub once :
        (q : K) → count type q (chain_of type d.ht0 q) + count type q (chain_of type d.ht1 q) ≤ 1
    pub idle : d.rehashidx ≡ none → (i : ℕ) → d.ht1.slots i ≡ []
    pub idle_used : d.rehashidx ≡ none → d.ht1.used ≡ 0
    pub moving :
        (n : ℕ)
        → d.rehashidx ≡ some n
        → (0 < d.ht1.size)
          × (n ≤ d.ht0.size)
          × (0 < d.ht0.size)
          × ((i : ℕ) → i < n → d.ht0.slots i ≡ [])

  -- the value of a key
  unfoldable pub view : Dict K V → K → Option V
  view d q =
      first (chain_find type q (chain_of type d.ht0 q)) (chain_find type q (chain_of type d.ht1 q))

  pub index-lt :
      (t : Table K V) (q : K) → t.sizemask ≡ t.size - 1 → 0 < t.size → index type t q < t.size
  index-lt t q e h = omega (arith, bit_and-le (type.hash q) t.sizemask)

  pub fresh-IsTable : (n : ℕ) → n < 2 ^ 32 → IsTable (fresh n)
  unfolding count
  fresh-IsTable n h = record {
    home = λ q i h. refl;
    used = sym (total_nil n _ (λ i h. refl));
    mask = refl;
    small = h;
    outside = λ i h. refl;
  }

  pub create-IsValid : IsValid (create {K = K} {V = V})
  unfolding create count
  create-IsValid = record {
    table0 = fresh-IsTable 0 (omega arith);
    table1 = fresh-IsTable 0 (omega arith);
    once = λ q. omega arith;
    idle = λ e i. refl;
    idle_used = λ e. refl;
    moving = λ n e. cc;
  }

  -- Writing a chain over the bucket of `k`: `count` of other keys may not grow.
  module _ (t : Table K V) (ok : IsTable t) (k : K) (some_bucket : 0 < t.size) where
    pub write-IsTable :
        (c : Chain K V) (u : ℕ)
        → ((q : K) → type.equal k q ≡ false → count type q c ≤ count type q (chain_of type t k))
        → u + length (chain_of type t k) ≡ t.used + length c
        → IsTable (record t { slots = update t.slots (index type t k) c; used = u })
    unfolding update
    write-IsTable c u few entries =
        let i : ℕ = index type t k in
        let inside : i < t.size = index-lt t k ok.mask some_bucket in
        record {
          home = λ q j h. elim (Bool-cases (j == i)) [
            | inl here ↦ rw here (elim (Bool-cases (type.equal k q)) [
              | inl same ↦ absurd (
                  h (
                    ap (λ x. bit_and x t.sizemask) (sym (equal_hash type k q same))
                    ∙ sym ((==_iff j i).0 here)))
              | inr other ↦
                  omega (arith, few q other, ok.home q i (λ e. h (e ∙ sym ((==_iff j i).0 here))))
            ])
            | inr elsewhere ↦ rw elsewhere (ok.home q j h)
          ];
          used = omega (arith, total-update t.size i t.slots c inside, ok.used);
          mask = ok.mask;
          small = ok.small;
          outside = λ j h. update_ne t.slots i j c (omega arith) ∙ ok.outside j h;
        }
