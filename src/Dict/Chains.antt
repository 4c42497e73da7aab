-- ===== src/Dict/Chains.antt =====
-- Chains of entries, arrays of them, and what the type of a dictionary asks of its callbacks.
use Prim.Native.Nat.{bit_and, digits, bit_and-bitwise}
use my_node_redis.Prelude.{
  ℕ, zero, suc, ◌/◌, ◌≤◌, ◌≡◌, ◌↔◌, ◌==◌, if◌then◌else◌, Bool, true, Option, none, some, List, [],
  ◌∷◌, arith, min,
}

-- `hashFunction` and `keyCompare` of a `dictType`. Keys that compare equal are taken as one value.
pub record DictType {ℓ} (K : Type ℓ) : Type ℓ where
  pub hash : K → ℕ
  pub equal : K → K → Bool
  pub equal_iff : (a b : K) → (equal a b ≡ true) ↔ (a ≡ b)

abbrev pub Chain {ℓ} : Type ℓ → Type ℓ → Type ℓ
Chain K V = List (K × V)

abbrev pub Slots {ℓ} : Type ℓ → Type ℓ → Type ℓ
Slots K V = ℕ → Chain K V

module _ {ℓ} {K V : Type ℓ} where
  -- `table[i] = c`
  unfoldable pub update : Slots K V → ℕ → Chain K V → Slots K V
  update t i c j = if j == i then c else t j

  -- `entry->next = table[i]; table[i] = entry`
  unfoldable pub push : Slots K V → ℕ → K × V → Slots K V
  push t i e = update t i (e ∷ t i)

module _ {ℓ} {K V : Type ℓ} (type : DictType K) where
  -- the walk `while(he)` of `dictFind`
  unfoldable pub chain_find : K → Chain K V → Option V
  chain_find key [] = none
  chain_find key (he ∷ next) = if type.equal key he.0 then some he.1 else chain_find key next

  -- the unlinking of the first entry with the key
  unfoldable pub erase : K → Chain K V → Chain K V
  erase key [] = []
  erase key (he ∷ next) = if type.equal key he.0 then next else he ∷ erase key next

  -- `dictSetVal` on the first entry with the key
  unfoldable pub assign : K → V → Chain K V → Chain K V
  assign key val [] = []
  assign key val (he ∷ next) =
      if type.equal key he.0 then (he.0, val) ∷ next else he ∷ assign key val next

  -- the inner loop of `dictRehash`: each entry becomes the head of its bucket in the new table
  unfoldable pub move_chain : ℕ → Chain K V → Slots K V → Slots K V
  unfolding push update
  move_chain mask [] t = t
  move_chain mask (e ∷ c) t = move_chain mask c (push t (bit_and (type.hash e.0) mask) e)

-- A masked hash is at most the mask.
digits-le : (n a b : ℕ) → digits (λ b. zero) min n a b ≤ b
digits-le zero a b = omega arith
digits-le (suc n) zero b = omega arith
digits-le (suc n) (suc a) b = omega (arith, digits-le n (suc a / 2) (b / 2))

pub bit_and-le : (a m : ℕ) → bit_and a m ≤ m
bit_and-le a m = simp bit_and-bitwise (digits-le a a m)
