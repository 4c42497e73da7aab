-- ===== src/Dict/Lookup.antt =====
-- How often a key stands in a chain, and what a search finds after each change of a chain.
use Prim.Native.Nat.{bit_and}
use my_node_redis.Prelude.{
  ℕ, zero, suc, ◌+◌, ◌≤◌, ◌<◌, ◌≡◌, ◌≢◌, ◌==◌, if◌then◌else◌, Bool, true, false, Option, none, some,
  bool_ext, dec_lt, [], ◌∷◌, length, refl, arith, sym, ap, ◌∙◌,
}
use my_node_redis.Dict.Chains.{
  DictType, Chain, Slots, update, push, chain_find, erase, assign, move_chain, bit_and-le,
}

abbrev pub to_nat : Bool → ℕ
to_nat true = 1
to_nat false = 0

-- the first result, if there is one
abbrev pub first {ℓ} : {V : Type ℓ} → Option V → Option V → Option V
first (some v) o = some v
first none o = o

module _ {ℓ} {K : Type ℓ} (type : DictType K) where
  pub equal_refl : (a : K) → type.equal a a ≡ true
  equal_refl a = (type.equal_iff a a).1 refl

  pub equal_sym : (a b : K) → type.equal a b ≡ type.equal b a
  equal_sym a b =
      bool_ext _ _ (λ e. (type.equal_iff b a).1 (sym ((type.equal_iff a b).0 e)))
        (λ e. (type.equal_iff a b).1 (sym ((type.equal_iff b a).0 e)))

  pub equal_left : (a b chain : K) → type.equal a b ≡ true → type.equal a chain ≡ type.equal b chain
  equal_left a b chain e = ap (λ x. type.equal x chain) ((type.equal_iff a b).0 e)

  pub equal_hash : (a b : K) → type.equal a b ≡ true → type.hash a ≡ type.hash b
  equal_hash a b e = ap type.hash ((type.equal_iff a b).0 e)

module _ {ℓ} {K V : Type ℓ} (type : DictType K) where
  unfoldable pub count : K → Chain K V → ℕ
  count key [] = 0
  count key (entry ∷ chain) = to_nat (type.equal key entry.0) + count key chain

  pub find-eq-none :
      (q : K) (chain : Chain K V) → count q chain ≡ 0 → chain_find type q chain ≡ none
  unfolding count chain_find
  find-eq-none key [] nothing = refl
  find-eq-none key (entry ∷ chain) nothing = ground (arith, find-eq-none key chain)

  pub count-eq-zero :
      (q : K) (chain : Chain K V) → chain_find type q chain ≡ none → count q chain ≡ 0
  unfolding count chain_find
  count-eq-zero q [] h = refl
  count-eq-zero q (e ∷ chain) h = ground (arith, count-eq-zero q chain)

  pub count_pos :
      (q : K) (chain : Chain K V) (v : V) → chain_find type q chain ≡ some v → 0 < count q chain
  unfolding count chain_find
  count_pos q [] v h = cc
  count_pos q (e ∷ chain) v h = ground (arith, count_pos q chain v)

  module _ (k q : K) where
    pub find-assign :
        (v : V) (chain : Chain K V) (old : V)
        → chain_find type k chain ≡ some old
        → chain_find type q (assign type k v chain)
          ≡ (if type.equal k q then some v else chain_find type q chain)
    unfolding chain_find assign
    find-assign v [] old h = cc
    find-assign v (e ∷ chain) old h = ground (
      arith,
      find-assign v chain old,
      equal_left type k q e.0,
      equal_left type k e.0 q,
      equal_sym type e.0 q,
    )

    pub count-assign : (v : V) (chain : Chain K V) → count q (assign type k v chain) ≡ count q chain
    unfolding count assign
    count-assign value [] = refl
    count-assign value (entry ∷ chain) = ground (arith, count-assign value chain)

    pub find-erase :
        (chain : Chain K V)
        → count q chain ≤ 1
        → chain_find type q (erase type k chain)
          ≡ (if type.equal k q then none else chain_find type q chain)
    unfolding count chain_find erase
    find-erase [] h = ground arith
    find-erase (e ∷ chain) h = ground (
      arith,
      find-erase chain,
      find-eq-none q chain,
      equal_left type k q e.0,
      equal_left type k e.0 q,
      equal_sym type e.0 q,
    )

    pub count-erase-le : (chain : Chain K V) → count q (erase type k chain) ≤ count q chain
    unfolding count erase
    count-erase-le [] = omega arith
    count-erase-le (e ∷ chain) = ground (arith, count-erase-le chain)

  pub length-assign :
      (k : K) (v : V) (chain : Chain K V) → length (assign type k v chain) ≡ length chain
  unfolding assign
  length-assign k v [] = refl
  length-assign k v (e ∷ chain) = ground (arith, length-assign k v chain)

  pub length-erase :
      (k : K) (chain : Chain K V) (old : V)
      → chain_find type k chain ≡ some old
      → length (erase type k chain) + 1 ≡ length chain
  unfolding erase chain_find
  length-erase k [] old h = cc
  length-erase k (e ∷ chain) old h = ground (arith, length-erase k chain old)

  -- moving a chain into a table, bucket by bucket
  pub count-move :
      (mask : ℕ) (q : K) (j : ℕ) (chain : Chain K V) (t : Slots K V)
      → count q (move_chain type mask chain t j)
        ≡ (if j == bit_and (type.hash q) mask then count q chain else 0) + count q (t j)
  unfolding count move_chain
  count-move mask q j [] t = ground arith
  count-move mask q j (e ∷ chain) t = ground (
    arith,
    count-move mask q j chain (push t (bit_and (type.hash e.0) mask) e),
    equal_hash type q e.0,
  )

  pub find-move :
      (mask : ℕ) (q : K) (chain : Chain K V) (t : Slots K V)
      → count q chain ≤ 1
      → let i = bit_and (type.hash q) mask in
        chain_find type q (move_chain type mask chain t i)
        ≡ first (chain_find type q chain) (chain_find type q (t i))
  unfolding count move_chain chain_find
  find-move mask q [] t h = refl
  find-move mask q (e ∷ chain) t h = ground (
    arith,
    find-move mask q chain (push t (bit_and (type.hash e.0) mask) e),
    equal_hash type q e.0,
    find-eq-none q chain,
  )

-- the entries of the first `n` buckets
unfoldable pub total {ℓ} : {K V : Type ℓ} → ℕ → Slots K V → ℕ
total zero t = 0
total (suc n) t = length (t n) + total n t

module _ {ℓ} {K V : Type ℓ} where
  pub total_congr :
      (n : ℕ) (t t' : Slots K V) → ((i : ℕ) → i < n → t i ≡ t' i) → total n t ≡ total n t'
  unfolding total
  total_congr zero t t' h = refl
  total_congr (suc n) t t' h =
      omega (arith, ap length (h n (omega arith)), total_congr n t t' (λ i p. h i (omega arith)))

  pub update_ne : (t : Slots K V) (i j : ℕ) (chain : Chain K V) → j ≢ i → update t i chain j ≡ t j
  unfolding update
  update_ne t i j chain h = ground arith

  pub update_self : (t : Slots K V) (i : ℕ) (chain : Chain K V) → update t i chain i ≡ chain
  unfolding update
  update_self t i chain = ground arith

  pub total-update :
      (n i : ℕ) (t : Slots K V) (chain : Chain K V)
      → i < n
      → total n (update t i chain) + length (t i) ≡ total n t + length chain
  unfolding total update
  total-update zero i t chain h = absurd (omega arith)
  total-update (suc n) i t chain h = elim (dec_lt i n) [
    | yes p ↦ ground (arith, total-update n i t chain p)
    | no p ↦
        let last : i ≡ n = omega arith in
        let below : total n (update t i chain) ≡ total n t =
          total_congr n (update t i chain) t (λ j q. update_ne t i j chain (omega arith)) in
        rw last (ground (arith, rw last at below))
  ]

  length-eq-zero : (chain : Chain K V) → length chain ≡ 0 → chain ≡ []
  length-eq-zero [] h = refl
  length-eq-zero (e ∷ chain) h = absurd (omega arith)

  pub total_nil : (n : ℕ) (t : Slots K V) → ((i : ℕ) → i < n → t i ≡ []) → total n t ≡ 0
  unfolding total
  total_nil zero t h = refl
  total_nil (suc n) t h =
      omega (arith, ap length (h n (omega arith)), total_nil n t (λ i p. h i (omega arith)))

  pub total-eq-zero : (n : ℕ) (t : Slots K V) → total n t ≡ 0 → (i : ℕ) → i < n → t i ≡ []
  unfolding total
  total-eq-zero zero t e i h = absurd (omega arith)
  total-eq-zero (suc n) t e i h = elim (dec_lt i n) [
    | yes p ↦ total-eq-zero n t (omega arith) i p
    | no p ↦ let last : i ≡ n = omega arith in rw last (length-eq-zero (t n) (omega arith))
  ]

  pub total-move :
      (type : DictType K) (mask n : ℕ) (chain : Chain K V) (t : Slots K V)
      → mask < n
      → total n (move_chain type mask chain t) ≡ total n t + length chain
  unfolding move_chain push
  total-move type mask n [] t h = omega arith
  total-move type mask n (e ∷ chain) t h =
      let i : ℕ = bit_and (type.hash e.0) mask in
      let inside : i < n = omega (arith, bit_and-le (type.hash e.0) mask) in
      omega (
        arith,
        total-move type mask n chain (update t i (e ∷ t i)) h,
        total-update n i t (e ∷ t i) inside,
      )

  pub move-outside :
      (type : DictType K) (mask : ℕ) (chain : Chain K V) (t : Slots K V) (j : ℕ)
      → mask < j
      → move_chain type mask chain t j ≡ t j
  unfolding move_chain push
  move-outside type mask [] t j h = refl
  move-outside type mask (e ∷ chain) t j h =
      let i : ℕ = bit_and (type.hash e.0) mask in
      move-outside type mask chain (update t i (e ∷ t i)) j h
      ∙ update_ne t i j _ (omega (arith, bit_and-le (type.hash e.0) mask))
