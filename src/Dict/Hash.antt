-- ===== src/Dict/Hash.antt =====
-- The hash functions of dict.c, on unsigned ints of 32 bits. `seed` is `dict_hash_function_seed`.
use Prim.Native.Nat.{bit_xor}
use my_node_redis.Prelude.{
  ℕ, ◌+◌, ◌-◌, ◌*◌, ◌/◌, ◌%◌, ◌^◌, ◌==◌, Bool, true, false, List, [], ◌∷◌, length, if◌then◌else◌,
}

abbrev pub u32 : ℕ → ℕ
u32 n = n % 2 ^ 32

-- `~n`
abbrev pub complement : ℕ → ℕ
complement n = 2 ^ 32 - 1 - n

-- `dictIntHashFunction`
unfoldable pub int_hash : ℕ → ℕ
int_hash k0 =
    let k1 : ℕ = u32 (k0 + complement (u32 (k0 * 2 ^ 15))) in
    let k2 : ℕ = bit_xor k1 (k1 / 2 ^ 10) in
    let k3 : ℕ = u32 (k2 + u32 (k2 * 2 ^ 3)) in
    let k4 : ℕ = bit_xor k3 (k3 / 2 ^ 6) in
    let k5 : ℕ = u32 (k4 + complement (u32 (k4 * 2 ^ 11))) in bit_xor k5 (k5 / 2 ^ 16)

-- `dictIdentityHashFunction`
unfoldable pub identity_hash : ℕ → ℕ
identity_hash k = k

abbrev pub unset_seed : ℕ
unset_seed = 5381

-- `dictSetHashFunctionSeed`: the new seed; false is -1
unfoldable pub set_seed : ℕ → ℕ → ℕ × Bool
set_seed seed new = if seed == unset_seed then (new, true) else (seed, false)

abbrev pub mixer : ℕ
mixer = 0x5bd1e995

-- one round of the loop over words
abbrev pub mix : ℕ → ℕ → ℕ
mix h k0 =
    let k1 : ℕ = u32 (k0 * mixer) in
    let k2 : ℕ = bit_xor k1 (k1 / 2 ^ 24) in bit_xor (u32 (h * mixer)) (u32 (k2 * mixer))

-- `switch(len)`, which falls through
abbrev pub mix_rest : ℕ → List ℕ → ℕ
mix_rest h (a ∷ b ∷ c ∷ []) = u32 (bit_xor (bit_xor (bit_xor h (c * 2 ^ 16)) (b * 2 ^ 8)) a * mixer)
mix_rest h (a ∷ b ∷ []) = u32 (bit_xor (bit_xor h (b * 2 ^ 8)) a * mixer)
mix_rest h (a ∷ []) = u32 (bit_xor h a * mixer)
mix_rest h rest = h

-- `while(len >= 4)`, with little-endian words
unfoldable pub mix_words : ℕ → List ℕ → ℕ
mix_words h (a ∷ b ∷ c ∷ d ∷ rest) =
    mix_words (mix h (a + 2 ^ 8 * b + 2 ^ 16 * c + 2 ^ 24 * d)) rest
mix_words h rest = mix_rest h rest

-- `dictGenHashFunction`
unfoldable pub gen_hash : ℕ → List ℕ → ℕ
gen_hash seed key =
    let h1 : ℕ = mix_words (bit_xor seed (u32 (length key))) key in
    let h2 : ℕ = u32 (bit_xor h1 (h1 / 2 ^ 13) * mixer) in bit_xor h2 (h2 / 2 ^ 15)

-- `dictGenCaseHashFunction`, with `tolower` of the C library
unfoldable pub gen_case_hash : (ℕ → ℕ) → ℕ → List ℕ → ℕ
gen_case_hash tolower hash [] = hash
gen_case_hash tolower hash (c ∷ buf) =
    gen_case_hash tolower (u32 (u32 (u32 (hash * 2 ^ 5) + hash) + tolower c)) buf
