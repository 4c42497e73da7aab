-- ===== src/Memory/Table.antt =====
-- Facts about all bytes, by running a test on each.
use my_node_redis.Prelude.{
  ℕ, zero, suc, ◌<◌, ◌≡◌, if◌then◌else◌, Bool-cases, ℕ_discrete, inl, inr, Bool, true, false, arith,
}

-- A test that holds at every number below a bound, by running it.
unfoldable pub holds_below : (test : ℕ → Bool) → ℕ → Bool
holds_below test zero = true
holds_below test (suc k) = if test k then holds_below test k else false

pub holds_at : (test : ℕ → Bool) (k b : ℕ) → b < k → holds_below test k ≡ true → test b ≡ true
unfolding holds_below
holds_at test zero b lt all = absurd (omega arith)
holds_at test (suc k) b lt all = elim (Bool-cases (test k)) [
  | inr bad ↦ cc (rw bad at all)
  | inl good ↦ elim (ℕ_discrete b k) [
    | yes last ↦ rw last good
    | no earlier ↦ holds_at test k b (omega arith) (rw good at all)
  ]
]
