-- ===== src/Dict/Empty.antt =====
-- `dictEmpty`.
use my_node_redis.Prelude.{◌≡◌, refl, none}
use my_node_redis.Dict.Chains.{DictType, chain_find}
use my_node_redis.Dict.Invariant.{IsValid, view, create-IsValid}
use my_node_redis.Dict.{Dict, empty, clear, reset, create, dict_size}

module _ {ℓ} {K V : Type ℓ} (type : DictType K) where
  empty-create : (d : Dict K V) → empty d ≡ create
  unfolding empty clear create reset
  empty-create d = refl

  create-view : (q : K) → view type (create {K = K} {V = V}) q ≡ none
  unfolding view create reset chain_find
  create-view q = refl

  empty-size : (d : Dict K V) → dict_size (empty d) ≡ 0
  unfolding empty clear reset
  empty-size d = refl

  -- `dictEmpty` on any dictionary, also in the midst of a rehashing, leaves a valid one that has no
  -- key and counts no entry.
  pub empty_lem :
      (d : Dict K V)
      → IsValid type (empty d)
        × ((q : K) → view type (empty d) q ≡ none)
        × (dict_size (empty d) ≡ 0)
  empty_lem d = (
    rw (empty-create d) (create-IsValid type),
    λ q. rw (empty-create d) (create-view q),
    empty-size d,
  )
