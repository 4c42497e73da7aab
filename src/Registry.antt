-- ===== src/Registry.antt =====
-- Lists of clients by key: `server.pubsub_channels` of pubsub.c and `db->watched_keys` of multi.c. Both
-- are a dictionary whose values are lists of clients, and both files change it in the same way. A
-- client stands for its address, and the dictionary for the map of Dict/Invariant.
pub mod Counts
pub mod Agreement
use my_node_redis.Prelude.{
  ℕ, ◌≡◌, ◌≢◌, Bool, true, false, if◌then◌else◌, Option, none, some, List, [], ◌∷◌, ◌++◌,
}
use my_node_redis.Prelude.Equality.{Eq, ◌=?◌, contains, erase, number_eq}

abbrev pub Registry {ℓ} : Type ℓ → Type ℓ
Registry W = W → Option (List ℕ)

abbrev pub clients_of : Option (List ℕ) → List ℕ
clients_of none = []
clients_of (some l) = l

-- the clients that are listed under a key
abbrev pub listed {ℓ} : {W : Type ℓ} → Registry W → W → List ℕ
listed r w = clients_of (r w)

-- `if (listLength(clients) == 0) dictDelete(...)`
abbrev pub unless_empty : List ℕ → Option (List ℕ)
unless_empty [] = none
unless_empty (c ∷ l) = some (c ∷ l)

module _ {ℓ} {W : Type ℓ} ⦃e : Eq W⦄ where
  unfoldable pub assign : Registry W → W → Option (List ℕ) → Registry W
  assign r w l v = if w =? v then l else r v

  -- a new list if there is none, and the client at its tail
  unfoldable pub enter : Registry W → W → ℕ → Registry W
  unfolding assign
  enter r w c = assign r w (some (listed r w ++ c ∷ []))

  leave_list : Registry W → W → ℕ → Option (List ℕ) → Option (Registry W)
  unfolding assign
  leave_list r w c none = none
  leave_list r w c (some l) =
      if contains c l then some (assign r w (unless_empty (erase c l))) else none

  -- the client is taken off the list, and an empty list out of the dictionary; `none` is an assertion
  -- that fails, for no list or no node in it
  unfoldable pub leave : Registry W → W → ℕ → Option (Registry W)
  unfolding leave_list
  leave r w c = leave_list r w c (r w)
