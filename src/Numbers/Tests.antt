-- ===== src/Numbers/Tests.antt =====
-- Runs of the conversions, and the theorems about them at these numbers.
use my_node_redis.Prelude.{◌≡◌, refl, some, none, arith, ◌∷◌, [], ◌^◌, ◌-◌}
use my_node_redis.Prelude.Int.{negsuc}
use my_node_redis.Memory.Laws.{Fits}
use my_node_redis.Numbers.{ll2string, string2ll, parse_magnitude, parse_loop, signed}
use my_node_redis.Numbers.Parse.{string2ll-ll2string, ll2string-string2ll}

string2ll-ll2string_example :
    string2ll (ll2string 32 (negsuc (2 ^ 63 - 1))) ≡ some (negsuc (2 ^ 63 - 1))
string2ll-ll2string_example =
    string2ll-ll2string 32 (negsuc (2 ^ 63 - 1)) (omega arith) (omega arith, omega arith)

reads : string2ll (b'-' ∷ b'4' ∷ b'2' ∷ []) ≡ some (negsuc 41)
unfolding string2ll parse_magnitude parse_loop signed
reads = refl

ll2string-string2ll_example :
    Fits 8 (negsuc 41) × (ll2string 32 (negsuc 41) ≡ b'-' ∷ b'4' ∷ b'2' ∷ [])
ll2string-string2ll_example =
    ll2string-string2ll 32 (b'-' ∷ b'4' ∷ b'2' ∷ []) (negsuc 41) (omega arith) reads

leading_zero : string2ll (b'0' ∷ b'7' ∷ []) ≡ none
unfolding string2ll parse_magnitude parse_loop signed
leading_zero = refl
