-- ===== src/Glob/Tests.antt =====
-- Runs of the matching.
use my_node_redis.Prelude.{ℕ, ◌≡◌, refl, true, false, some, List, [], ◌∷◌, get_or, length}
use my_node_redis.Prelude.Int.{pos}
use my_node_redis.Glob.{
  Glob, string_match_len, round, skip_stars, skip_trailing, class_loop, class_step, suffixes,
  in_range,
}

abbrev glob : List ℕ → List ℕ → Glob
glob pattern string = record {
  pattern = λ i. pos (get_or pattern i 0);
  pattern_end = length pattern;
  string = λ i. pos (get_or string i 0);
  string_end = length string;
  nocase = false;
  tolower = λ c. c;
}

star_run :
    string_match_len 20 (glob (b'h' ∷ b'*' ∷ b'o' ∷ []) (b'h' ∷ b'e' ∷ b'l' ∷ b'o' ∷ [])) 0 0
    ≡ some true
unfolding string_match_len round skip_stars skip_trailing suffixes
star_run = refl

class_run :
    string_match_len 20 (glob (b'[' ∷ b'a' ∷ b'-' ∷ b'c' ∷ b']' ∷ []) (b'd' ∷ [])) 0 0 ≡ some false
unfolding string_match_len round class_loop class_step in_range
class_run = refl
