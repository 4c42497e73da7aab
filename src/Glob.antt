-- ===== src/Glob.antt =====
-- redis/src/util.c: `stringmatchlen`. The pattern and the string are read through their memory, so
-- that a read behind an end has the value that stands there. `pattern` and `patternLen` move
-- together, and so do `string` and `stringLen`: a length is the distance of a position to its end,
-- and is negative where the position is behind it. Loops run on fuel; `none` is that it ran out.
pub mod Tests
use my_node_redis.Prelude.{
  ℕ, zero, suc, ◌+◌, ◌-◌, leb, ◌==◌, ◌&&◌, ◌||◌, not, if◌then◌else◌, Bool, true, false, Option,
  none, some,
}
use my_node_redis.Prelude.Int.{ℤ, pos, eqb_ℤ, leb_ℤ, ltb_ℤ}

-- The two texts with their ends, `nocase`, and `tolower` of the C library. A char is an integer.
pub record Glob : Type 0 where
  pub pattern : ℕ → ℤ
  pub pattern_end : ℕ
  pub string : ℕ → ℤ
  pub string_end : ℕ
  pub nocase : Bool
  pub tolower : ℤ → ℤ

-- a char literal
abbrev pub is : ℕ → ℤ → Bool
is c x = eqb_ℤ (pos c) x

-- `while (pattern[1] == '*')`
unfoldable pub skip_stars : ℕ → Glob → ℕ → Option ℕ
skip_stars zero g p = none
skip_stars (suc n) g p = elim (is b'*' (g.pattern (p + 1))) [
  | true ↦ skip_stars n g (p + 1)
  | false ↦ some p
]

-- `while(*pattern == '*')`
unfoldable pub skip_trailing : ℕ → Glob → ℕ → Option ℕ
skip_trailing zero g p = none
skip_trailing (suc n) g p = elim (is b'*' (g.pattern p)) [
  | true ↦ skip_trailing n g (p + 1)
  | false ↦ some p
]

-- two chars, under `nocase`
abbrev pub same_char : Glob → ℤ → ℤ → Bool
same_char g a b = if g.nocase then eqb_ℤ (g.tolower a) (g.tolower b) else eqb_ℤ a b

abbrev pub between : ℤ → ℤ → ℤ → Bool
between start last c = leb_ℤ start c && leb_ℤ c last

-- a range such as a-z, whose ends may stand in either order
unfoldable pub in_range : Glob → ℤ → ℤ → ℤ → Bool
in_range g a b c =
    let start : ℤ = if ltb_ℤ b a then b else a in
    let last : ℤ = if ltb_ℤ b a then a else b in
    if g.nocase
    then between (g.tolower start) (g.tolower last) (g.tolower c)
    else between start last c

-- whether the loop over a class goes on, with the position in the pattern and `match`
pub data ClassStep : Type 0 where
  leave : ℕ → Bool → ClassStep
  stay : ℕ → Bool → ClassStep

unfoldable pub class_step : Glob → ℤ → ℕ → Bool → ClassStep
unfolding in_range
class_step g c p match =
    if is b'\\' (g.pattern p)
    then stay (p + 2) (match || eqb_ℤ (g.pattern (p + 1)) c)
    else if is b']' (g.pattern p)
    then leave p match
    else if p == g.pattern_end
    then leave (p - 1) match
    else if is b'-' (g.pattern (p + 1)) && leb (p + 3) g.pattern_end
    then stay (p + 3) (match || in_range g (g.pattern p) (g.pattern (p + 2)) c)
    else stay (p + 1) (match || same_char g (g.pattern p) c)

-- `while(1)` of the case '['
unfoldable pub class_loop : ℕ → Glob → ℤ → ℕ → Bool → Option (ℕ × Bool)
class_loop zero g c p match = none
class_loop (suc n) g c p match = elim (class_step g c p match) [
  | leave p' match' ↦ some (p', match')
  | stay p' match' ↦ class_loop n g c p' match'
]

-- how one round of the main loop ends: with the result, at a star behind which suffixes are tried,
-- or with the positions behind the switch
pub data Round : Type 0 where
  answer : Bool → Round
  star : ℕ → Round
  next : ℕ → ℕ → Round
  out_of_fuel : Round

star_round : Glob → Option ℕ → Round
star_round g none = out_of_fuel
star_round g (some p) = if p + 1 == g.pattern_end then answer true else star p

class_round : Bool → ℕ → Option (ℕ × Bool) → Round
class_round negated q none = out_of_fuel
class_round negated q (some (p, match)) =
    if (if negated then not match else match) then next p (q + 1) else answer false

-- the switch; `patternLen` is not 0
unfoldable pub round : ℕ → Glob → ℕ → ℕ → Round
unfolding star_round class_round
round n g p q =
    let c = g.pattern p in
    let plain : ℕ = if is b'\\' c && leb (p + 2) g.pattern_end then p + 1 else p in
    let negated : Bool = is b'^' (g.pattern (p + 1)) in
    if is b'*' c
    then star_round g (skip_stars n g p)
    else if is b'?' c
    then if q == g.string_end then answer false else next p (q + 1)
    else if is b'[' c
    then class_round negated q
        (class_loop n g (g.string q) (if negated then p + 2 else p + 1) false)
    else if same_char g (g.pattern plain) (g.string q)
    then next plain (q + 1)
    else answer false

-- `while(stringLen)` of the case '*', with the recursive call
unfoldable pub suffixes : ℕ → Glob → (ℕ → Option Bool) → ℕ → Option Bool
suffixes zero g rest q = none
suffixes (suc n) g rest q = elim (q == g.string_end) [
  | true ↦ some false
  | false ↦ elim (rest q) [
    | none ↦ none
    | some true ↦ some true
    | some false ↦ suffixes n g rest (q + 1)
  ]
]

-- the test behind the loop
abbrev pub at_ends : Glob → ℕ → Option ℕ → Option Bool
at_ends g q none = none
at_ends g q (some p) = some (p == g.pattern_end && q == g.string_end)

-- `stringmatchlen` from the positions `p` and `q` on
unfoldable pub string_match_len : ℕ → Glob → ℕ → ℕ → Option Bool
string_match_len zero g p q = none
string_match_len (suc n) g p q = elim (p == g.pattern_end) [
  | true ↦ at_ends g q (some p)
  | false ↦ elim (round n g p q) [
    | answer b ↦ some b
    | out_of_fuel ↦ none
    | star p' ↦ suffixes n g (string_match_len n g (p' + 1)) q
    | next p' q' ↦ elim (q' == g.string_end) [
      | true ↦ at_ends g q' (skip_trailing n g (p' + 1))
      | false ↦ string_match_len n g (p' + 1) q'
    ]
  ]
]
