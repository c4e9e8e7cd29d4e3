-- ===== src/Kernel/Authz/Pattern.antt =====
-- The patterns of kernel/internal/authz/authz.go: match, and path.Match of Go's library, over code
-- points. A malformed pattern is an error of path.Match, which match takes for false.
use agent_native_os.Prelude.{
  ℕ, String, Bool, true, false, not, ◌&&◌, ◌||◌, ◌≡◌, refl, Option, none, some, List, [], ◌∷◌, ◌++◌,
  eqb, leb, if◌then◌else◌, any, is_empty,
}
use agent_native_os.Prelude.Text.{codes}

-- `one_of` is a class: whether it is negated, and its ranges.
pub data Item : Type 0 where
  literal : ℕ → Item
  any_char : Item
  one_of : Bool → List (ℕ × ℕ) → Item

-- A star, if the first part says so, and what must follow it.
pub record Segment : Type 0 where
  pub star : Bool
  pub items : List Item

-- Where the reader of a pattern stands. In a class it knows the negation and the ranges read.
pub data Mode : Type 0 where
  plain escaped class_start : Mode
  want_low : Bool → List (ℕ × ℕ) → Mode
  escaped_low : Bool → List (ℕ × ℕ) → Mode
  after_low : Bool → List (ℕ × ℕ) → ℕ → Mode
  want_high : Bool → List (ℕ × ℕ) → ℕ → Mode
  escaped_high : Bool → List (ℕ × ℕ) → ℕ → Mode

-- What one character does: the next state of the reader, and what it has read.
pub data Reading : Type 0 where
  shift : Mode → Reading
  emit : Item → Reading
  a_star malformed : Reading

abbrev read_plain : ℕ → Reading
read_plain c =
    if eqb c b'*'
    then a_star
    else if eqb c b'?'
    then emit any_char
    else if eqb c 0x5c
    then shift escaped
    else if eqb c b'['
    then shift class_start
    else emit (literal c)

-- The start of a range, or the end of the class if it has one.
abbrev read_low : Bool → List (ℕ × ℕ) → ℕ → Reading
read_low negated ranges c =
    if eqb c b']' && not (is_empty ranges)
    then emit (one_of negated ranges)
    else if eqb c b']' || eqb c b'-'
    then malformed
    else if eqb c 0x5c
    then shift (escaped_low negated ranges)
    else shift (after_low negated ranges c)

abbrev with_range : List (ℕ × ℕ) → ℕ → ℕ → List (ℕ × ℕ)
with_range ranges low high = ranges ++ (low, high) ∷ []

unfoldable pub read : Mode → ℕ → Reading
read plain c = read_plain c
read escaped c = emit (literal c)
read class_start c = if eqb c b'^' then shift (want_low true []) else read_low false [] c
read (want_low negated ranges) c = read_low negated ranges c
read (escaped_low negated ranges) c = shift (after_low negated ranges c)
read (after_low negated ranges low) c =
    if eqb c b'-'
    then shift (want_high negated ranges low)
    else read_low negated (with_range ranges low low) c
read (want_high negated ranges low) c =
    if eqb c b']' || eqb c b'-'
    then malformed
    else if eqb c 0x5c
    then shift (escaped_high negated ranges low)
    else shift (want_low negated (with_range ranges low c))
read (escaped_high negated ranges low) c = shift (want_low negated (with_range ranges low c))

abbrev add_item : Item → List Segment → List Segment
add_item i [] = record { star = false; items = i ∷ [] } ∷ []
add_item i (s ∷ rest) =
    if s.star
    then record { star = false; items = i ∷ [] } ∷ s ∷ rest
    else record s { items = i ∷ s.items } ∷ rest

-- Stars that follow one another are one.
abbrev add_star : List Segment → List Segment
add_star [] = record { star = true; items = [] } ∷ []
add_star (s ∷ rest) = if s.star then s ∷ rest else record s { star = true } ∷ rest

abbrev put_item : Item → Option (List Segment) → Option (List Segment)
put_item i none = none
put_item i (some segments) = some (add_item i segments)

abbrev put_star : Option (List Segment) → Option (List Segment)
put_star none = none
put_star (some segments) = some (add_star segments)

abbrev ended : Mode → Option (List Segment)
ended plain = some []
ended _ = none

unfoldable pub parse : Mode → List ℕ → Option (List Segment)
unfolding read
parse m [] = ended m
parse m (c ∷ rest) = elim (read m c) [
  | shift m' ↦ parse m' rest
  | emit i ↦ put_item i (parse plain rest)
  | a_star ↦ put_star (parse plain rest)
  | malformed ↦ none
]

abbrev in_range : ℕ → ℕ × ℕ → Bool
in_range c (low, high) = leb low c && leb c high

abbrev accepts : Item → ℕ → Bool
accepts (literal d) c = eqb d c
accepts any_char c = not (eqb c b'/')
accepts (one_of true ranges) c = not (any (in_range c) ranges)
accepts (one_of false ranges) c = any (in_range c) ranges

-- matchChunk: what is left of the text behind the items.
unfoldable pub match_items : List Item → List ℕ → Option (List ℕ)
match_items [] text = some text
match_items (i ∷ items) [] = none
match_items (i ∷ items) (c ∷ text) =
    let rest = match_items items text in if accepts i c then rest else none

-- A match counts only if it is not the last or leaves nothing.
abbrev useful : Bool → Option (List ℕ) → Option (List ℕ)
useful last none = none
useful last (some rest) = if last && not (is_empty rest) then none else some rest

-- The places behind a star, up to the next slash.
unfoldable pub skip : List Item → Bool → List ℕ → Option (List ℕ)
skip items last [] = none
skip items last (c ∷ text) =
    let later = skip items last text in
    if eqb c b'/'
    then none
    else elim (useful last (match_items items text)) [ some rest ↦ some rest | none ↦ later ]

unfoldable pub place : Segment → Bool → List ℕ → Option (List ℕ)
unfolding match_items skip
place s last text = elim (useful last (match_items s.items text)) [
  | some rest ↦ some rest
  | none ↦ if s.star then skip s.items last text else none
]

unfoldable pub match_segments : List Segment → List ℕ → Bool
unfolding place
match_segments [] text = is_empty text
match_segments (s ∷ rest) text =
    if s.star && is_empty s.items
    then not (any (eqb b'/') text)
    else elim (place s (is_empty rest) text) [
      | none ↦ false
      | some text' ↦ match_segments rest text'
    ]

abbrev match_parsed : Option (List Segment) → List ℕ → Bool
match_parsed none text = false
match_parsed (some segments) text = match_segments segments text

unfoldable pub matches : String → String → Bool
unfolding parse match_segments codes
matches pattern value = match_parsed (parse plain (codes pattern)) (codes value)

star_matches : matches "work.*@1" "work.create@1" ≡ true
unfolding matches
star_matches = refl

star_stops : matches "*" "a/b" ≡ false
unfolding matches
star_stops = refl

class_matches : matches "[a-c^]?*@[^2]" "b.x@1" ≡ true
unfolding matches
class_matches = refl

malformed_matches_nothing : matches "[]a" "a" ≡ false
unfolding matches
malformed_matches_nothing = refl
