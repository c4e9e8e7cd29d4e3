-- ===== src/Prelude/Text.antt =====
-- Texts: code points, the order of Go's `<`, and decimal numbers.
use Prim.Native.Nat.{ℕ, zero, suc, ◌-◌, ◌/◌, ◌%◌, ◌^◌}
use Prim.Native.Char.{code}
use Prim.Native.String.{String}
use Prim.Native.String
use mathlib.Core.Path.{◌≡◌, refl}
use mathlib.Core.Bool.{Bool, true, false}
use mathlib.Core.List.{List, [], ◌∷◌}
use agent_native_os.Prelude.Tests.{ltb, eqb, if◌then◌else◌}

-- The code points of a text.
unfoldable pub codes : String → List ℕ
codes String.[] = []
codes (String.◌∷◌ c s) = code c ∷ codes s

-- `<` on texts, code by code.
unfoldable pub less : List ℕ → List ℕ → Bool
less [] [] = false
less [] (b ∷ bs) = true
less (a ∷ as') [] = false
less (a ∷ as') (b ∷ bs) =
    let rest = less as' bs in if ltb a b then true else if eqb a b then rest else false

unfoldable pub str_lt : String → String → Bool
unfolding codes less
str_lt s t = less (codes s) (codes t)

-- `%d` of an int: at most twenty digits.
abbrev digit : ℕ → String
digit d =
    if eqb d 0
    then "0"
    else if eqb d 1
    then "1"
    else if eqb d 2
    then "2"
    else if eqb d 3
    then "3"
    else if eqb d 4
    then "4"
    else if eqb d 5
    then "5"
    else if eqb d 6
    then "6"
    else if eqb d 7
    then "7"
    else if eqb d 8
    then "8"
    else "9"

decimal : ℕ → ℕ → String → String
decimal zero n out = out
decimal (suc fuel) n out =
    let rest = decimal fuel (n / 10) (String.◌++◌ (digit (n % 10)) out) in
    if ltb n 10 then String.◌++◌ (digit n) out else rest

pub itoa : ℕ → String
unfolding decimal
itoa n = if ltb n (2 ^ 63) then decimal 20 n "" else String.◌++◌ "-" (decimal 20 (2 ^ 64 - n) "")

-- fmt.Sprintf("%s@%d", name, major)
unfoldable pub canonical : String → ℕ → String
unfolding itoa
canonical name major = String.◌++◌ name (String.◌++◌ "@" (itoa major))

canonical_at_twelve : canonical "work.create" 12 ≡ "work.create@12"
unfolding canonical
canonical_at_twelve = refl
