-- ===== src/Prelude/Int64.antt =====
-- Go's int and int64 on a 64-bit machine, as bit patterns: a number below 2 ^ 64 stands for itself
-- below 2 ^ 63, and from there on for itself less 2 ^ 64.
use Prim.Native.Nat.{ℕ, ◌+◌, ◌-◌, ◌%◌, ◌^◌, ◌<◌}
use mathlib.Core.Path.{◌≡◌}
use mathlib.Core.Bool.{Bool}
use native.Mathlib.Omega.{arith}
use agent_native_os.Prelude.Tests.{ltb, leb}

abbrev pub modulus : ℕ
modulus = 2 ^ 64

abbrev pub max_value : ℕ
max_value = 2 ^ 63 - 1

-- `x++`
abbrev pub incr : ℕ → ℕ
incr x = (x + 1) % modulus

-- The signed order is the unsigned order after a shift by 2 ^ 63.
abbrev pub shifted : ℕ → ℕ
shifted x = (x + 2 ^ 63) % modulus

abbrev pub slt : ℕ → ℕ → Bool
slt a b = ltb (shifted a) (shifted b)

abbrev pub sle : ℕ → ℕ → Bool
sle a b = leb (shifted a) (shifted b)

-- Below the greatest value an increment is exact and does not change the sign.
pub incr_exact : (x : ℕ) → x < max_value → incr x ≡ x + 1
incr_exact x h = omega arith
