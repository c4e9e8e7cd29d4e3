-- ===== src/Prelude/Effect.antt =====
-- A Go function that returns `(value, error)` and acts on a world on its way.
use mathlib.Core.Path.{◌≡◌, refl}
use agent_native_os.Prelude.Result.{Result, ok, err}

abbrev pub Effect : Type 0 → Type 0 → Type 0 → Type 0
Effect W E A = W → Result E A × W

module _ {W E A B : Type 0} where
  -- What follows on an outcome.
  abbrev pub onward : Result E A × W → (A → Effect W E B) → Result E B × W
  onward (ok a, w) f = f a w
  onward (err e, w) f = (err e, w)

  infixl 5 ◌>>=◌
  abbrev pub ◌>>=◌ : Effect W E A → (A → Effect W E B) → Effect W E B
  ◌>>=◌ m f w = onward (m w) f

  onward-ok :
      (o : Result E A × W) (f : A → Effect W E B) {b : B}
      → (onward o f).0 ≡ ok b
      → (a : A) × (o.0 ≡ ok a) × ((f a o.1).0 ≡ ok b)
  onward-ok (ok a, w) f h = (a, refl, h)
  onward-ok (err e, w) f h = cc

  -- A chain that succeeds: its first step has, and the rest in the world that this leaves.
  pub step_ok :
      (m : Effect W E A) (f : A → Effect W E B) (w : W) {b : B}
      → ((m >>= f) w).0 ≡ ok b
      → (a : A) × ((m w).0 ≡ ok a) × ((f a (m w).1).0 ≡ ok b)
  step_ok m f w = onward-ok (m w) f

module _ {W E A B : Type 0} where
  onward-runs :
      (o : Result E A × W) (f : A → Effect W E B) {b : B}
      → (onward o f).0 ≡ ok b
      → (a : A) × (o.0 ≡ ok a) × (onward o f ≡ f a o.1)
  onward-runs (ok a, w) f h = (a, refl, refl)
  onward-runs (err e, w) f h = cc

  -- The same, with the world at the end.
  pub step_runs :
      (m : Effect W E A) (f : A → Effect W E B) (w : W) {b : B}
      → ((m >>= f) w).0 ≡ ok b
      → (a : A) × ((m w).0 ≡ ok a) × ((m >>= f) w ≡ f a (m w).1)
  step_runs m f w = onward-runs (m w) f

infixl 5 ◌>>◌
abbrev pub ◌>>◌ : {W E B : Type 0} → Effect W E (Unit {0}) → Effect W E B → Effect W E B
m >> k = m >>= λ _. k

module _ {W E A : Type 0} where
  -- A step that leaves the world alone.
  abbrev pub pure_step : Result E A → Effect W E A
  pure_step r w = (r, w)

  abbrev pub relabelled : E → Result (Unit {0}) A × W → Result E A × W
  relabelled e (ok a, w) = (ok a, w)
  relabelled e (err _, w) = (err e, w)

  -- A call whose error is reported as `e`.
  abbrev pub or_fail : E → Effect W (Unit {0}) A → Effect W E A
  or_fail e m w = relabelled e (m w)

  abbrev ignored : A → Result (Unit {0}) A × W → Result E A × W
  ignored zero_value (ok a, w) = (ok a, w)
  ignored zero_value (err _, w) = (ok zero_value, w)

  -- A call whose error is dropped, with what is returned beside it.
  abbrev pub or_zero : A → Effect W (Unit {0}) A → Effect W E A
  or_zero zero_value m w = ignored zero_value (m w)
