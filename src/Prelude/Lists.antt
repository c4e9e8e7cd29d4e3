-- ===== src/Prelude/Lists.antt =====
-- Lists over the native numbers, and predicates on lists by recursion.
use Prim.Native.Nat.{ℕ, suc}
use mathlib.Core.Path.{◌≡◌, subst, sym}
use mathlib.Core.Bool.{Bool, true, false}
use mathlib.Core.Option.{Option, none, some}
use mathlib.Core.List.Memᴰ
use mathlib.Core.List.{List, [], ◌∷◌, ◌++◌, map, Memᴰ}
use native.Mathlib.Omega.{arith}
use agent_native_os.Prelude.Tests.{if◌then◌else◌, Bool-cases}
use mathlib.Core.Logic.{inl, inr}

module _ {ℓ} {A : Type ℓ} where
  abbrev pub length : List A → ℕ
  length [] = 0
  length (x ∷ xs) = suc (length xs)

  -- A Go loop that keeps the elements that pass a test.
  abbrev pub keep : (A → Bool) → List A → List A
  keep p [] = []
  keep p (x ∷ xs) = let rest = keep p xs in if p x then x ∷ rest else rest

  -- The first element that passes a test: a loop that returns from its body.
  abbrev pub first : (A → Bool) → List A → Option A
  first p [] = none
  first p (x ∷ xs) = if p x then some x else first p xs

  -- A loop that sets a flag and breaks.
  abbrev pub any : (A → Bool) → List A → Bool
  any p [] = false
  any p (x ∷ xs) = if p x then true else any p xs

  abbrev pub is_empty : List A → Bool
  is_empty [] = true
  is_empty (x ∷ xs) = false

module _ {ℓ κ} {A : Type ℓ} where
  -- Every element satisfies `P`.
  abbrev pub All : (A → Type κ) → List A → Type κ
  All P [] = Unit
  All P (x ∷ xs) = P x × All P xs

  pub All-append : (P : A → Type κ) (xs ys : List A) → All P xs → All P ys → All P (xs ++ ys)
  All-append P [] ys h k = k
  All-append P (x ∷ xs) ys h k = (h.0, All-append P xs ys h.1 k)

  pub All-keep : (P : A → Type κ) (p : A → Bool) (xs : List A) → All P xs → All P (keep p xs)
  All-keep P p [] h = h
  All-keep P p (x ∷ xs) h = ground (arith, All-keep P p xs h.1)

  pub All-map :
      (P : A → Type κ) (f : A → A) (xs : List A)
      → ((x : A) → P x → P (f x))
      → All P xs
      → All P (map f xs)
  All-map P f [] g h = h
  All-map P f (x ∷ xs) g h = (g x h.0, All-map P f xs g h.1)

  -- Two predicates on one list.
  pub All-imp :
      {Q : A → Type κ} (P : A → Type κ) (xs : List A) → ((x : A) → P x → Q x) → All P xs → All Q xs
  All-imp P [] g h = h
  All-imp P (x ∷ xs) g h = (g x h.0, All-imp P xs g h.1)

  -- The element that a search returns satisfies what all elements do.
  pub All-first :
      (P : A → Type κ) (p : A → Bool) (xs : List A) {a : A} → All P xs → first p xs ≡ some a → P a
  All-first P p [] h e = cc
  All-first P p (x ∷ xs) h e = elim (Bool-cases (p x)) [
    | inl hit ↦ subst P (cc (rw hit at e)) h.0
    | inr miss ↦ All-first P p xs h.1 (rw miss at e)
  ]

-- What the search returns passes the test.
pub first_passes {ℓ} :
    {A : Type ℓ} (p : A → Bool) (xs : List A) {a : A} → first p xs ≡ some a → p a ≡ true
first_passes p [] e = cc
first_passes p (x ∷ xs) e = elim (Bool-cases (p x)) [
  | inl hit ↦ subst (λ y. p y ≡ true) (cc (rw hit at e)) hit
  | inr miss ↦ first_passes p xs (rw miss at e)
]

pub All-and {ℓ κ} :
    {A : Type ℓ} (P Q : A → Type κ) (xs : List A) → All P xs → All Q xs → All (λ x. P x × Q x) xs
All-and P Q [] h k = tt
All-and P Q (x ∷ xs) h k = ((h.0, k.0), All-and P Q xs h.1 k.1)

pub All_at {ℓ κ} : {A : Type ℓ} (P : A → Type κ) {a : A} (xs : List A) → Memᴰ a xs → All P xs → P a
All_at P xs (Memᴰ.head e) h = subst P (sym e) h.0
All_at P xs (Memᴰ.tail {xs = rest} m) h = All_at P rest m h.1

-- What is kept was there, and passes the test.
pub Memᴰ-keep {ℓ} :
    {A : Type ℓ} (p : A → Bool) {a : A} (xs : List A)
    → Memᴰ a (keep p xs)
    → Memᴰ a xs × (p a ≡ true)
Memᴰ-keep p [] m = elim m [ ]
Memᴰ-keep p {a} (x ∷ xs) m = elim (Bool-cases (p x)) [
  | inr miss ↦ let (old, good) = Memᴰ-keep p xs (rw miss at m) in (Memᴰ.tail old, good)
  | inl hit ↦ elim (Memᴰ.cases_cons (rw hit at m)) [
    | inl e ↦ (Memᴰ.head e, subst (λ y. p y ≡ true) (sym e) hit)
    | inr later ↦ let (old, good) = Memᴰ-keep p xs later in (Memᴰ.tail old, good)
  ]
]

pub Memᴰ-first {ℓ} :
    {A : Type ℓ} (p : A → Bool) (xs : List A) {a : A} → first p xs ≡ some a → Memᴰ a xs
Memᴰ-first p [] e = cc
Memᴰ-first p (x ∷ xs) e = elim (Bool-cases (p x)) [
  | inl hit ↦ Memᴰ.head (cc (rw hit at e))
  | inr miss ↦ Memᴰ.tail (Memᴰ-first p xs (rw miss at e))
]
