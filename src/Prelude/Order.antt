-- ===== src/Prelude/Order.antt =====
-- Strict total orders that a program computes: of texts, of pairs, and the greatest of a list.
use Prim.Native.Nat.{ℕ, compare, Ordering}
use Prim.Native.Char.{code}
use Prim.Native.String.{String}
use mathlib.Core.Path.{◌≡◌, refl, sym, ap, ◌∙◌, subst}
use mathlib.Core.Logic.{inl, inr}
use mathlib.Core.Bool.{Bool, true, false}
use mathlib.Core.List.{List, [], ◌∷◌}
use native.Mathlib.Omega.{arith}
use text.Mathlib.TextEquality.{codes_equal}
use text.Mathlib.TextPositions.{compare_self}
use agent_native_os.Prelude.Lists.{All}
use agent_native_os.Prelude.Tests.{if◌then◌else◌, Bool-cases, Comparable, ◌==◌, ==-refl}
use agent_native_os.Prelude.Text.{codes, less, str_lt}

pub record StrictOrder {ℓ} {A : Type ℓ} (lt : A → A → Bool) : Type ℓ where
  pub irrefl : (a : A) → lt a a ≡ false
  pub trans : (a b c : A) → lt a b ≡ true → lt b c ≡ true → lt a c ≡ true
  pub connected : (a b : A) → lt a b ≡ false → lt b a ≡ false → a ≡ b

less_refl : (a : List ℕ) → less a a ≡ false
unfolding less
less_refl [] = refl
less_refl (x ∷ xs) = ground (arith, less_refl xs)

less_trans : (a b c : List ℕ) → less a b ≡ true → less b c ≡ true → less a c ≡ true
unfolding less
less_trans [] [] c h k = cc
less_trans [] (y ∷ ys) [] h k = cc
less_trans [] (y ∷ ys) (z ∷ zs) h k = refl
less_trans (x ∷ xs) [] c h k = cc
less_trans (x ∷ xs) (y ∷ ys) [] h k = cc
less_trans (x ∷ xs) (y ∷ ys) (z ∷ zs) h k = ground (arith, less_trans xs ys zs)

less_connected : (a b : List ℕ) → less a b ≡ false → less b a ≡ false → a ≡ b
unfolding less
less_connected [] [] h k = refl
less_connected [] (y ∷ ys) h k = cc
less_connected (x ∷ xs) [] h k = cc
less_connected (x ∷ xs) (y ∷ ys) h k =
    let (same, h', k') : (x ≡ y) × (less xs ys ≡ false) × (less ys xs ≡ false) =
      (ground arith, ground arith, ground arith) in
    let tails = less_connected xs ys h' k' in cc

codes_injective : (s t : String) → codes s ≡ codes t → s ≡ t
unfolding codes
codes_injective String.[] String.[] e = refl
codes_injective String.[] (String.◌∷◌ d t) e = cc
codes_injective (String.◌∷◌ c s) String.[] e = cc
codes_injective (String.◌∷◌ c s) (String.◌∷◌ d t) e =
    let (now, later) : (code c ≡ code d) × (codes s ≡ codes t) = (cc, cc) in
    let first =
      codes_equal c d (subst (λ n. compare (code c) n ≡ Ordering.eq) now (compare_self (code c))) in
    let rest = codes_injective s t later in cc

pub text_order : StrictOrder str_lt
unfolding str_lt
text_order = record {
  irrefl = λ s. less_refl (codes s);
  trans = λ s t u. less_trans (codes s) (codes t) (codes u);
  connected = λ s t h k. codes_injective s t (less_connected (codes s) (codes t) h k);
}

module _ {ℓ} {A : Type ℓ} where
  abbrev pub dual : (A → A → Bool) → A → A → Bool
  dual lt a b = lt b a

  pub dual-StrictOrder : {lt : A → A → Bool} → StrictOrder lt → StrictOrder (dual lt)
  dual-StrictOrder o = record {
    irrefl = o.irrefl;
    trans = λ a b c h k. o.trans c b a k h;
    connected = λ a b h k. o.connected a b k h;
  }

-- The first difference decides.
module _ {ℓ κ} {A : Type ℓ} {B : Type κ} ⦃e : Comparable A⦄ where
  abbrev pub lex : (A → A → Bool) → (B → B → Bool) → A × B → A × B → Bool
  lex lt lt' (a, b) (a', b') = if a == a' then lt' b b' else lt a a'

  module _ {lt : A → A → Bool} {lt' : B → B → Bool} (o : StrictOrder lt)
      (o' : StrictOrder lt') where
    pub lex-StrictOrder : StrictOrder (lex lt lt')
    lex-StrictOrder = record {
      irrefl = λ x. ground (arith, ==-refl x.0, o'.irrefl x.1);
      trans = λ x y z h k. ground (
        arith,
        e.same_value_iff x.0 y.0,
        e.same_value_iff y.0 z.0,
        e.same_value_iff x.0 z.0,
        o.trans x.0 y.0 z.0,
        o'.trans x.1 y.1 z.1,
        o.irrefl x.0,
        o.irrefl z.0,
      );
      connected = λ x y h k.
          let first : x.0 ≡ y.0 =
            ground
              (arith, e.same_value_iff x.0 y.0, e.same_value_iff y.0 x.0, o.connected x.0 y.0) in
          let second : x.1 ≡ y.1 = ground (
            arith,
            e.same_value_iff x.0 y.0,
            e.same_value_iff y.0 x.0,
            o'.connected x.1 y.1,
            first,
          ) in
          λ i. (first i, second i);
    }

module _ {ℓ} {A : Type ℓ} (lt : A → A → Bool) where
  -- A loop that keeps the best so far.
  abbrev pub best_from : A → List A → A
  best_from best [] = best
  best_from best (x ∷ xs) = best_from (if lt best x then x else best) xs

  -- The loop returns an element that no element replaces.
  module _ (neg_trans : (a b c : A) → lt a b ≡ false → lt b c ≡ false → lt a c ≡ false)
      (asym : (a b : A) → lt a b ≡ true → lt b a ≡ false) (irrefl : (a : A) → lt a a ≡ false)
      (P : A → Type 0) where
    abbrev pub IsBest : A → A → List A → Type 0
    IsBest b best xs = P b × (lt b best ≡ false) × All (λ x. lt b x ≡ false) xs

    pub best_from-IsBest :
        (best : A) (xs : List A) → P best → All P xs → IsBest (best_from best xs) best xs
    best_from-IsBest best [] p ps = (p, irrefl best, tt)
    best_from-IsBest best (y ∷ ys) p ps =
        let next : (z : A)
            → (if lt best y then y else best) ≡ z
            → best_from best (y ∷ ys) ≡ best_from z ys =
          λ z e. ap (λ b. best_from b ys) e in
        elim (Bool-cases (lt best y)) [
          | inl replaced ↦
              let (q, top, rest) = best_from-IsBest y ys ps.0 ps.1 in
              subst (λ b. IsBest b best (y ∷ ys)) (sym (next y (rw replaced)))
                (q, neg_trans _ y best top (asym best y replaced), (top, rest))
          | inr kept ↦
              let (q, top, rest) = best_from-IsBest best ys p ps.1 in
              subst (λ b. IsBest b best (y ∷ ys)) (sym (next best (rw kept)))
                (q, top, (neg_trans _ best y top kept, rest))
        ]

module _ {ℓ} {A : Type ℓ} {lt : A → A → Bool} (o : StrictOrder lt) where
  pub StrictOrder-neg_trans : (a b c : A) → lt a b ≡ false → lt b c ≡ false → lt a c ≡ false
  StrictOrder-neg_trans a b c h k = elim (Bool-cases (lt a c)) [
    | inr level ↦ level
    | inl less_than ↦ elim (Bool-cases (lt b a)) [
      | inl back ↦ absurd (cc (o.trans b a c back less_than))
      | inr not_back ↦ ap (λ x. lt x c) (o.connected a b h not_back) ∙ k
    ]
  ]

  pub StrictOrder-asym : (a b : A) → lt a b ≡ true → lt b a ≡ false
  StrictOrder-asym a b h = elim (Bool-cases (lt b a)) [
    | inr not_back ↦ not_back
    | inl back ↦ absurd (cc (o.trans a b a h back, o.irrefl a))
  ]
