-- ===== src/Plugins/Workspace/Best.antt =====
-- What the choice of plugins/workspace/store.go finds, in terms of its own tests.
use agent_native_os.Prelude.{
  String, Bool, true, false, ◌&&◌, ◌||◌, ◌≡◌, refl, sym, ap, ◌∙◌, subst, inl, inr, none, some, List,
  [], ◌∷◌, text_comparable, str_eq_iff, arith, if◌then◌else◌, keep, All, All-imp, All-and,
  Bool-cases,
}
use mathlib.Core.List.{Memᴰ}
use agent_native_os.Prelude.Map.{values}
use agent_native_os.Prelude.Text.{str_lt}
use agent_native_os.Prelude.Order.{
  StrictOrder, text_order, dual, dual-StrictOrder, lex, lex-StrictOrder, StrictOrder-neg_trans,
  StrictOrder-asym, best_from, best_from-IsBest,
}
use agent_native_os.Plugins.Workspace.Store.{
  WorkspaceRef, Refs, ref_less, is_allocated, is_preserved, or_else, candidates, best_of,
  get_by_context,
}

abbrev Key : Type 0
Key = String × (String × String)

abbrev by_age : Key → Key → Bool
by_age = lex str_lt (lex str_lt (dual str_lt))

by_age-StrictOrder : StrictOrder by_age
by_age-StrictOrder =
    lex-StrictOrder text_order (lex-StrictOrder text_order (dual-StrictOrder text_order))

abbrev key : WorkspaceRef → Key
key r = (r.allocated_at, (r.released_at, r.id))

ref_less-by_age : (a b : WorkspaceRef) → ref_less a b ≡ by_age (key a) (key b)
unfolding ref_less
ref_less-by_age a b = ground arith

ref_less-neg_trans :
    (a b c : WorkspaceRef) → ref_less a b ≡ false → ref_less b c ≡ false → ref_less a c ≡ false
ref_less-neg_trans a b c =
    rw (ref_less-by_age a b, ref_less-by_age b c, ref_less-by_age a c)
      (StrictOrder-neg_trans by_age-StrictOrder (key a) (key b) (key c))

ref_less-asym : (a b : WorkspaceRef) → ref_less a b ≡ true → ref_less b a ≡ false
ref_less-asym a b =
    rw (ref_less-by_age a b, ref_less-by_age b a)
      (StrictOrder-asym by_age-StrictOrder (key a) (key b))

ref_less_irrefl : (a : WorkspaceRef) → ref_less a a ≡ false
ref_less_irrefl a = ref_less-by_age a a ∙ by_age-StrictOrder.irrefl (key a)

pub ref_less-connected :
    (a b : WorkspaceRef) → ref_less a b ≡ false → ref_less b a ≡ false → a.id ≡ b.id
ref_less-connected a b h k =
    ap (λ x. x.1.1)
      (by_age-StrictOrder.connected (key a) (key b) (sym (ref_less-by_age a b) ∙ h)
        (sym (ref_less-by_age b a) ∙ k))

-- A context may use a workspace of its own that is allocated, or released and preserved.
abbrev pub usable : String → WorkspaceRef → Bool
usable wc x = is_allocated wc x || is_preserved wc x

-- `x` is to be chosen rather than `r`.
abbrev pub preferred : String → WorkspaceRef → WorkspaceRef → Bool
preferred wc r x =
    if is_allocated wc r
    then is_allocated wc x && ref_less r x
    else is_allocated wc x || is_preserved wc x && ref_less r x

pub record IsBest (wc : String) (refs : List WorkspaceRef) (r : WorkspaceRef) : Type 0 where
  pub listed : Memᴰ r refs
  pub fit : usable wc r ≡ true
  pub unbeaten : All (λ x. preferred wc r x ≡ false) refs

All-keep_self :
    (p : WorkspaceRef → Bool) (xs ys : List WorkspaceRef)
    → ((x : WorkspaceRef) → Memᴰ x xs → Memᴰ x ys)
    → All (λ x. Memᴰ x ys × (p x ≡ true)) (keep p xs)
All-keep_self p [] ys within = tt
All-keep_self p (x ∷ xs) ys within =
    let rest = All-keep_self p xs ys (λ z m. within z (Memᴰ.tail m)) in
    elim (Bool-cases (p x)) [
      | inl hit ↦ rw hit ((within x (Memᴰ.head refl), hit), rest)
      | inr miss ↦ rw miss rest
    ]

All-of_keep :
    (Q : WorkspaceRef → Type 0) (p : WorkspaceRef → Bool) (xs : List WorkspaceRef)
    → All Q (keep p xs)
    → All (λ x. p x ≡ true → Q x) xs
All-of_keep Q p [] h = tt
All-of_keep Q p (x ∷ xs) h = elim (Bool-cases (p x)) [
  | inl hit ↦ let (now, later) = rw hit at h in (λ e. now, All-of_keep Q p xs later)
  | inr miss ↦ (λ e. absurd (cc (e, miss)), All-of_keep Q p xs (rw miss at h))
]

IsBest-of :
    (wc : String) (refs : List WorkspaceRef) (r : WorkspaceRef)
    → best_of ref_less (candidates wc refs) ≡ some r
    → IsBest wc refs r
IsBest-of wc refs r e =
    of_lists (keep (is_allocated wc) refs) (keep (is_preserved wc) refs) refl refl e
  where
    best :
        (p : WorkspaceRef → Bool) (x : WorkspaceRef) (xs : List WorkspaceRef)
        → keep p refs ≡ x ∷ xs
        → (Memᴰ (best_from ref_less x xs) refs × (p (best_from ref_less x xs) ≡ true))
          × All (λ y. p y ≡ true → ref_less (best_from ref_less x xs) y ≡ false) refs
    best p x xs e =
        let found =
          subst (All (λ y. Memᴰ y refs × (p y ≡ true))) e (All-keep_self p refs refs (λ z m. m)) in
        let (inside, top, rest) =
          best_from-IsBest ref_less ref_less-neg_trans ref_less-asym ref_less_irrefl
            (λ y. Memᴰ y refs × (p y ≡ true)) x xs found.0 found.1 in
        (
          inside,
          All-of_keep _ p refs
              (subst (All (λ y. ref_less (best_from ref_less x xs) y ≡ false)) (sym e) (top, rest)),
        )

    of_lists :
        (as' bs : List WorkspaceRef)
        → keep (is_allocated wc) refs ≡ as'
        → keep (is_preserved wc) refs ≡ bs
        → best_of ref_less (or_else as' bs) ≡ some r
        → IsBest wc refs r
    of_lists [] [] none_allocated none_preserved h = cc
    of_lists [] (b ∷ bs) none_allocated some_preserved h =
        let same : best_from ref_less b bs ≡ r = cc in
        let ((inside, fits), top) = best (is_preserved wc) b bs some_preserved in
        let never =
          All-of_keep (λ y. ⊥) (is_allocated wc) refs
            (subst (All (λ y. ⊥)) (sym none_allocated) tt) in
        let b' = best_from ref_less b bs in
        subst (IsBest wc refs) same (record {
          listed = inside;
          fit = ground (arith, fits);
          unbeaten =
              All-imp _ refs
                (λ x both. ground (
                  arith,
                  fits,
                  both.0,
                  both.1,
                  str_eq_iff b'.status "RELEASED",
                  str_eq_iff b'.status "ALLOCATED",
                ))
                (All-and _ _ refs never top);
        })
    of_lists (a ∷ as') bs some_allocated e' h =
        let same : best_from ref_less a as' ≡ r = cc in
        let ((inside, fits), top) = best (is_allocated wc) a as' some_allocated in
        subst (IsBest wc refs) same (record {
          listed = inside;
          fit = ground (arith, fits);
          unbeaten = All-imp _ refs (λ x h'. ground (arith, fits, h')) top;
        })

unusable_of :
    (wc : String) (refs : List WorkspaceRef)
    → best_of ref_less (candidates wc refs) ≡ none
    → All (λ x. usable wc x ≡ false) refs
unusable_of wc refs e =
    of_lists (keep (is_allocated wc) refs) (keep (is_preserved wc) refs) refl refl e
  where
    of_lists :
        (as' bs : List WorkspaceRef)
        → keep (is_allocated wc) refs ≡ as'
        → keep (is_preserved wc) refs ≡ bs
        → best_of ref_less (or_else as' bs) ≡ none
        → All (λ x. usable wc x ≡ false) refs
    of_lists [] [] none_allocated none_preserved h =
        All-imp _ refs (λ x both. ground (arith, both.0, both.1))
          (All-and _ _ refs
            (All-of_keep (λ y. ⊥) (is_allocated wc) refs
              (subst (All (λ y. ⊥)) (sym none_allocated) tt))
            (All-of_keep (λ y. ⊥) (is_preserved wc) refs
              (subst (All (λ y. ⊥)) (sym none_preserved) tt)))
    of_lists [] (b ∷ bs) none_allocated some_preserved h = cc
    of_lists (a ∷ as') bs some_allocated e' h = cc

pub get_by_context-IsBest :
    (wc : String) (s : Refs)
    → ((r : WorkspaceRef) → get_by_context wc s ≡ some r → IsBest wc (values s) r)
      × (get_by_context wc s ≡ none → All (λ x. usable wc x ≡ false) (values s))
unfolding get_by_context
get_by_context-IsBest wc s = (IsBest-of wc (values s), unusable_of wc (values s))
