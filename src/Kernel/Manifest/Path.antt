-- ===== src/Kernel/Manifest/Path.antt =====
-- filepath.Clean of the Go library, on the components of a path that does not start with a slash: the
-- cleaned path is its components, joined by slashes.
use Prim.Native.Char.{code}
use Prim.Native.String
use agent_native_os.Prelude.{
  ℕ, zero, suc, String, Bool, true, false, ◌||◌, ◌≡◌, ◌≢◌, ◌↔◌, refl, sym, ap, subst, inl, inr, ◌⊎◌,
  Option, none, some, List, [], ◌∷◌, ◌==◌, text_comparable, nat_comparable, str_eq_iff, arith,
  if◌then◌else◌, length, All,
}

abbrev before_first : String → List String → List String
before_first piece [] = piece ∷ []
before_first piece (part ∷ parts) = String.◌++◌ piece part ∷ parts

unfoldable pub split_path : String → List String
split_path String.[] = "" ∷ []
split_path (String.◌∷◌ c s) =
    let rest = split_path s in
    if code c == 0x2f then "" ∷ rest else before_first (String.◌∷◌ c "") rest

-- One step up: it takes back the last component, unless there is none.
abbrev up : List String → List String
up [] = ".." ∷ []
up (last ∷ rest) = if last == ".." then ".." ∷ last ∷ rest else rest

-- One component more. The components so far are listed with the last one first.
abbrev push : String → List String → List String
push part done =
    if part == "" || part == "." then done else if part == ".." then up done else part ∷ done

unfoldable pub clean_from : List String → List String → List String
clean_from done [] = done
clean_from done (part ∷ parts) = clean_from (push part done) parts

-- Whether the first component of a cleaned path is "..".
unfoldable pub starts_above : List String → Bool
starts_above [] = false
starts_above (part ∷ []) = part == ".."
starts_above (part ∷ before ∷ rest) = starts_above (before ∷ rest)

-- A walk along the components from a directory: its depth below the start, if it is never above it.
abbrev above : ℕ → Option ℕ
above zero = none
above (suc depth) = some depth

abbrev move : String → ℕ → Option ℕ
move part depth =
    if part == "" || part == "."
    then some depth
    else if part == ".."
    then above depth
    else some (suc depth)

unfoldable pub walk : ℕ → List String → Option ℕ
walk depth [] = some depth
walk depth (part ∷ parts) = elim (move part depth) [ none ↦ none | some d ↦ walk d parts ]

-- Components that do not lead up.
unfoldable pub Names : List String → Type 0
Names done = All (λ part. part ≢ "..") done

push-above :
    (part : String) (done : List String)
    → starts_above done ≡ true
    → starts_above (push part done) ≡ true
unfolding starts_above
push-above part [] e = cc
push-above part (last ∷ []) e = ground (arith, e)
push-above part (last ∷ before ∷ rest) e = ground (arith, e)

clean_from-above :
    (done parts : List String)
    → starts_above done ≡ true
    → starts_above (clean_from done parts) ≡ true
unfolding clean_from
clean_from-above done [] e = e
clean_from-above done (part ∷ parts) e =
    clean_from-above (push part done) parts (push-above part done e)

Names-inside : (done : List String) → Names done → starts_above done ≡ false
unfolding Names starts_above
Names-inside [] h = refl
Names-inside (part ∷ []) h = ground (arith, h.0, str_eq_iff part "..")
Names-inside (part ∷ before ∷ rest) h = Names-inside (before ∷ rest) h.1

push-move :
    (part : String) (done : List String)
    → Names done
    → ((move part (length done) ≡ some (length (push part done))) × Names (push part done))
      ⊎ ((move part (length done) ≡ none) × (starts_above (push part done) ≡ true))
unfolding Names starts_above
push-move part [] h = ground (arith, str_eq_iff part "..")
push-move part (last ∷ rest) h =
    ground (arith, h.0, h.1, str_eq_iff part "..", str_eq_iff last "..")

-- The walk along a path's components stays at or below its start exactly if the cleaned path does not
-- start with "..".
pub walk-clean_from :
    (done parts : List String)
    → Names done
    → (starts_above (clean_from done parts) ≡ false)
      ↔ ((depth : ℕ) × (walk (length done) parts ≡ some depth))
unfolding clean_from walk
walk-clean_from done [] h = ((λ e. (length done, refl)), (λ w. Names-inside done h))
walk-clean_from done (part ∷ parts) h =
    let next : Option ℕ → Option ℕ = λ o. elim o [ none ↦ none | some d ↦ walk d parts ] in
    let Agrees : Option ℕ → Type 0 = λ x.
      (starts_above (clean_from (push part done) parts) ≡ false)
      ↔ ((depth : ℕ) × (x ≡ some depth)) in
    elim (push-move part done h) [
      | inl (moved, names) ↦
          subst Agrees (sym (ap next moved)) (walk-clean_from (push part done) parts names)
      | inr (stopped, over) ↦
          let escaped = clean_from-above (push part done) parts over in
          subst Agrees (sym (ap next stopped))
            ((λ e. absurd (cc (escaped, e))), (λ w. absurd (cc w.1)))
    ]
