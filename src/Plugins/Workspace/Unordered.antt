-- ===== src/Plugins/Workspace/Unordered.antt =====
-- The order of the map has no part in the choice of a workspace.
use agent_native_os.Prelude.{
  String, true, false, ◌≡◌, refl, sym, ap, ◌∙◌, subst, inl, inr, ◌↔◌, none, some, [], ◌∷◌, ◌==◌,
  text_comparable, str_eq_iff, eq_of_==, arith, All_at, Bool-cases, Option-cases,
}
use mathlib.Core.List.{Memᴰ}
use mathlib.Core.List.Memᴰ
use agent_native_os.Prelude.Map.{lookup, insert, lookup-insert, values}
use agent_native_os.Prelude.Result.{ok}
use agent_native_os.Plugins.EventLog.Live.{IsLive, IsLive-keeps}
use agent_native_os.Plugins.Workspace.Store.{
  WorkspaceRef, Refs, Change, allocated, released, undecodable, unknown_op, apply, as_released,
  ref_less, get_by_context, Store,
}
use agent_native_os.Plugins.Workspace.Best.{get_by_context-IsBest, ref_less-connected}

-- Each workspace stands under its own name, and under no other.
IsKeyed : Refs → Type 0
IsKeyed [] = Unit {0}
IsKeyed ((k, r) ∷ m) = (r.id ≡ k) × (lookup k m ≡ none) × IsKeyed m

insert-IsKeyed :
    (r : WorkspaceRef) (k : String) (m : Refs) → r.id ≡ k → IsKeyed m → IsKeyed (insert k r m)
unfolding insert IsKeyed lookup
insert-IsKeyed r k [] e h = (e, refl, tt)
insert-IsKeyed r k ((y, v) ∷ m) e h = elim (Bool-cases (y == k)) [
  | inl same ↦ rw same (e ∙ sym (eq_of_== y k same), h.1, h.2)
  | inr other ↦ rw other (
    h.0,
    ground (arith, lookup-insert k y r m, h.1, str_eq_iff y k, str_eq_iff k y),
    insert-IsKeyed r k m e h.2,
  )
]

IsKeyed-id : (k : String) (m : Refs) (r : WorkspaceRef) → IsKeyed m → lookup k m ≡ some r → r.id ≡ k
unfolding IsKeyed lookup
IsKeyed-id k [] r h e = cc
IsKeyed-id k ((y, v) ∷ m) r h e = elim (Bool-cases (y == k)) [
  | inl same ↦
      let one : v ≡ r = cc (rw same at e) in ap (λ x. x.id) (sym one) ∙ h.0 ∙ eq_of_== y k same
  | inr other ↦ IsKeyed-id k m r h.2 (rw other at e)
]

lookup_listed :
    (m : Refs) (x : WorkspaceRef) → IsKeyed m → Memᴰ x (values m) → lookup x.id m ≡ some x
unfolding IsKeyed lookup values
lookup_listed [] x h l = absurd (Memᴰ.not-nil l)
lookup_listed ((y, v) ∷ m) x h l = elim (Memᴰ.cases_cons l) [
  | inl here ↦
      let named : (y == x.id) ≡ true = (str_eq_iff y x.id).1 (sym (ap (λ z. z.id) here ∙ h.0)) in
      rw named (ap some (sym here))
  | inr there ↦
      let found = lookup_listed m x h.2 there in
      elim (Bool-cases (y == x.id)) [
        | inl same ↦ absurd (cc (found, h.1, eq_of_== y x.id same))
        | inr other ↦ rw other found
      ]
]

apply-IsKeyed : (d : Change) (s s' : Refs) → apply d s ≡ ok s' → IsKeyed s → IsKeyed s'
unfolding apply
apply-IsKeyed (allocated r) s s' e h =
    let same : insert r.id r s ≡ s' = cc in subst IsKeyed same (insert-IsKeyed r r.id s refl h)
apply-IsKeyed (released d) s s' e h = elim (Option-cases (lookup d.workspace_id s)) [
  | inl nothing ↦ absurd (cc (rw (nothing, apply) at e))
  | inr (r, found) ↦
      let same : insert d.workspace_id (as_released d r) s ≡ s' = cc (rw (found, apply) at e) in
      subst IsKeyed same (
        insert-IsKeyed (as_released d r) d.workspace_id s (IsKeyed-id d.workspace_id s r h found) h)
]
apply-IsKeyed undecodable s s' e h = cc
apply-IsKeyed unknown_op s s' e h = cc

same_choice :
    (wc : String) (s s' : Refs)
    → ((x : WorkspaceRef) → Memᴰ x (values s) ↔ Memᴰ x (values s'))
    → ((x y : WorkspaceRef) → Memᴰ x (values s) → Memᴰ y (values s) → x.id ≡ y.id → x ≡ y)
    → get_by_context wc s ≡ get_by_context wc s'
same_choice wc s s' same distinct =
    let (chosen, left_out) = get_by_context-IsBest wc s in
    let (chosen', left_out') = get_by_context-IsBest wc s' in
    elim (Option-cases (get_by_context wc s)) [
      | inl nothing ↦ elim (Option-cases (get_by_context wc s')) [
        | inl nothing' ↦ nothing ∙ sym nothing'
        | inr (r', found') ↦
            let c = chosen' r' found' in
            absurd (cc (c.fit, All_at _ (values s) ((same r').1 c.listed) (left_out nothing)))
      ]
      | inr (r, found) ↦ elim (Option-cases (get_by_context wc s')) [
        | inl nothing' ↦
            let c = chosen r found in
            absurd (cc (c.fit, All_at _ (values s') ((same r).0 c.listed) (left_out' nothing')))
        | inr (r', found') ↦
            let c = chosen r found in
            let c' = chosen' r' found' in
            let down = All_at _ (values s) ((same r').1 c'.listed) c.unbeaten in
            let up = All_at _ (values s') ((same r).0 c.listed) c'.unbeaten in
            let (level, level') : (ref_less r r' ≡ false) × (ref_less r' r ≡ false) =
              (ground (arith, c.fit, c'.fit, down, up), ground (arith, c.fit, c'.fit, down, up)) in
            let one =
              distinct r r' c.listed ((same r').1 c'.listed)
                (ref_less-connected r r' level level') in
            found ∙ ap some one ∙ sym found'
      ]
    ]

-- Go takes a map in any order. In a store that a process can have, which it has loaded from some
-- file and changed by appends, whether they have failed or not, a context gets the same answer
-- from each listing of the same workspaces.
pub get_by_context-unordered :
    (wc : String) (o : Store) (listing : Refs)
    → IsLive apply [] o
    → ((x : WorkspaceRef) → Memᴰ x (values o.0.state) ↔ Memᴰ x (values listing))
    → get_by_context wc o.0.state ≡ get_by_context wc listing
get_by_context-unordered wc o listing live same =
    let keyed = IsLive-keeps apply [] IsKeyed (unfold IsKeyed in tt) apply-IsKeyed live in
    same_choice wc o.0.state listing same (λ x y here there e.
      let found = lookup_listed o.0.state x keyed here in
      let found' = lookup_listed o.0.state y keyed there in cc)
