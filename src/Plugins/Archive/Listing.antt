-- ===== src/Plugins/Archive/Listing.antt =====
-- What the stores of records list.
use agent_native_os.Prelude.{
  String, Bool, true, false, ◌≡◌, ◌≢◌, refl, sym, ap, ◌∙◌, subst, inl, inr, none, some, List, [],
  ◌∷◌, ◌++◌, ◌==◌, text_comparable, str_eq_iff, eq_of_==, arith, if◌then◌else◌, All, All-append,
  All-imp, Bool-cases, Option-cases,
}
use mathlib.Core.List.{append-nil}
use agent_native_os.Prelude.Map.{Map, lookup, insert, lookup-insert, lookup-insert_self}
use agent_native_os.Prelude.Result.{ok}
use agent_native_os.Plugins.EventLog.{written, append}
use agent_native_os.Plugins.EventLog.Live.{IsLive, IsLive-keeps}
use agent_native_os.Plugins.Archive.{
  Change, recorded, undecodable, unknown_op, Table, Store, or_nil, ids_of, no_records, apply,
  record_one, get_by_id, records_of, query_by_context,
}

module _ {R : Type 0} (id_of context_of : R → String) where
  -- Each name on a context's list has a record, under that name.
  IsListed : Map String R → String → Type 0
  IsListed m id = (r : R) × (lookup id m ≡ some r) × (id_of r ≡ id)

  IsClosed : Table R → Type 0
  IsClosed s = (wc : String) → All (IsListed s.by_id) (ids_of wc s.by_ctx)

  IsClosed-at :
      (s : Table R) (wc : String) → IsClosed s → All (IsListed s.by_id) (ids_of wc s.by_ctx)
  unfolding IsClosed
  IsClosed-at s wc closed = closed wc

  insert-IsListed :
      (r : R) (m : Map String R) (id : String) → IsListed m id → IsListed (insert (id_of r) r m) id
  unfolding IsListed
  insert-IsListed r m id (old, found, named) = elim (Bool-cases (id_of r == id)) [
    | inl same ↦ (r, lookup-insert (id_of r) id r m ∙ rw same, eq_of_== (id_of r) id same)
    | inr other ↦ (old, lookup-insert (id_of r) id r m ∙ rw other found, named)
  ]

  ids_of-insert :
      (wc wc' : String) (ids : List String) (m : Map String (List String))
      → ids_of wc' (insert wc ids m) ≡ (if wc == wc' then ids else ids_of wc' m)
  ids_of-insert wc wc' ids m = ap or_nil (lookup-insert wc wc' ids m) ∙ branch (wc == wc')
    where
      branch :
          (b : Bool)
          → or_nil (if b then some ids else lookup wc' m) ≡ (if b then ids else ids_of wc' m)
      branch true = refl
      branch false = refl

  apply-IsClosed :
      (d : Change R) (s s' : Table R)
      → apply id_of context_of d s ≡ ok s'
      → IsClosed s
      → IsClosed s'
  unfolding apply IsClosed IsListed
  apply-IsClosed (recorded r) s s' e closed =
      let kept : (ids : List String)
          → All (IsListed s.by_id) ids
          → All (IsListed (insert (id_of r) r s.by_id)) ids =
        λ ids. All-imp _ ids (insert-IsListed r s.by_id) in
      let old : (wc : String) → All (IsListed (insert (id_of r) r s.by_id)) (ids_of wc s.by_ctx) =
        λ wc. kept (ids_of wc s.by_ctx) (closed wc) in
      let new : IsListed (insert (id_of r) r s.by_id) (id_of r) =
        (r, lookup-insert_self (id_of r) r s.by_id, refl) in
      let tables : (insert (id_of r) r s.by_id ≡ s'.by_id)
          × (insert (context_of r) (ids_of (context_of r) s.by_ctx ++ id_of r ∷ []) s.by_ctx
              ≡ s'.by_ctx) =
        (cc, cc) in
      λ wc.
        subst (λ m. All (IsListed m) (ids_of wc s'.by_ctx)) tables.0
          (subst (λ m. All (IsListed (insert (id_of r) r s.by_id)) (ids_of wc m)) tables.1
            (subst (All (IsListed (insert (id_of r) r s.by_id)))
              (sym (ids_of-insert (context_of r) wc _ s.by_ctx))
              (elim (Bool-cases (context_of r == wc)) [
                | inr other ↦ rw other (old wc)
                | inl same ↦ rw same (All-append _ _ (id_of r ∷ []) (old (context_of r)) (new, tt))
              ])))
  apply-IsClosed undecodable s s' e closed = cc
  apply-IsClosed unknown_op s s' e closed = cc

  IsLive-IsClosed :
      {o : Store R} → IsLive (apply id_of context_of) no_records o → IsClosed o.0.state
  unfolding IsClosed lookup
  IsLive-IsClosed =
      IsLive-keeps (apply id_of context_of) no_records IsClosed (λ wc. tt) apply-IsClosed

  -- A new name changes nothing of a list that has records for all its names.
  records_of-fresh :
      (r : R) (m : Map String R) (ids : List String)
      → lookup (id_of r) m ≡ none
      → All (IsListed m) ids
      → records_of ids (insert (id_of r) r m) ≡ records_of ids m
  unfolding records_of IsListed
  records_of-fresh r m [] fresh h = refl
  records_of-fresh r m (id ∷ ids) fresh ((old, found, named), rest) =
      let apart : (id_of r == id) ≡ false = elim (Bool-cases (id_of r == id)) [
        | inr other ↦ other
        | inl same ↦ let one = eq_of_== (id_of r) id same in absurd (cc (fresh, found, one))
      ] in
      rw (lookup-insert (id_of r) id r m, apart, found, records_of-fresh r m ids fresh rest)

  records_of-append :
      (ids : List String) (id : String) (m : Map String R) (r : R)
      → lookup id m ≡ some r
      → records_of (ids ++ id ∷ []) m ≡ records_of ids m ++ r ∷ []
  unfolding records_of
  records_of-append [] id m r found = rw found
  records_of-append (i ∷ ids) id m r found = elim (Option-cases (lookup i m)) [
    | inl nothing ↦ rw nothing (records_of-append ids id m r found)
    | inr (x, there) ↦ rw (there, records_of-append ids id m r found)
  ]

  -- In a store that a process can have, a record with a new name that is written to the log is found
  -- under its name, every other name gives what it gave, and the record is put behind the others of
  -- its context, while the answer for any other context is what it was.
  pub record_one-listing :
      (r : R) (o : Store R)
      → IsLive (apply id_of context_of) no_records o
      → get_by_id (id_of r) o.0.state ≡ none
      → let s' = (record_one id_of context_of written r o).1.0.state in
        (get_by_id (id_of r) s' ≡ some r)
        × ((id : String) → id ≢ id_of r → get_by_id id s' ≡ get_by_id id o.0.state)
        × ((wc : String)
            → query_by_context wc s'
              ≡ query_by_context wc o.0.state ++ (if context_of r == wc then r ∷ [] else []))
  unfolding record_one append apply get_by_id query_by_context
  record_one-listing r o live fresh =
      let m = o.0.state.by_id in
      let m' = insert (id_of r) r m in
      let closed = IsLive-IsClosed live in
      (
        lookup-insert_self (id_of r) r m,
        λ id differs.
            lookup-insert (id_of r) id r m ∙ (ground (arith, differs, str_eq_iff (id_of r) id)),
        λ wc.
            ap (λ ids. records_of ids m') (ids_of-insert (context_of r) wc _ o.0.state.by_ctx)
            ∙ listed o closed fresh wc (context_of r == wc) refl,
      )
    where
      listed :
          (o : Store R)
          → IsClosed o.0.state
          → lookup (id_of r) o.0.state.by_id ≡ none
          → (wc : String) (b : Bool) → (context_of r == wc) ≡ b
          → records_of
              (if b
                then ids_of (context_of r) o.0.state.by_ctx ++ id_of r ∷ []
                else ids_of wc o.0.state.by_ctx)
              (insert (id_of r) r o.0.state.by_id)
            ≡ records_of (ids_of wc o.0.state.by_ctx) o.0.state.by_id ++ (if b then r ∷ [] else [])
      listed o closed fresh wc true e =
          subst
            (λ c.
              records_of (ids_of (context_of r) o.0.state.by_ctx ++ id_of r ∷ [])
                (insert (id_of r) r o.0.state.by_id)
              ≡ records_of (ids_of c o.0.state.by_ctx) o.0.state.by_id ++ r ∷ [])
            (eq_of_== (context_of r) wc e)
            (records_of-append _ (id_of r) (insert (id_of r) r o.0.state.by_id) r
                (lookup-insert_self (id_of r) r o.0.state.by_id)
              ∙ ap (λ rs. rs ++ r ∷ [])
                  (records_of-fresh r o.0.state.by_id _ fresh
                    (IsClosed-at o.0.state (context_of r) closed)))
      listed o closed fresh wc false e =
          records_of-fresh r o.0.state.by_id _ fresh (IsClosed-at o.0.state wc closed)
          ∙ sym (append-nil _)
