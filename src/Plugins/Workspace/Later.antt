-- ===== src/Plugins/Workspace/Later.antt =====
-- What becomes of plugins/workspace/store.go while no release of one workspace is written.
use agent_native_os.Prelude.{
  String, false, ◌≡◌, ◌≢◌, refl, sym, ap, ◌∙◌, inl, inr, ◌==◌, text_comparable, str_eq_iff, arith,
  Option-cases,
}
use agent_native_os.Prelude.Map.{lookup, insert, lookup-insert}
use agent_native_os.Prelude.Result.{Result, ok, err, Result-cases}
use agent_native_os.Plugins.EventLog.{
  Write, append, LogError, not_opened, torn, no_newline, not_synced, written,
}
use agent_native_os.Plugins.Workspace.Store.{
  WorkspaceRef, ReleasedData, Store, ApplyError, released, as_released, apply, after_release,
  record_released, Change, Refs, allocated, record_allocated,
}

-- The stores that a store becomes while no release of the workspace is written: workspaces with other
-- names are allocated and released, whether the writes succeed or not.
pub data IsLater (id : String) (s : Store) : Store → Type 0 where
  unchanged : IsLater id s s
  allocating :
      (w : Write) (r : WorkspaceRef) {o : Store}
      → r.id ≢ id
      → IsLater id s o
      → IsLater id s (record_allocated w r o).1
  releasing :
      (w : Write) (now other policy : String) {o : Store}
      → other ≢ id
      → IsLater id s o
      → IsLater id s (record_released w now other policy o).1

-- Each record stands under its own name, so that one of another name leaves this one alone.
append_elsewhere :
    (w : Write) (d : Change) (id : String) (s : Store)
    → ((m m' : Refs) → apply d m ≡ ok m' → lookup id m' ≡ lookup id m)
    → lookup id (append apply w d s).1.0.state ≡ lookup id s.0.state
unfolding append
append_elsewhere not_opened d id s h = refl
append_elsewhere torn d id s h = refl
append_elsewhere no_newline d id s h = refl
append_elsewhere not_synced d id s h = refl
append_elsewhere written d id s h = elim (Result-cases (apply d s.0.state)) [
  | inl (state, accepted) ↦ rw (accepted, append) (h s.0.state state accepted)
  | inr (x, refused) ↦ rw (refused, append) refl
]

insert_elsewhere :
    (k id : String) (r : WorkspaceRef) (m : Refs) → k ≢ id → lookup id (insert k r m) ≡ lookup id m
insert_elsewhere k id r m other =
    let apart : (k == id) ≡ false = ground (arith, other, str_eq_iff k id) in
    lookup-insert k id r m ∙ rw apart

allocated_elsewhere :
    (w : Write) (r : WorkspaceRef) (id : String) (s : Store)
    → r.id ≢ id
    → lookup id (record_allocated w r s).1.0.state ≡ lookup id s.0.state
unfolding record_allocated apply
allocated_elsewhere w r id s other = append_elsewhere w (allocated r) id s (λ m m' e.
    let same : insert r.id r m ≡ m' = cc in
    ap (lookup id) (sym same) ∙ insert_elsewhere r.id id r m other)

after_release-kept :
    (id : String) (o : Result (LogError ApplyError) (Unit {0}) × Store)
    → (after_release id o).1 ≡ o.1
after_release-kept id (err x, s) = refl
after_release-kept id (ok tt, s) = refl

apply-released :
    (d : ReleasedData) (id : String) (m m' : Refs)
    → d.workspace_id ≢ id
    → apply (released d) m ≡ ok m'
    → lookup id m' ≡ lookup id m
unfolding apply
apply-released d id m m' other e = elim (Option-cases (lookup d.workspace_id m)) [
  | inl nothing ↦ absurd (cc (rw (nothing, apply) at e))
  | inr (r, found) ↦
      let same : insert d.workspace_id (as_released d r) m ≡ m' = cc (rw (found, apply) at e) in
      ap (lookup id) (sym same) ∙ insert_elsewhere d.workspace_id id (as_released d r) m other
]

released_elsewhere :
    (w : Write) (now other policy id : String) (s : Store)
    → other ≢ id
    → lookup id (record_released w now other policy s).1.0.state ≡ lookup id s.0.state
unfolding record_released
released_elsewhere w now other policy id s apart = elim (Option-cases (lookup other s.0.state)) [
  | inl nothing ↦ rw (nothing, record_released) refl
  | inr (r, found) ↦
      rw (found, record_released)
        (ap (λ x. lookup id x.0.state) (after_release-kept other _)
          ∙ append_elsewhere w _ id s (λ m m' e. apply-released _ id m m' apart e))
]

pub IsLater-keeps :
    (id : String) (s : Store) {o : Store}
    → IsLater id s o
    → lookup id o.0.state ≡ lookup id s.0.state
IsLater-keeps id s unchanged = refl
IsLater-keeps id s (allocating w r {o = o} other later) =
    allocated_elsewhere w r id o other ∙ IsLater-keeps id s later
IsLater-keeps id s (releasing w now other policy {o = o} apart later) =
    released_elsewhere w now other policy id o apart ∙ IsLater-keeps id s later
