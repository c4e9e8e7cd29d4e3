-- ===== src/Plugins/Workspace/Choice.antt =====
-- Which workspace a context gets: getByContext of plugins/workspace/store.go.
use agent_native_os.Prelude.{String, true, ◌≡◌, List, text_comparable, All}
use mathlib.Core.List.{Memᴰ}
use agent_native_os.Prelude.Text.{str_lt}
use agent_native_os.Plugins.Workspace.Store.{WorkspaceRef}

-- What a context may use, and which workspace goes before another, apart from the code's tests.
pub data IsUsable (wc : String) (x : WorkspaceRef) : Type 0 where
  in_use : x.work_context_id ≡ wc → x.status ≡ "ALLOCATED" → IsUsable wc x
  left_over :
      x.work_context_id ≡ wc → x.status ≡ "RELEASED" → x.release_policy ≡ "preserve" → IsUsable wc x

-- The later allocation, then the later release, then the lesser name.
pub data GoesBefore (x r : WorkspaceRef) : Type 0 where
  by_allocation : str_lt r.allocated_at x.allocated_at ≡ true → GoesBefore x r
  by_release :
      x.allocated_at ≡ r.allocated_at → str_lt r.released_at x.released_at ≡ true → GoesBefore x r
  by_name :
      x.allocated_at ≡ r.allocated_at
      → x.released_at ≡ r.released_at
      → str_lt x.id r.id ≡ true
      → GoesBefore x r

pub data IsPreferred (x r : WorkspaceRef) : Type 0 where
  by_status : x.status ≡ "ALLOCATED" → r.status ≡ "RELEASED" → IsPreferred x r
  by_order : x.status ≡ r.status → GoesBefore x r → IsPreferred x r

pub record IsChosen (wc : String) (refs : List WorkspaceRef) (r : WorkspaceRef) : Type 0 where
  pub listed : Memᴰ r refs
  pub fit : IsUsable wc r
  pub unbeaten : All (λ x. IsUsable wc x → ¬ IsPreferred x r) refs
