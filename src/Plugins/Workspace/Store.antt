-- ===== src/Plugins/Workspace/Store.antt =====
-- plugins/workspace/store.go.
use agent_native_os.Prelude.{
  String, Bool, not, ◌&&◌, Option, none, some, List, [], ◌∷◌, ◌==◌, text_comparable, if◌then◌else◌,
  keep,
}
use agent_native_os.Prelude.Map.{Map, lookup, insert, values}
use agent_native_os.Prelude.Result.{Result, ok, err}
use agent_native_os.Prelude.Text.{str_lt}
use agent_native_os.Prelude.Order.{best_from}
use agent_native_os.Plugins.EventLog
use agent_native_os.Plugins.EventLog.{Numbered, LogFile, LogError, Write, append}

pub record WorkspaceRef : Type 0 where
  pub id : String
  pub work_context_id : String
  pub repo : String
  pub path : String
  pub branch : String
  pub base_commit : String
  pub status : String
  pub release_policy : String
  pub allocated_at : String
  pub released_at : String

pub record ReleasedData : Type 0 where
  pub workspace_id : String
  pub policy : String
  pub released_at : String

-- A record of the log.
pub data Change : Type 0 where
  allocated : WorkspaceRef → Change
  released : ReleasedData → Change
  undecodable unknown_op : Change

abbrev pub Refs : Type 0
Refs = Map String WorkspaceRef

pub data ApplyError : Type 0 where
  bad_data bad_op missing : ApplyError

abbrev pub as_released : ReleasedData → WorkspaceRef → WorkspaceRef
as_released d ref = record ref {
  status = "RELEASED";
  release_policy = d.policy;
  released_at = d.released_at;
}

abbrev apply_released : ReleasedData → Option WorkspaceRef → Refs → Result ApplyError Refs
apply_released d none s = err missing
apply_released d (some ref) s = ok (insert d.workspace_id (as_released d ref) s)

unfoldable pub apply : Change → Refs → Result ApplyError Refs
apply (allocated ref) s = ok (insert ref.id ref s)
apply (released d) s = apply_released d (lookup d.workspace_id s) s
apply undecodable s = err bad_data
apply unknown_op s = err bad_op

abbrev pub Store : Type 0
Store = Numbered Refs × LogFile Change

unfoldable pub load : LogFile Change → Result (LogError ApplyError) (Numbered Refs)
load = EventLog.load apply []

pub data StoreError : Type 0 where
  not_found : StoreError
  log_failed : LogError ApplyError → StoreError

unfoldable pub record_allocated :
    Write → WorkspaceRef → Store → Result (LogError ApplyError) (Unit {0}) × Store
record_allocated w ref s = append apply w (allocated ref) s

unfoldable pub get_by_id : String → Refs → Option WorkspaceRef
get_by_id id s = lookup id s

-- A clone of a nil reference is the zero value; behind an append that succeeded there is one.
abbrev zero_ref : WorkspaceRef
zero_ref = record {
  id = "";
  work_context_id = "";
  repo = "";
  path = "";
  branch = "";
  base_commit = "";
  status = "";
  release_policy = "";
  allocated_at = "";
  released_at = "";
}

abbrev clone_ref : Option WorkspaceRef → WorkspaceRef
clone_ref none = zero_ref
clone_ref (some ref) = ref

abbrev pub after_release :
    String
    → Result (LogError ApplyError) (Unit {0}) × Store
    → Result StoreError WorkspaceRef × Store
after_release id (err e, s) = (err (log_failed e), s)
after_release id (ok _, s) = (ok (clone_ref (lookup id s.0.state)), s)

unfoldable pub record_released :
    Write → String → String → String → Store → Result StoreError WorkspaceRef × Store
record_released w now id policy s = elim (lookup id s.0.state) [
  | none ↦ (err not_found, s)
  | some _ ↦ after_release id (
      append apply w (released (record { workspace_id = id; policy = policy; released_at = now }))
        s)
]

abbrev pub is_allocated : String → WorkspaceRef → Bool
is_allocated wc ref = ref.work_context_id == wc && ref.status == "ALLOCATED"

abbrev later : WorkspaceRef → WorkspaceRef → Bool
later best ref = str_lt best.allocated_at ref.allocated_at

abbrev pub best_of : (WorkspaceRef → WorkspaceRef → Bool) → List WorkspaceRef → Option WorkspaceRef
best_of lt [] = none
best_of lt (ref ∷ refs) = some (best_from lt ref refs)

-- The loop over the map, in the order in which this run takes it.
unfoldable pub get_active_by_context : String → Refs → Option WorkspaceRef
get_active_by_context wc s = best_of later (keep (is_allocated wc) (values s))

unfoldable pub ref_less : WorkspaceRef → WorkspaceRef → Bool
ref_less a b =
    if not (a.allocated_at == b.allocated_at)
    then str_lt a.allocated_at b.allocated_at
    else if not (a.released_at == b.released_at)
    then str_lt a.released_at b.released_at
    else str_lt b.id a.id

abbrev pub is_preserved : String → WorkspaceRef → Bool
is_preserved wc ref =
    ref.work_context_id == wc && ref.status == "RELEASED" && ref.release_policy == "preserve"

abbrev pub or_else : List WorkspaceRef → List WorkspaceRef → List WorkspaceRef
or_else [] preserved = preserved
or_else (ref ∷ refs) preserved = ref ∷ refs

abbrev pub candidates : String → List WorkspaceRef → List WorkspaceRef
candidates wc refs = or_else (keep (is_allocated wc) refs) (keep (is_preserved wc) refs)

unfoldable pub get_by_context : String → Refs → Option WorkspaceRef
unfolding ref_less
get_by_context wc s = best_of ref_less (candidates wc (values s))
