-- ===== src/Plugins/Review/Store.antt =====
-- plugins/review/store.go.
use agent_native_os.Prelude.{
  String, Bool, not, Option, none, some, List, [], ◌∷◌, ◌++◌, ◌==◌, text_comparable, if◌then◌else◌,
}
use agent_native_os.Prelude.Map.{Map, lookup, insert}
use agent_native_os.Prelude.Result.{Result, ok, err}
use agent_native_os.Plugins.EventLog
use agent_native_os.Plugins.EventLog.{Numbered, LogFile, LogError, Write, append}

pub record AcceptanceResult : Type 0 where
  pub criterion_id : String
  pub satisfied : Bool
  pub evidence_refs : List String
  pub notes : String

pub record EvidenceSnapshotItem : Type 0 where
  pub kind : String
  pub outcome : String
  pub evidence_ref_id : String

pub record Review : Type 0 where
  pub id : String
  pub work_context_id : String
  pub agent_run_id : String
  pub diff_artifact_id : String
  pub status : String
  pub reviewer : String
  pub notes : String
  pub acceptance_results : List AcceptanceResult
  pub evidence_snapshot : List EvidenceSnapshotItem
  pub requested_at : String
  pub decided_at : String

-- A record of the log: its data is decoded before its operation is looked at.
pub data Change : Type 0 where
  requested decided unknown_op : Review → Change
  undecodable : Change

pub record Reviews : Type 0 where
  pub by_id : Map String Review
  pub by_ctx : Map String (List String)

abbrev pub no_reviews : Reviews
no_reviews = record { by_id = []; by_ctx = [] }

pub data ApplyError : Type 0 where
  bad_data bad_op : ApplyError

-- The entry of a missing key is the nil slice.
abbrev ids_of : String → Map String (List String) → List String
ids_of wc m = elim (lookup wc m) [ none ↦ [] | some ids ↦ ids ]

unfoldable pub apply : Change → Reviews → Result ApplyError Reviews
apply (requested r) s = ok (record {
  by_id = insert r.id r s.by_id;
  by_ctx = insert r.work_context_id (ids_of r.work_context_id s.by_ctx ++ r.id ∷ []) s.by_ctx;
})
apply (decided r) s = ok (record s { by_id = insert r.id r s.by_id })
apply (unknown_op r) s = err bad_op
apply undecodable s = err bad_data

abbrev pub Store : Type 0
Store = Numbered Reviews × LogFile Change

unfoldable pub load : LogFile Change → Result (LogError ApplyError) (Numbered Reviews)
load = EventLog.load apply no_reviews

pub data StoreError : Type 0 where
  not_found already_decided : StoreError
  log_failed : LogError ApplyError → StoreError

unfoldable pub record_requested :
    Write → Review → Store → Result (LogError ApplyError) (Unit {0}) × Store
record_requested w r s = append apply w (requested r) s

-- A review with a decision.
abbrev pub with_decision :
    String → String → String → List AcceptanceResult → String → Review → Review
with_decision decision reviewer notes results now p = record p {
  status = decision;
  reviewer = reviewer;
  notes = notes;
  acceptance_results = results;
  decided_at = now;
}

abbrev pub after_append :
    Review → Result (LogError ApplyError) (Unit {0}) × Store → Result StoreError Review × Store
after_append r (err e, s) = (err (log_failed e), s)
after_append r (ok _, s) = (ok r, s)

unfoldable pub record_decided :
    Write
    → String
    → String
    → String
    → String
    → String
    → List AcceptanceResult
    → Store
    → Result StoreError Review × Store
record_decided w now id decision reviewer notes results s = elim (lookup id s.0.state.by_id) [
  | none ↦ (err not_found, s)
  | some p ↦
      let r = with_decision decision reviewer notes results now p in
      if not (p.status == "PENDING")
      then (err already_decided, s)
      else after_append r (append apply w (decided r) s)
]

unfoldable pub get_by_id : String → Reviews → Option Review
get_by_id id s = lookup id s.by_id

abbrev collect : Option Review → List Review → List Review
collect none rest = rest
collect (some r) rest = r ∷ rest

unfoldable pub reviews_of : List String → Reviews → List Review
reviews_of [] s = []
reviews_of (id ∷ ids) s = collect (lookup id s.by_id) (reviews_of ids s)

unfoldable pub query_by_context : String → Reviews → List Review
unfolding reviews_of
query_by_context wc s = reviews_of (ids_of wc s.by_ctx) s
