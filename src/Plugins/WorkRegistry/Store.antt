-- ===== src/Plugins/WorkRegistry/Store.antt =====
-- plugins/work-registry/store.go.
use agent_native_os.Prelude.{
  ℕ, String, Bool, true, false, not, ◌&&◌, ◌||◌, ◌≡◌, ◌↔◌, Option, none, some, List, [], ◌∷◌, ◌++◌,
  arith, Comparable, ◌==◌, text_comparable, nat_comparable, str_eq_iff, if◌then◌else◌,
}
use agent_native_os.Prelude.Int64.{incr}
use agent_native_os.Prelude.Map.{Map, lookup, insert}
use agent_native_os.Prelude.Result.{Result, ok, err}
use agent_native_os.Plugins.EventLog
use agent_native_os.Plugins.EventLog.{Numbered, LogFile, LogError, Write, append}

-- A text that is none of the five states is `other`.
pub data Status : Type 0 where
  planned in_progress in_review done failed : Status
  other : String → Status

abbrev status_eq : Status → Status → Bool
status_eq planned planned = true
status_eq in_progress in_progress = true
status_eq in_review in_review = true
status_eq done done = true
status_eq failed failed = true
status_eq (other s) (other t) = s == t
status_eq _ _ = false

pub status_eq_iff : (a b : Status) → (status_eq a b ≡ true) ↔ (a ≡ b)
status_eq_iff (other s) (other t) = ground (arith, str_eq_iff s t)
status_eq_iff a b = ground arith

instance abbrev pub Status-Comparable : Comparable Status
Status-Comparable = record { same_value = status_eq; same_value_iff = status_eq_iff }

pub record AcceptanceCriterion : Type 0 where
  pub id : String
  pub text : String

pub record EvidenceRef : Type 0 where
  pub id : String
  pub kind : String
  pub source_capability : String
  pub source_id : String
  pub outcome : String
  pub observed_at : String
  pub content_hash : String
  pub invalidated_at : Option String

pub record Task : Type 0 where
  pub id : String
  pub title : String
  pub goal : String
  pub scope : String
  pub acceptance_criteria : List AcceptanceCriterion
  pub status : Status
  pub version : ℕ
  pub work_context_id : String

-- The reference to an active workspace is never set.
pub record WorkContext : Type 0 where
  pub id : String
  pub task_id : String
  pub repo : String
  pub evidence_refs : List EvidenceRef
  pub version : ℕ

pub record CreateInput : Type 0 where
  pub title : String
  pub goal : String
  pub scope : String
  pub repo : String
  pub acceptance : List AcceptanceCriterion
  pub idempotency_key : String

-- A record of the log. `undecodable` has a known operation over data that does not decode.
pub data Change : Type 0 where
  created : Task → WorkContext → String → Change
  transitioned : String → Status → Status → ℕ → Change
  evidence_attached : String → EvidenceRef → Change
  undecodable : Change
  unknown_op : String → Change

-- The maps of the store.
pub record Tables : Type 0 where
  pub tasks : Map String Task
  pub wcs : Map String WorkContext
  pub task_by_wc : Map String String
  pub idem : Map String String

abbrev pub no_tables : Tables
no_tables = record { tasks = []; wcs = []; task_by_wc = []; idem = [] }

-- `nil_pointer` stands for the panic of reading through a missing entry.
pub data ApplyError : Type 0 where
  unknown_context bad_data bad_op nil_pointer : ApplyError

unfoldable pub apply : Change → Tables → Result ApplyError Tables
apply (created task wc key) s = ok (record s {
  tasks = insert task.id task s.tasks;
  wcs = insert wc.id wc s.wcs;
  task_by_wc = insert wc.id task.id s.task_by_wc;
  idem = if key == "" then s.idem else insert key task.id s.idem;
})
apply (transitioned wc_id from to version) s = elim (lookup wc_id s.task_by_wc) [
  | none ↦ err unknown_context
  | some task_id ↦ elim (lookup task_id s.tasks) [
    | none ↦ err nil_pointer
    | some task ↦ ok (record s {
      tasks = insert task_id (record task { status = to; version = version }) s.tasks;
    })
  ]
]
apply (evidence_attached wc_id ev) s = elim (lookup wc_id s.wcs) [
  | none ↦ err unknown_context
  | some wc ↦ ok (record s {
    wcs =
        insert wc_id
          (record wc { evidence_refs = wc.evidence_refs ++ ev ∷ []; version = incr wc.version })
          s.wcs;
  })
]
apply undecodable s = err bad_data
apply (unknown_op op) s = err bad_op

-- The store with its file.
abbrev pub Store : Type 0
Store = Numbered Tables × LogFile Change

unfoldable pub load : LogFile Change → Result (LogError ApplyError) (Numbered Tables)
load = EventLog.load apply no_tables

pub data StoreError : Type 0 where
  not_found conflict illegal_transition panic : StoreError
  log_failed : LogError ApplyError → StoreError

unfoldable pub legal_transition : Status → Status → Bool
legal_transition from to =
    if to == failed && not (from == done) && not (from == failed)
    then true
    else (from == planned && to == in_progress)
      || (from == in_progress && to == in_review)
      || (from == in_review && to == done)

-- What a method returns: the task and its context as they are in the maps.
abbrev pub View : Type 0
View = Option Task × Option WorkContext

abbrev pub view : String → String → Store → View
view task_id wc_id (s, file) = (lookup task_id s.state.tasks, lookup wc_id s.state.wcs)

-- Append one record, and then return a result that is read from the new state.
abbrev pub answer :
    {A : Type 0}
    → (Store → A)
    → Result (LogError ApplyError) (Unit {0}) × Store
    → Result StoreError A × Store
answer result (err e, s) = (err (log_failed e), s)
answer result (ok _, s) = (ok (result s), s)

unfoldable pub log_then :
    {A : Type 0} → Write → Change → (Store → A) → Store → Result StoreError A × Store
log_then w change result s = answer result (append apply w change s)

abbrev pub new_task : String → String → CreateInput → Task
new_task task_id wc_id input = record {
  id = task_id;
  title = input.title;
  goal = input.goal;
  scope = input.scope;
  acceptance_criteria = input.acceptance;
  status = planned;
  version = 1;
  work_context_id = wc_id;
}

abbrev pub new_context : String → String → CreateInput → WorkContext
new_context task_id wc_id input = record {
  id = wc_id;
  task_id = task_id;
  repo = input.repo;
  evidence_refs = [];
  version = 1;
}

unfoldable pub find_idem : String → Tables → Option String
find_idem key s = if key == "" then none else lookup key s.idem

-- CreateTask. The two names are what protocol.NewID returns; the Boolean says that an earlier
-- request with the key is answered again.
unfoldable pub create_task :
    String → String → Write → CreateInput → Store → Result StoreError (View × Bool) × Store
create_task task_id wc_id w input s = elim (find_idem input.idempotency_key s.0.state) [
  | some old_id ↦ elim (lookup old_id s.0.state.tasks) [
    | none ↦ (err panic, s)
    | some t ↦ (ok (view old_id t.work_context_id s, true), s)
  ]
  | none ↦
      log_then w
        (created (new_task task_id wc_id input) (new_context task_id wc_id input)
          input.idempotency_key)
        (λ s'. (view task_id wc_id s', false)) s
]

unfoldable pub transition : Write → String → Status → ℕ → Store → Result StoreError View × Store
transition w wc_id to expected_version s = elim (lookup wc_id s.0.state.task_by_wc) [
  | none ↦ (err not_found, s)
  | some task_id ↦ elim (lookup task_id s.0.state.tasks) [
    | none ↦ (err panic, s)
    | some task ↦
        if not (task.version == expected_version)
        then (err conflict, s)
        else if not (legal_transition task.status to)
        then (err illegal_transition, s)
        else log_then w (transitioned wc_id task.status to (incr task.version)) (view task_id wc_id)
            s
  ]
]

-- The name and the time are what the host gives.
unfoldable pub attach_evidence :
    String
    → String
    → Write
    → String
    → EvidenceRef
    → ℕ
    → Store
    → Result StoreError (EvidenceRef × Option WorkContext) × Store
attach_evidence ev_id now w wc_id ev expected_version s = elim (lookup wc_id s.0.state.wcs) [
  | none ↦ (err not_found, s)
  | some wc ↦
      let ev' = record ev { id = ev_id; observed_at = now; invalidated_at = none } in
      if not (wc.version == expected_version)
      then (err conflict, s)
      else log_then w (evidence_attached wc_id ev') (λ s'. (ev', lookup wc_id s'.0.state.wcs)) s
]

unfoldable pub get_by_task : String → Tables → Option (Task × Option WorkContext)
get_by_task task_id s = elim (lookup task_id s.tasks) [
  | none ↦ none
  | some task ↦ some (task, lookup task.work_context_id s.wcs)
]

unfoldable pub get_by_context : String → Tables → Option (Option Task × Option WorkContext)
get_by_context wc_id s = elim (lookup wc_id s.task_by_wc) [
  | none ↦ none
  | some task_id ↦ some (lookup task_id s.tasks, lookup wc_id s.wcs)
]
