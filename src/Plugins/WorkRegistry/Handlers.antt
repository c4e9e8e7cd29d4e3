-- ===== src/Plugins/WorkRegistry/Handlers.antt =====
-- plugins/work-registry/handlers.go. What a payload decodes to is an argument of each handler, `none`
-- if it does not decode.
use agent_native_os.Prelude.{
  ℕ, String, Bool, not, ◌&&◌, ◌||◌, Option, none, some, List, ◌==◌, text_comparable, if◌then◌else◌,
}
use agent_native_os.Prelude.Result.{Result, ok, err}
use agent_native_os.Kernel.Protocol.{Envelope}
use agent_native_os.Kernel.Fencing.{FenceEnv, FenceFault, inner, with_write_fence}
use agent_native_os.Plugins.Reply.{Reply, answered, crashed, rejection, io_rejection}
use agent_native_os.Plugins.EventLog.{Write, refused}
use agent_native_os.Plugins.WorkRegistry.Store.{
  Status, Status-Comparable, in_progress, in_review, done, failed, AcceptanceCriterion, EvidenceRef,
  Task, WorkContext, Store, StoreError, not_found, conflict, illegal_transition, panic, log_failed,
  unknown_context, nil_pointer, View, create_task, transition, attach_evidence, get_by_task,
  get_by_context,
}

pub record CreateRequest : Type 0 where
  pub title : String
  pub goal : String
  pub scope : String
  pub repo : String
  pub acceptance_criteria : List AcceptanceCriterion

pub record GetRequest : Type 0 where
  pub task_id : String
  pub work_context_id : String

pub record TransitionRequest : Type 0 where
  pub work_context_id : String
  pub to : Status
  pub expected_version : Option ℕ

pub record AttachEvidenceRequest : Type 0 where
  pub work_context_id : String
  pub kind : String
  pub source_capability : String
  pub source_id : String
  pub outcome : String
  pub content_hash : String
  pub expected_version : Option ℕ

-- The switch of errors.Is. An error of the log that is ErrNotFound is one too.
unfoldable pub error_reply : {A : Type 0} → FenceFault StoreError → Reply A
error_reply (inner not_found) = rejection "NOT_FOUND"
error_reply (inner conflict) = rejection "CONFLICT"
error_reply (inner illegal_transition) = rejection "ILLEGAL_TRANSITION"
error_reply (inner (log_failed (refused unknown_context))) = rejection "NOT_FOUND"
error_reply (inner (log_failed (refused nil_pointer))) = crashed
error_reply (inner panic) = crashed
error_reply _ = io_rejection

-- The same of a creation, where every error is retryable.
unfoldable pub create_error_reply : {A : Type 0} → FenceFault StoreError → Reply A
create_error_reply (inner panic) = crashed
create_error_reply (inner (log_failed (refused nil_pointer))) = crashed
create_error_reply _ = io_rejection

abbrev pub reply_of :
    {A : Type 0}
    → (FenceFault StoreError → Reply A)
    → Result (FenceFault StoreError) A × Store
    → Reply A × Store
reply_of on_error (ok a, s) = (answered a, s)
reply_of on_error (err e, s) = (on_error e, s)

unfoldable pub create_handler :
    FenceEnv
    → String
    → String
    → Write
    → Envelope
    → Option CreateRequest
    → Store
    → Reply (View × Bool) × Store
create_handler env task_id wc_id w e none s = (rejection "INVALID", s)
create_handler env task_id wc_id w e (some q) s =
    if q.title == "" || q.goal == "" || q.repo == ""
    then (rejection "INVALID", s)
    else reply_of create_error_reply (
        with_write_fence env e
          (create_task task_id wc_id w (record {
            title = q.title;
            goal = q.goal;
            scope = q.scope;
            repo = q.repo;
            acceptance = q.acceptance_criteria;
            idempotency_key = e.idempotency_key;
          }))
          s)

-- A missing entry behind a found one is a nil pointer.
abbrev found_reply : Option View → Reply (Task × WorkContext)
found_reply none = rejection "NOT_FOUND"
found_reply (some (some task, some wc)) = answered (task, wc)
found_reply (some _) = crashed

abbrev found_task : Option (Task × Option WorkContext) → Option View
found_task none = none
found_task (some (task, wc)) = some (some task, wc)

unfoldable pub get_handler : Option GetRequest → Store → Reply (Task × WorkContext)
get_handler none s = rejection "INVALID"
get_handler (some q) s =
    if (q.task_id == "" && q.work_context_id == "")
      || (not (q.task_id == "") && not (q.work_context_id == ""))
    then rejection "INVALID"
    else if not (q.task_id == "")
    then found_reply (found_task (get_by_task q.task_id s.0.state))
    else found_reply (get_by_context q.work_context_id s.0.state)

abbrev valid_target : Status → Bool
valid_target to = to == in_progress || to == in_review || to == done || to == failed

unfoldable pub transition_handler :
    FenceEnv → Write → Envelope → Option TransitionRequest → Store → Reply View × Store
transition_handler env w e none s = (rejection "INVALID", s)
transition_handler env w e (some q) s = elim q.expected_version [
  | none ↦ (rejection "INVALID", s)
  | some version ↦
      if q.work_context_id == "" || not (valid_target q.to)
      then (rejection "INVALID", s)
      else reply_of error_reply
          (with_write_fence env e (transition w q.work_context_id q.to version) s)
]

unfoldable pub attach_evidence_handler :
    FenceEnv
    → String
    → String
    → Write
    → Envelope
    → Option AttachEvidenceRequest
    → Store
    → Reply (EvidenceRef × Option WorkContext) × Store
attach_evidence_handler env ev_id now w e none s = (rejection "INVALID", s)
attach_evidence_handler env ev_id now w e (some q) s = elim q.expected_version [
  | none ↦ (rejection "INVALID", s)
  | some version ↦
      if q.work_context_id == ""
        || not (q.kind == "build" || q.kind == "test" || q.kind == "review")
        || q.source_capability == ""
        || q.source_id == ""
        || not (q.outcome == "PASS" || q.outcome == "FAIL")
      then (rejection "INVALID", s)
      else reply_of error_reply (
          with_write_fence env e
            (attach_evidence ev_id now w q.work_context_id
              (record {
                id = "";
                kind = q.kind;
                source_capability = q.source_capability;
                source_id = q.source_id;
                outcome = q.outcome;
                observed_at = "";
                content_hash = q.content_hash;
                invalidated_at = none;
              })
              version)
            s)
]
