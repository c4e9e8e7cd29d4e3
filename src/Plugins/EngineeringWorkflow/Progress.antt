-- ===== src/Plugins/EngineeringWorkflow/Progress.antt =====
-- plugins/engineering-workflow/progress.go, and the handlers run and get of handlers.go: the stage of
-- a task as its journal tells it.
use agent_native_os.Prelude.{
  String, Bool, true, false, not, ◌&&◌, ◌||◌, ◌≡◌, refl, sym, subst, Option, none, some, List, [],
  ◌∷◌, ◌++◌, ◌==◌, text_comparable, if◌then◌else◌, str_eq_iff, inl, inr, ◌⊎◌, All, Bool-cases,
}
use agent_native_os.Prelude.Map.{Map, lookup}
use agent_native_os.Prelude.Result.{Result, ok, err}
use agent_native_os.Kernel.Protocol.{Error}

-- The decoded payload holds the entries that are texts; one that does not decode holds none.
pub record JournalRecord : Type 0 where
  pub id : String
  pub type : String
  pub correlation_id : String
  pub payload : Map String String

abbrev pub text_of : String → Map String String → String
text_of key p = elim (lookup key p) [ none ↦ "" | some s ↦ s ]

pub data Stage : Type 0 where
  created workspace agent diff build test review_requested waiting_review : Stage
  reviewed sealed finished : Stage

-- The switch of the loop.
abbrev advance : JournalRecord → Stage → Stage
advance r stage =
    if r.type == "workspace.allocated"
    then workspace
    else if r.type == "agent.run.started"
    then agent
    else if r.type == "diff.collected"
    then diff
    else if r.type == "tool.run.completed"
    then (if text_of "label" r.payload == "build"
        then build
        else if text_of "label" r.payload == "test"
        then test
        else stage)
    else if r.type == "work.transitioned"
    then (if text_of "to" r.payload == "IN_REVIEW"
        then review_requested
        else if text_of "to" r.payload == "DONE"
        then finished
        else stage)
    else if r.type == "workflow.waiting_review"
    then waiting_review
    else if r.type == "review.decided"
    then reviewed
    else if r.type == "session.sealed"
    then sealed
    else stage

abbrev pub concerns : String → JournalRecord → Bool
concerns key r = text_of "work_context_id" r.payload == key || text_of "task_id" r.payload == key

unfoldable pub project_from :
    Stage × List JournalRecord → List JournalRecord → String → Stage × List JournalRecord
project_from acc [] key = acc
project_from (stage, matched) (r ∷ rest) key =
    project_from (if concerns key r then (advance r stage, matched ++ r ∷ []) else (stage, matched))
      rest key

unfoldable pub project : List JournalRecord → String → Stage × List JournalRecord
unfolding project_from
project records key = project_from (created, []) records key

pub record GetRequest : Type 0 where
  pub work_context_id : String
  pub task_id : String

-- What workflow.get answers. `true` is the outcome DONE.
pub record Progress : Type 0 where
  pub stage : Stage
  pub events : List JournalRecord
  pub says_done : Bool

abbrev is_final : Stage → Bool
is_final finished = true
is_final sealed = true
is_final _ = false

abbrev show_progress : Stage × List JournalRecord → Progress
show_progress (stage, matched) = record {
  stage = stage;
  events = matched;
  says_done = is_final stage;
}

-- `records` is what the journal's replay gives.
unfoldable pub get_handler :
    Option GetRequest → Result String (List JournalRecord) → Result Error Progress
unfolding project
get_handler none records = err (record { code = "INVALID"; retryable = false })
get_handler (some q) records =
    if (q.work_context_id == "" && q.task_id == "")
      || (not (q.work_context_id == "") && not (q.task_id == ""))
    then err (record { code = "INVALID"; retryable = false })
    else answer records (if q.work_context_id == "" then q.task_id else q.work_context_id)
  where
    answer : Result String (List JournalRecord) → String → Result Error Progress
    answer (err e) key = err (record { code = "IO"; retryable = true })
    answer (ok records) key = ok (show_progress (project records key))

project_from-append :
    (rs more : List JournalRecord) (key : String) (acc : Stage × List JournalRecord)
    → project_from acc (rs ++ more) key ≡ project_from (project_from acc rs key) more key
unfolding project_from
project_from-append [] more key acc = refl
project_from-append (r ∷ rest) more key acc = project_from-append rest more key _

-- What may follow a seal: records of other contexts, and those that the release of a workspace makes.
abbrev pub LeavesStage : String → JournalRecord → Type 0
LeavesStage key r = (concerns key r ≡ false) ⊎ (r.type ≡ "workspace.released")

advance-released : (r : JournalRecord) → r.type ≡ "workspace.released" → advance r sealed ≡ sealed
advance-released r freed = rw freed refl

sealed-stays :
    (more : List JournalRecord) (key : String) (matched : List JournalRecord)
    → All (LeavesStage key) more
    → (project_from (sealed, matched) more key).0 ≡ sealed
unfolding project_from
sealed-stays [] key matched h = refl
sealed-stays (r ∷ rest) key matched (inl other, later) =
    rw other (sealed-stays rest key matched later)
sealed-stays (r ∷ rest) key matched (inr freed, later) = elim (Bool-cases (concerns key r)) [
  | inl hit ↦ rw hit (
      subst (λ stage. (project_from (stage, matched ++ r ∷ []) rest key).0 ≡ sealed)
        (sym (advance-released r freed)) (sealed-stays rest key (matched ++ r ∷ []) later))
  | inr miss ↦ rw miss (sealed-stays rest key matched later)
]

-- Whatever a journal holds before a record that seals a session for a context with a non-empty name,
-- if all that follows it are records that do not concern the context or tell of the release of a
-- workspace, workflow.get of this context answers with the stage SEALED and the outcome DONE, and
-- with the records that concern it: also if no transition to DONE is in the journal.
pub sealed_says_done :
    (rs more : List JournalRecord) (r : JournalRecord) (key : String)
    → (key == "") ≡ false
    → r.type ≡ "session.sealed"
    → text_of "work_context_id" r.payload ≡ key
    → All (LeavesStage key) more
    → get_handler (some (record { work_context_id = key; task_id = "" })) (ok (rs ++ r ∷ more))
      ≡ ok (record { stage = sealed; events = (project (rs ++ r ∷ more) key).1; says_done = true })
unfolding get_handler project project_from
sealed_says_done rs more r key named is_seal same stays =
    let here : (concerns key r) ≡ true = rw (same, (str_eq_iff key key).1 refl) refl in
    let stage : (project (rs ++ r ∷ more) key).0 ≡ sealed =
      rw (project_from-append rs (r ∷ more) key (created, []), here, is_seal)
        (sealed-stays more key _ stays) in
    rw (named, get_handler, stage) refl
