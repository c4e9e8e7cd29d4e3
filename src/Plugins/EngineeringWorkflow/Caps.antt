-- ===== src/Plugins/EngineeringWorkflow/Caps.antt =====
-- plugins/engineering-workflow/pipeline.go: the types of a run, and steps that may fail.
use agent_native_os.Prelude.{
  ℕ, String, Option, List, [], ◌∷◌, ◌++◌, ◌==◌, text_comparable, if◌then◌else◌,
}
use agent_native_os.Prelude.Result.{Result, ok, err}
use agent_native_os.Plugins.EngineeringWorkflow.Gate.{ReviewState}
use agent_native_os.Plugins.EngineeringWorkflow.Events.{Event}

-- The evidence that goes to the reviewer.
pub record EvItem : Type 0 where
  pub kind : String
  pub outcome : String
  pub evidence_ref_id : String

pub record Task : Type 0 where
  pub id : String
  pub version : ℕ
  pub work_context_id : String

-- `expired` is ctx.Err(). The clock that stamps events is not read by the pipeline itself.
pub record Caps (W : Type 0) : Type 0 where
  pub work_get : String → W → Result String (Task × (String × ℕ)) × W
  pub work_transition : String → String → ℕ → W → Result String ℕ × W
  pub workspace_alloc : String → String → W → Result String (String × String) × W
  pub workspace_release : String → String → W → Result String (Unit {0}) × W
  pub agent_run :
      String → String → String → String → String → String → W → (String × Result String String) × W
  pub collect_diff : String → String → W → Result String (String × ℕ) × W
  pub tool_run : String → String → String → List String → W → Result String (String × String) × W
  pub attach_evidence :
      String → String → String → String → String → W → Result String (Unit {0}) × W
  pub review_request : String → String → String → List EvItem → W → Result String String × W
  pub review_get : String → W → Result String ReviewState × W
  pub session_seal : String → String → String → W → Result String String × W
  pub append_event : Event → W → Result String String × W
  pub sleep : ℕ → W → W
  pub expired : W → Option String

pub record RunRequest : Type 0 where
  pub task_id : String
  pub prompt : String
  pub provider : String
  pub base_ref : String
  pub build_command : List String
  pub test_command : List String
  pub review_poll_ms : ℕ
  pub mock_agent_write_file : String
  pub mock_agent_write_content : String

-- What fail is called with; `starved` is the model's: the poll has used its fuel.
pub data Fault : Type 0 where
  gate_failed timeout agent_failed build_failed test_failed starved : Fault

-- `unset` is the empty text of a new result.
pub data Outcome : Type 0 where
  unset finished : Outcome
  failed : Fault → Outcome

pub record RunResult : Type 0 where
  pub work_context_id : String
  pub task_id : String
  pub outcome : Outcome
  pub reason : String
  pub agent_run_id : String
  pub diff_artifact_id : String
  pub build_tool_run_id : String
  pub test_tool_run_id : String
  pub review_id : String
  pub session_id : String
  pub event_ids : List String

-- The variables of a run.
pub record Run (W : Type 0) : Type 0 where
  pub res : RunResult
  pub world : W

-- What a step that fails gives to `fail`.
pub record Failure : Type 0 where
  pub fault : Fault
  pub reason : String

abbrev pub Step : Type 0 → Type 0 → Type 0
Step W A = Run W → Result Failure A × Run W

unfoldable pub proceed :
    {W A B : Type 0} → Result Failure A × Run W → (A → Step W B) → Result Failure B × Run W
proceed (ok a, r) f = f a r
proceed (err e, r) f = (err e, r)

infixl 5 ◌>>=◌ ◌>>◌
abbrev pub ◌>>=◌ : {W A B : Type 0} → Step W A → (A → Step W B) → Step W B
m >>= f = λ r. proceed (m r) f

abbrev pub ◌>>◌ : {W B : Type 0} → Step W (Unit {0}) → Step W B → Step W B
m >> k = m >>= λ _. k

abbrev pub done_with : {W A : Type 0} → A → Step W A
done_with a r = (ok a, r)

abbrev pub failing : {W A : Type 0} → Fault → String → Step W A
failing fault reason r = (err (record { fault = fault; reason = reason }), r)

abbrev pub update : {W : Type 0} → (RunResult → RunResult) → Step W (Unit {0})
update f r = (ok tt, record r { res = f r.res })

-- The answer of a capability, where an error fails the run with a reason made of its text.
unfoldable pub checked :
    {W A : Type 0}
    → Fault
    → (String → String)
    → Result String A × W
    → RunResult
    → Result Failure A × Run W
checked fault text (ok a, w) res = (ok a, record { res = res; world = w })
checked fault text (err e, w) res =
    (err (record { fault = fault; reason = text e }), record { res = res; world = w })

abbrev pub call : {W A : Type 0} → Fault → (String → String) → (W → Result String A × W) → Step W A
call fault text f r = checked fault text (f r.world) r.res

abbrev pub ignoring : {W A : Type 0} → (W → Result String A × W) → Step W (Unit {0})
ignoring f r = (ok tt, record r { world = (f r.world).1 })

abbrev pub noted : {W : Type 0} → RunResult → Result String String × W → Run W
noted res (ok id, w) = record {
  res = if id == "" then res else record res { event_ids = res.event_ids ++ id ∷ [] };
  world = w;
}
noted res (err e, w) = record { res = res; world = w }
