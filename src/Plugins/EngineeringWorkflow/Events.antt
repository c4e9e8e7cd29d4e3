-- ===== src/Plugins/EngineeringWorkflow/Events.antt =====
-- The events of plugins/engineering-workflow/pipeline.go, as the journal keeps them.
use agent_native_os.Prelude.{ℕ, String}

pub data Payload : Type 0 where
  workspace_allocated : String → String → Payload
  work_transitioned : String → String → Payload
  agent_run_started : Payload
  agent_run_completed : String → String → Payload
  diff_collected : String → ℕ → Payload
  tool_run_completed : String → String → String → Payload
  evidence_attached : String → String → String → Payload
  review_requested : String → String → Payload
  waiting_review : String → Payload
  review_decided : String → String → Payload
  session_sealed : String → Payload
  workspace_released : String → String → Payload
  -- an event that another component has published
  other_event : String → Payload

-- An event's own data, with the two names that `add` puts into each.
pub record Event : Type 0 where
  pub work_context_id : String
  pub task_id : String
  pub payload : Payload
