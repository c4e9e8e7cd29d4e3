-- ===== src/Plugins/EngineeringWorkflow/Pipeline.antt =====
-- plugins/engineering-workflow/pipeline.go. The capabilities of other plugins are parameters, each a
-- step of a world that holds them all. Every early return behind the allocation calls cleanup and
-- then fail, so the steps between are a computation that may fail, with the cleanup after it.
use Prim.Native.String
use agent_native_os.Prelude.{
  ℕ, zero, suc, String, Option, none, some, List, [], ◌∷◌, ◌==◌, text_comparable, if◌then◌else◌,
}
use agent_native_os.Prelude.Int64.{sle}
use agent_native_os.Prelude.Result.{Result, ok, err}
use agent_native_os.Plugins.EngineeringWorkflow.Gate.{ReviewState, Refusal, refusal_text, done_gate}
use agent_native_os.Plugins.EngineeringWorkflow.Caps.{
  Task, Caps, RunRequest, Fault, failed, RunResult, Run, Failure, Step, proceed, ◌>>=◌, ◌>>◌,
  done_with, failing, update, checked, call, ignoring, noted, gate_failed, timeout, agent_failed,
  build_failed, test_failed, finished, starved, unset,
}
use agent_native_os.Plugins.EngineeringWorkflow.Events.{
  Payload, workspace_allocated, work_transitioned, agent_run_started, agent_run_completed,
  diff_collected, tool_run_completed, evidence_attached, review_requested, waiting_review,
  review_decided, session_sealed, workspace_released,
}

abbrev prefixed : String → String → String
prefixed s e = String.◌++◌ s e

abbrev as_is : String → String
as_is e = e

abbrev provider_or_mock : String → String
provider_or_mock p = if p == "" then "mock" else p

-- The variables that the first half of a run leaves for the second.
pub record Work : Type 0 where
  pub agent : String
  pub diff : String
  pub build : String × String
  pub test : String × String
  pub version : ℕ

abbrev pub pass_gate : {W : Type 0} → Option Refusal → Step W (Unit {0})
pass_gate none = done_with tt
pass_gate (some why) = failing gate_failed (refusal_text why)

unfoldable pub in_time : {W : Type 0} → Option String → Step W (Unit {0})
in_time none = done_with tt
in_time (some e) = failing timeout e

module _ {W : Type 0} (c : Caps W) where
  -- ctx.Err()
  abbrev check_time : Step W (Unit {0})
  check_time r = in_time (c.expired r.world) r

  module _ (req : RunRequest) (wc : String) where
    -- add
    unfoldable pub add : Payload → Step W (Unit {0})
    add p r = (
      ok tt,
      noted r.res (
          c.append_event (record { work_context_id = wc; task_id = req.task_id; payload = p })
            r.world),
    )

    unfoldable pub agent_step : String → Step W String
    unfolding add
    agent_step path r =
        let (answer, w) =
          c.agent_run (provider_or_mock req.provider) wc path req.prompt req.mock_agent_write_file
            req.mock_agent_write_content r.world in
        proceed
          (checked agent_failed as_is (answer.1, w) (record r.res { agent_run_id = answer.0 }))
          (λ status.
            add (agent_run_completed answer.0 status)
            >> (if status == "COMPLETED"
                then done_with answer.0
                else failing agent_failed (prefixed "agent status " status)))

    unfoldable pub tool_step :
        Fault
        → (String → RunResult → RunResult)
        → String
        → List String
        → String
        → Step W (String × String)
    unfolding add
    tool_step on_error store label argv path = do
      p ← call on_error as_is (c.tool_run wc path label argv)
      update (store p.0)
      add (tool_run_completed p.0 label p.1)
      ignoring (c.attach_evidence wc label "tool.run@1" p.0 p.1)
      add (evidence_attached label p.0 p.1)
      done_with p

    -- The loop that waits for the reviewer.
    unfoldable pub poll : ℕ → String → Step W ReviewState
    poll zero review = failing starved ""
    poll (suc n) review = do
      check_time
      rs ← call gate_failed (prefixed "review: ") (c.review_get review)
      if rs.status == "PENDING"
          then (λ r. poll n review (record r {
            world = c.sleep (if sle req.review_poll_ms 0 then 500 else req.review_poll_ms) r.world;
          }))
          else done_with rs

    -- What is done between the workspace's allocation and the cleanup, in two parts: the work,
    -- which gives the agent's run, the diff and the outcomes of the build and the test,
    unfoldable pub work_steps : String → ℕ → Step W Work
    unfolding agent_step tool_step add
    work_steps path version = do
      version' ←
          call gate_failed (prefixed "transition IN_PROGRESS: ")
            (c.work_transition wc "IN_PROGRESS" version)
      add (work_transitioned "PLANNED" "IN_PROGRESS")
      check_time
      add agent_run_started
      agent ← agent_step path
      diff ← call gate_failed (prefixed "diff: ") (c.collect_diff wc path)
      update (λ res. record res { diff_artifact_id = diff.0 })
      add (diff_collected diff.0 diff.1)
      build ←
          tool_step build_failed (λ id res. record res { build_tool_run_id = id }) "build"
            req.build_command path
      test ←
          tool_step test_failed (λ id res. record res { test_tool_run_id = id }) "test"
            req.test_command path
      done_with
          (record { agent = agent; diff = diff.0; build = build; test = test; version = version' })

    -- and the review, the gate and the last transition.
    unfoldable pub review_steps : ℕ → Work → Step W (Unit {0})
    unfolding poll add
    review_steps fuel d = do
      version' ← call gate_failed as_is (c.work_transition wc "IN_REVIEW" d.version)
      add (work_transitioned "IN_PROGRESS" "IN_REVIEW")
      review ← call gate_failed as_is (
          c.review_request wc d.agent d.diff (
            record { kind = "build"; outcome = d.build.1; evidence_ref_id = d.build.0 }
            ∷ record { kind = "test"; outcome = d.test.1; evidence_ref_id = d.test.0 }
            ∷ []))
      update (λ res. record res { review_id = review })
      add (review_requested review d.diff)
      add (waiting_review review)
      rs ← poll fuel review
      add (review_decided review rs.status)
      pass_gate (done_gate d.build.1 d.test.1 rs d.diff)
      _ ← call gate_failed (prefixed "DONE transition: ") (c.work_transition wc "DONE" version')
      add (work_transitioned "IN_REVIEW" "DONE")

    unfoldable pub steps : ℕ → String → ℕ → Step W (Unit {0})
    unfolding work_steps review_steps
    steps fuel path version = work_steps path version >>= review_steps fuel

    -- cleanup
    unfoldable pub session_sealed_by : Result String String × W → Run W → Run W
    unfolding add
    session_sealed_by (ok sid, w) r =
        (add (session_sealed sid) (record { res = record r.res { session_id = sid }; world = w })).1
    session_sealed_by (err e, w) r = record r { world = w }

    unfoldable pub seal_session : String → Run W → Run W
    unfolding session_sealed_by
    seal_session path r =
        if r.res.agent_run_id == ""
        then r
        else session_sealed_by (c.session_seal wc r.res.agent_run_id path r.world) r

    unfoldable pub released_by : String → Result String (Unit {0}) × W → Run W → Run W
    unfolding add
    released_by id (ok _, w) r = (add (workspace_released id "preserve") (record r { world = w })).1
    released_by id (err e, w) r = record r { world = w }

    unfoldable pub release : String → Run W → Run W
    unfolding released_by
    release id r = released_by id (c.workspace_release id "preserve" r.world) r

    unfoldable pub cleanup : String → String → Run W → Run W
    unfolding seal_session release
    cleanup id path r = release id (seal_session path r)

    -- The end of a run: the cleanup, and then the outcome.
    abbrev pub conclude : String → String → Result Failure (Unit {0}) × Run W → RunResult × W
    conclude id path (ok _, r) =
        let r' = cleanup id path r in (record r'.res { outcome = finished; reason = "" }, r'.world)
    conclude id path (err e, r) =
        let r' = cleanup id path r in
        (record r'.res { outcome = failed e.fault; reason = e.reason }, r'.world)

    unfoldable pub with_workspace :
        ℕ → ℕ → RunResult → Result String (String × String) × W → RunResult × W
    unfolding add steps cleanup
    with_workspace fuel version res (err e, w) =
        (record res { outcome = failed gate_failed; reason = prefixed "workspace allocate: " e }, w)
    with_workspace fuel version res (ok (id, path), w) = conclude id path (
        (add (workspace_allocated id path) >> steps fuel path version)
          (record { res = res; world = w }))

  abbrev pub new_result : String → RunResult
  new_result task_id = record {
    work_context_id = "";
    task_id = task_id;
    outcome = unset;
    reason = "";
    agent_run_id = "";
    diff_artifact_id = "";
    build_tool_run_id = "";
    test_tool_run_id = "";
    review_id = "";
    session_id = "";
    event_ids = [];
  }

  abbrev pub for_task : ℕ → RunRequest → Result String (Task × (String × ℕ)) × W → RunResult × W
  for_task fuel req (err e, w) = (
    record (new_result req.task_id) { outcome = failed gate_failed; reason = "task not found" },
    w,
  )
  for_task fuel req (ok (task, (wc, version)), w) =
      with_workspace req wc fuel version (record (new_result req.task_id) { work_context_id = wc })
        (c.workspace_alloc wc req.base_ref w)

  -- runPipeline. The fuel bounds the polls of the review.
  unfoldable pub run_pipeline : ℕ → RunRequest → W → RunResult × W
  unfolding with_workspace
  run_pipeline fuel req w = for_task fuel req (c.work_get req.task_id w)
