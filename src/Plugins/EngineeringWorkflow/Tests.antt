-- ===== src/Plugins/EngineeringWorkflow/Tests.antt =====
-- A run in a world that is its journal, where every capability succeeds.
use agent_native_os.Prelude.{
  inr, ℕ, suc, ◌≢◌, ltb, if◌then◌else◌, true, ◌≡◌, ◌↔◌, refl, none, some, List, [], ◌∷◌, ◌++◌,
  arith, text_comparable,
}
use agent_native_os.Prelude.Map.{lookup}
use agent_native_os.Prelude.Result.{ok, err}
use agent_native_os.Plugins.EngineeringWorkflow.Gate.{
  ReviewState, IsAccepted, done_gate, done_gate_iff, check_results,
}
use agent_native_os.Plugins.EngineeringWorkflow.Events.{Event}
use agent_native_os.Plugins.EngineeringWorkflow.Caps.{
  Caps, RunRequest, finished, starved, Run, proceed, checked,
}
use agent_native_os.Plugins.EngineeringWorkflow.Pipeline.{
  in_time, add, agent_step, tool_step, poll, work_steps, review_steps, steps, cleanup, seal_session,
  release, session_sealed_by, released_by, with_workspace, run_pipeline, new_result,
}
use agent_native_os.Plugins.EngineeringWorkflow.Ledger.{logged}
use agent_native_os.Plugins.EngineeringWorkflow.Finish.{IsEarned, finished-IsEarned}
use agent_native_os.Plugins.EngineeringWorkflow.Cleanup.{
  EndsReleased, run-EndsReleased, polled, poll_enough,
}
use agent_native_os.Plugins.EngineeringWorkflow.Progress.{
  JournalRecord, sealed, project, get_handler, sealed_says_done, text_of,
}

abbrev approved : ReviewState
approved = record {
  status = "APPROVED";
  diff_artifact_id = "d1";
  acceptance_results = record { satisfied = true } ∷ [];
}

abbrev kind_world : Caps (List Event)
kind_world = record {
  work_get =
      λ task w. (ok (record { id = task; version = 1; work_context_id = "wc" }, ("wc", 1)), w);
  work_transition = λ wc to version w. (ok 2, w);
  workspace_alloc = λ wc base w. (ok ("ws", "/ws"), w);
  workspace_release = λ id policy w. (ok tt, w);
  agent_run = λ provider wc path prompt file text w. (("a1", ok "COMPLETED"), w);
  collect_diff = λ wc path w. (ok ("d1", 1), w);
  tool_run = λ wc path label argv w. (ok (label, "PASS"), w);
  attach_evidence = λ wc label cap id outcome w. (ok tt, w);
  review_request = λ wc run diff items w. (ok "r1", w);
  review_get = λ review w. (ok approved, w);
  session_seal = λ wc run path w. (ok "s1", w);
  append_event = λ e w. (ok "e", w ++ e ∷ []);
  sleep = λ ms w. w;
  expired = λ w. none;
}

abbrev request : RunRequest
request = record {
  task_id = "t";
  prompt = "go";
  provider = "";
  base_ref = "";
  build_command = "make" ∷ [];
  test_command = "test" ∷ [];
  review_poll_ms = 0;
  mock_agent_write_file = "";
  mock_agent_write_content = "";
}

run_finishes : (run_pipeline (logged kind_world) 1 request ([], [])).0.outcome ≡ finished
unfolding run_pipeline with_workspace cleanup seal_session release session_sealed_by released_by
    steps work_steps review_steps poll tool_step agent_step add proceed checked in_time done_gate
    check_results
run_finishes = refl

finished-IsEarned_example :
    IsEarned request (run_pipeline (logged kind_world) 1 request ([], [])).1.1
finished-IsEarned_example = finished-IsEarned kind_world request 1 [] run_finishes

done_gate_iff_example :
    (done_gate "PASS" "PASS" approved "d1" ≡ none) ↔ IsAccepted "PASS" "PASS" approved "d1"
done_gate_iff_example = done_gate_iff "PASS" "PASS" approved "d1"

abbrev seal_record : JournalRecord
seal_record = record {
  id = "j1";
  type = "session.sealed";
  correlation_id = "";
  payload = ("work_context_id", "wc") ∷ [];
}

names_context : text_of "work_context_id" seal_record.payload ≡ "wc"
unfolding lookup
names_context = refl

-- The release that may follow.
abbrev freed_record : JournalRecord
freed_record = record seal_record { type = "workspace.released" }

sealed_says_done_example :
    get_handler
      (some (record { work_context_id = "wc"; task_id = "" }))
      (ok ([] ++ seal_record ∷ freed_record ∷ []))
    ≡ ok (record {
      stage = sealed;
      events = (project ([] ++ seal_record ∷ freed_record ∷ []) "wc").1;
      says_done = true;
    })
sealed_says_done_example =
    sealed_says_done [] (freed_record ∷ []) seal_record "wc" refl refl names_context (inr refl, tt)

run-EndsReleased_example :
    EndsReleased kind_world request "ws" (run_pipeline kind_world 1 request []).1
run-EndsReleased_example =
    run-EndsReleased kind_world request 1 [] _ "wc" 1 [] [] "ws" "/ws" refl refl

-- A review that stays pending, in a world that counts the polls and has a deadline.
abbrev slow_world : Caps ℕ
slow_world = record {
  work_get = λ task w. (err "none", w);
  work_transition = λ wc to version w. (ok 2, w);
  workspace_alloc = λ wc base w. (err "none", w);
  workspace_release = λ id policy w. (ok tt, w);
  agent_run = λ provider wc path prompt file text w. (("", err "none"), w);
  collect_diff = λ wc path w. (err "none", w);
  tool_run = λ wc path label argv w. (err "none", w);
  attach_evidence = λ wc label cap id outcome w. (ok tt, w);
  review_request = λ wc run diff items w. (ok "r1", w);
  review_get = λ review w. (ok (record approved { status = "PENDING" }), w);
  session_seal = λ wc run path w. (ok "s1", w);
  append_event = λ e w. (ok "e", w);
  sleep = λ ms w. suc w;
  expired = λ w. if ltb w 2 then none else some "deadline";
}

abbrev waiting : Run ℕ
waiting = record { res = new_result slow_world "t"; world = 0 }

expires : slow_world.expired (polled slow_world request "r1" 2 0) ≡ some "deadline"
unfolding polled
expires = refl

poll_enough_example :
    (poll slow_world request "wc" 9 "r1" waiting ≡ poll slow_world request "wc" 3 "r1" waiting)
    × ((poll slow_world request "wc" 3 "r1" waiting).0
        ≢ err (record { fault = starved; reason = "" }))
poll_enough_example =
    poll_enough slow_world request 2 9 "wc" "r1" waiting "deadline" (ground arith) expires
