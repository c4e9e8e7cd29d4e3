-- ===== src/Plugins/EngineeringWorkflow/Finish.antt =====
-- What a run that ends as DONE has been through.
use agent_native_os.Prelude.{
  ℕ, String, ◌≡◌, refl, sym, ◌∙◌, inl, inr, List, [], ◌∷◌, ◌==◌, text_comparable, Bool-cases, subst,
}
use agent_native_os.Prelude.Result.{Result, ok, err}
use agent_native_os.Plugins.EngineeringWorkflow.Events.{
  workspace_allocated, session_sealed, workspace_released,
}
use agent_native_os.Plugins.EngineeringWorkflow.Caps.{
  Task, Caps, RunRequest, RunResult, finished, Run, Failure, ◌>>=◌,
}
use agent_native_os.Plugins.EngineeringWorkflow.Pipeline.{
  Work, add, steps, session_sealed_by, seal_session, released_by, release, cleanup, conclude,
  with_workspace, for_task, run_pipeline,
}
use agent_native_os.Plugins.EngineeringWorkflow.Ledger.{
  Entry, got, placed, nothing, taken, Book, entered, logged, Ends, knowing, passing,
}
use agent_native_os.Plugins.EngineeringWorkflow.Story.{
  after_work, IsReviewed, add-ledger, add-Keeps, work_steps-Ends, review_steps-Ends,
}

-- What a run that ends as DONE has been told, in this order: the task's context, a workspace for it,
-- the work that is done in this workspace, and the review of this work.
pub record IsEarned (req : RunRequest) (l : List Entry) : Type 0 where
  pub wc : String
  pub version : ℕ
  pub id : String
  pub path : String
  pub work : Work
  pub done :
      IsReviewed wc work
        (after_work req wc path version
          (placed wc req.base_ref id path ∷ got req.task_id wc version ∷ [])
          work)
        l

module _ {W : Type 0} (c : Caps W) (req : RunRequest) where
  steps-Ends :
      (wc : String) (xs : List Entry) (fuel : ℕ) (path : String) (version : ℕ)
      → Ends xs
          (steps (logged c) req wc fuel path version)
          (λ _ l. (d : Work) × IsReviewed wc d (after_work req wc path version xs d) l)
  unfolding steps
  steps-Ends wc xs fuel path version =
      knowing _ (λ _. Unit {0}) xs (after_work req wc path version xs) _ _
        (record {
          holds = λ r d known e. (tt, (work_steps-Ends c req wc xs path version).holds r d known e);
        })
        (λ d _. record {
          holds = λ r a known e. (
            d,
            (review_steps-Ends c req wc (after_work req wc path version xs d) fuel d).holds r a
                known e,
          );
        })

  -- The cleanup adds nothing to the ledger.
  session_sealed_by-ledger :
      (wc : String) (o : Result String String × Book W) (r : Run (Book W))
      → (session_sealed_by (logged c) req wc o r).world.1 ≡ o.1.1
  unfolding session_sealed_by
  session_sealed_by-ledger wc (ok sid, w) r = add-ledger c req wc (session_sealed sid) _
  session_sealed_by-ledger wc (err e, w) r = refl

  seal_session-ledger :
      (wc path : String) (r : Run (Book W))
      → (seal_session (logged c) req wc path r).world.1 ≡ r.world.1
  unfolding seal_session
  seal_session-ledger wc path r = elim (Bool-cases (r.res.agent_run_id == "")) [
    | inl no_agent ↦ rw no_agent refl
    | inr agent ↦ rw agent (session_sealed_by-ledger wc _ r)
  ]

  released_by-ledger :
      (wc id : String) (o : Result String (Unit {0}) × Book W) (r : Run (Book W))
      → (released_by (logged c) req wc id o r).world.1 ≡ o.1.1
  unfolding released_by
  released_by-ledger wc id (ok tt, w) r = add-ledger c req wc (workspace_released id "preserve") _
  released_by-ledger wc id (err e, w) r = refl

  cleanup-ledger :
      (wc id path : String) (r : Run (Book W))
      → (cleanup (logged c) req wc id path r).world.1 ≡ r.world.1
  unfolding cleanup release
  cleanup-ledger wc id path r =
      released_by-ledger wc id _ (seal_session (logged c) req wc path r)
      ∙ seal_session-ledger wc path r

  conclude-ok :
      (wc id path : String) (o : Result Failure (Unit {0}) × Run (Book W))
      → (conclude (logged c) req wc id path o).0.outcome ≡ finished
      → (o.0 ≡ ok tt) × ((conclude (logged c) req wc id path o).1.1 ≡ o.1.world.1)
  conclude-ok wc id path (ok tt, r) e = (refl, cleanup-ledger wc id path r)
  conclude-ok wc id path (err x, r) e = cc

  with_workspace-IsEarned :
      (wc : String) (fuel version : ℕ) (res : RunResult) (o : Result String (String × String) × W)
      → let placed_there =
          entered (λ a. placed wc req.base_ref a.0 a.1) o (got req.task_id wc version ∷ []) in
        (with_workspace (logged c) req wc fuel version res placed_there).0.outcome ≡ finished
        → IsEarned req (with_workspace (logged c) req wc fuel version res placed_there).1.1
  unfolding with_workspace
  with_workspace-IsEarned wc fuel version res (err x, w) e = cc
  with_workspace-IsEarned wc fuel version res (ok (id, path), w) e =
      let before = placed wc req.base_ref id path ∷ got req.task_id wc version ∷ [] in
      let start : Run (Book W) = record { res = res; world = (w, before) } in
      let body = add (logged c) req wc (workspace_allocated id path) >>= λ _.
      steps (logged c) req wc fuel path version in
      let whole =
        passing _ before (add (logged c) req wc (workspace_allocated id path)) _
          (add-Keeps c req wc (workspace_allocated id path))
          (λ _. steps-Ends wc before fuel path version) in
      let (ended, ledger) = conclude-ok wc id path (body start) e in
      let (d, reviewed_work) = whole.holds start tt (taken (taken nothing)) ended in
      record {
        wc = wc;
        version = version;
        id = id;
        path = path;
        work = d;
        done =
            subst (IsReviewed wc d (after_work req wc path version before d)) (sym ledger)
              reviewed_work;
      }

  for_task-IsEarned :
      (fuel : ℕ) (o : Result String (Task × (String × ℕ)) × W)
      → let found = entered (λ a. got req.task_id a.1.0 a.1.1) o [] in
        (for_task (logged c) fuel req found).0.outcome ≡ finished
        → IsEarned req (for_task (logged c) fuel req found).1.1
  for_task-IsEarned fuel (err x, w) e = cc
  for_task-IsEarned fuel (ok (task, (wc, version)), w) e =
      with_workspace-IsEarned wc fuel version _ (c.workspace_alloc wc req.base_ref w) e

  -- Let each capability of a run that answers without an error enter what it was asked and has answered
  -- in a ledger, which is empty at the start. If the outcome of the run is DONE, its ledger holds, in
  -- this order: the context that the request's task has; the allocation of a workspace for it; the
  -- transition to IN_PROGRESS; the diff that was collected in this workspace; the runs there of the
  -- request's build command and of its test command; the transition to IN_REVIEW; the request of a
  -- review of this diff with the outcomes of these two runs; an answer about this very review; and
  -- the transition to DONE from the version that the one to IN_REVIEW gave. Both runs have the
  -- outcome PASS, and that answer approves this diff on at least one criterion and on all of them.
  pub finished-IsEarned :
      (fuel : ℕ) (w : W)
      → (run_pipeline (logged c) fuel req (w, [])).0.outcome ≡ finished
      → IsEarned req (run_pipeline (logged c) fuel req (w, [])).1.1
  unfolding run_pipeline
  finished-IsEarned fuel w e = for_task-IsEarned fuel (c.work_get req.task_id w) e
