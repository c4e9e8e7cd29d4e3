-- ===== src/Plugins/EngineeringWorkflow/Cleanup.antt =====
-- The end of a run: it comes, and it releases the workspace.
use agent_native_os.Prelude.{
  ℕ, zero, suc, ◌<◌, String, ◌≡◌, ◌≢◌, refl, inl, inr, ◌⊎◌, some, ◌==◌, text_comparable,
  if◌then◌else◌, Bool-cases, Option-cases, arith,
}
use agent_native_os.Prelude.Int64.{sle}
use agent_native_os.Prelude.Result.{Result, ok, err}
use agent_native_os.Plugins.EngineeringWorkflow.Events.{Event}
use agent_native_os.Plugins.EngineeringWorkflow.Caps.{
  Task, Caps, RunRequest, RunResult, starved, Run, Failure, proceed, checked, noted,
}
use agent_native_os.Plugins.EngineeringWorkflow.Pipeline.{
  in_time, add, poll, seal_session, released_by, release, cleanup, conclude, with_workspace,
  for_task, run_pipeline,
}

answer-cases :
    {E A W : Type 0} (o : Result E A × W)
    → ((a : A) × (w : W) × (o ≡ (ok a, w))) ⊎ ((e : E) × (w : W) × (o ≡ (err e, w)))
answer-cases (ok a, w) = inl (a, w, refl)
answer-cases (err e, w) = inr (e, w, refl)

module _ {W : Type 0} (c : Caps W) (req : RunRequest) where
  -- A run ends with the release of the workspace, and after it at most one event.
  abbrev pub EndsReleased : String → W → Type 0
  EndsReleased id final =
      (w : W) × (let (_, w') = c.workspace_release id "preserve" w in
        (final ≡ w') ⊎ ((e : Event) × (final ≡ (c.append_event e w').1)))

  noted-world : (res : RunResult) (o : Result String String × W) → (noted res o).world ≡ o.1
  noted-world res (ok id, w) = refl
  noted-world res (err e, w) = refl

  released_by-world :
      (wc id : String) (o : Result String (Unit {0}) × W) (r : Run W)
      → ((released_by c req wc id o r).world ≡ o.1)
        ⊎ ((e : Event) × ((released_by c req wc id o r).world ≡ (c.append_event e o.1).1))
  unfolding released_by add
  released_by-world wc id (ok _, w) r = inr (_, noted-world r.res _)
  released_by-world wc id (err e, w) r = inl refl

  cleanup-EndsReleased :
      (wc id path : String) (r : Run W) → EndsReleased id (cleanup c req wc id path r).world
  unfolding cleanup release
  cleanup-EndsReleased wc id path r =
      let r' = seal_session c req wc path r in
      (r'.world, released_by-world wc id (c.workspace_release id "preserve" r'.world) r')

  conclude-EndsReleased :
      (wc id path : String) (o : Result Failure (Unit {0}) × Run W)
      → EndsReleased id (conclude c req wc id path o).1
  conclude-EndsReleased wc id path (ok tt, r) = cleanup-EndsReleased wc id path r
  conclude-EndsReleased wc id path (err e, r) = cleanup-EndsReleased wc id path r

  -- Whatever the other capabilities do and however the run ends, once a workspace is allocated for
  -- the task, the run's last capability is the release of this workspace with the policy preserve,
  -- and after it comes at most one event of the journal.
  pub run-EndsReleased :
      (fuel : ℕ) (w : W) (task : Task) (wc : String) (version : ℕ) (w1 w2 : W) (id path : String)
      → c.work_get req.task_id w ≡ (ok (task, (wc, version)), w1)
      → c.workspace_alloc wc req.base_ref w1 ≡ (ok (id, path), w2)
      → EndsReleased id (run_pipeline c fuel req w).1
  unfolding run_pipeline with_workspace
  run-EndsReleased fuel w task wc version w1 w2 id path found allocated =
      rw (found, run_pipeline, for_task, allocated, with_workspace)
        (conclude-EndsReleased wc id path _)

  -- The world after a number of polls that have found the review pending.
  unfoldable pub polled : String → ℕ → W → W
  polled review zero w = w
  polled review (suc n) w = polled review n (
      c.sleep (if sle req.review_poll_ms 0 then 500 else req.review_poll_ms)
        (c.review_get review w).1)

  -- If the deadline has passed after a number of polls, the loop ends within this number and one
  -- more: every fuel above the number gives one result, which is not that the fuel is used up.
  pub poll_enough :
      (n fuel : ℕ) (wc review : String) (r : Run W) (e : String)
      → n < fuel
      → c.expired (polled review n r.world) ≡ some e
      → (poll c req wc fuel review r ≡ poll c req wc (suc n) review r)
        × ((poll c req wc (suc n) review r).0 ≢ err (record { fault = starved; reason = "" }))
  unfolding poll polled proceed checked in_time
  poll_enough n zero wc review r e room late = absurd (ground arith)
  poll_enough zero (suc f) wc review r e room late =
      let now : c.expired r.world ≡ some e = late in (rw (now, poll), λ q. cc (rw (now, poll) at q))
  poll_enough (suc m) (suc f) wc review r e room late = elim (Option-cases (c.expired r.world)) [
    | inr (x, early) ↦ (rw (early, poll), λ q. cc (rw (early, poll) at q))
    | inl timely ↦ elim (answer-cases (c.review_get review r.world)) [
      | inr (x, w, got) ↦ (rw (timely, got, poll), λ q. cc (rw (timely, got, poll) at q))
      | inl (rs, w, got) ↦ elim (Bool-cases (rs.status == "PENDING")) [
        | inr final ↦ (rw (timely, got, final, poll), λ q. cc (rw (timely, got, final, poll) at q))
        | inl pending ↦
            let next : Run W = record r {
              world = c.sleep (if sle req.review_poll_ms 0 then 500 else req.review_poll_ms) w;
            } in
            let later : c.expired (polled review m next.world) ≡ some e = rw got at late in
            let (same, fuelled) = poll_enough m f wc review next e (ground arith) later in
            (
              rw (timely, got, pending, poll) same,
              λ q. fuelled (rw (timely, got, pending, poll) at q),
            )
      ]
    ]
  ]
