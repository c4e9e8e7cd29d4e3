-- ===== src/Plugins/EngineeringWorkflow/Story.antt =====
-- What the steps of a run add to its ledger.
use agent_native_os.Prelude.{
  ℕ, zero, suc, String, Bool, true, false, ◌≡◌, sym, ap, ◌∙◌, inl, inr, Option, none, some, List,
  [], ◌∷◌, ◌==◌, text_comparable, Bool-cases, Option-cases, subst, if◌then◌else◌,
}
use agent_native_os.Prelude.Result.{Result}
use agent_native_os.Plugins.EngineeringWorkflow.Gate.{
  ReviewState, IsAccepted, done_gate, done_gate_iff,
}
use agent_native_os.Plugins.EngineeringWorkflow.Events.{
  Payload, agent_run_completed, work_transitioned,
}
use agent_native_os.Plugins.EngineeringWorkflow.Caps.{
  Caps, EvItem, RunRequest, RunResult, Fault, agent_failed, Run, done_with, failing, update,
  ignoring,
}
use agent_native_os.Plugins.EngineeringWorkflow.Pipeline.{
  Work, pass_gate, in_time, add, agent_step, tool_step, poll, work_steps, review_steps,
}
use agent_native_os.Plugins.EngineeringWorkflow.Ledger.{
  Entry, moved, collected, ran, asked, reviewed, IsPartOf, dropped, Book, beside, logged, Ends,
  Keeps, proceed-ok, checked-ok, knowing, telling, passing, call-Ends, noted-world, returning,
}

-- The ledger of the first half of a run, and of the second, the last entry first.
abbrev pub after_work : RunRequest → String → String → ℕ → List Entry → Work → List Entry
after_work req wc path version before d =
    ran wc path "test" req.test_command d.test
    ∷ ran wc path "build" req.build_command d.build
    ∷ collected wc path d.diff
    ∷ moved wc "IN_PROGRESS" version d.version
    ∷ before

abbrev pub evidence : Work → List EvItem
evidence d =
    record { kind = "build"; outcome = d.build.1; evidence_ref_id = d.build.0 }
    ∷ record { kind = "test"; outcome = d.test.1; evidence_ref_id = d.test.0 }
    ∷ []

-- A review was asked for with the work, has approved it, and was answered before the transition.
pub record IsReviewed (wc : String) (d : Work) (before l : List Entry) : Type 0 where
  pub review : String
  pub state : ReviewState
  pub ready : ℕ
  pub next : ℕ
  pub accepted : IsAccepted d.build.1 d.test.1 state d.diff
  pub told :
      IsPartOf
        (moved wc "DONE" ready next
          ∷ reviewed review state
          ∷ asked wc d.agent d.diff (evidence d) review
          ∷ moved wc "IN_REVIEW" d.version ready
          ∷ before)
        l

module _ {W : Type 0} (c : Caps W) (req : RunRequest) (wc : String) where
  pub add-ledger :
      (p : Payload) (r : Run (Book W)) → (add (logged c) req wc p r).1.world.1 ≡ r.world.1
  unfolding add
  add-ledger p r = ap (λ b. b.1) (noted-world r.res _)

  pub add-Keeps : (p : Payload) → Keeps (add (logged c) req wc p)
  add-Keeps p xs = record {
    holds = λ r a known e. subst (IsPartOf xs) (sym (add-ledger p r)) known;
  }

  update-Keeps : (f : RunResult → RunResult) → Keeps {W = W} (update f)
  update-Keeps f xs = record { holds = λ r a known e. known }

  ignoring-Keeps : (f : W → Result String (Unit {0}) × W) → Keeps (ignoring (beside f))
  ignoring-Keeps f xs = record { holds = λ r a known e. known }

  in_time-Keeps : (o : Option String) → Keeps {W = W} (in_time o)
  unfolding in_time
  in_time-Keeps none xs = record { holds = λ r a known e. known }
  in_time-Keeps (some text) xs = record { holds = λ r a known e. cc }

  check-Keeps : Keeps (λ r. in_time ((logged c).expired r.world) r)
  check-Keeps xs = record {
    holds = λ r a known e. (in_time-Keeps (c.expired r.world.0) xs).holds r a known e;
  }

  choice-Keeps :
      (b : Bool) (id reason : String)
      → Keeps {W = W} (if b then done_with id else failing agent_failed reason)
  choice-Keeps true id reason xs = record { holds = λ r a known e. known }
  choice-Keeps false id reason xs = record { holds = λ r a known e. cc }

  agent_step-Keeps : (path : String) → Keeps (agent_step (logged c) req wc path)
  unfolding agent_step
  agent_step-Keeps path xs = record {
    holds = λ r a known e.
        let (status, now, runs) = proceed-ok _ _ e in
        let (_, world) = checked-ok _ _ _ _ now in
        let rest =
          passing (λ _ l. IsPartOf xs l) xs _ _ (add-Keeps (agent_run_completed _ status))
            (λ _. choice-Keeps (status == "COMPLETED") _ _ xs) in
        subst (λ o. IsPartOf xs o.1.world.1) (sym runs)
          (rest.holds _ a (subst (λ b. IsPartOf xs b.1) (sym world) known)
            (sym (ap (λ o. o.0) runs) ∙ e));
  }

  tool_step-Ends :
      (xs : List Entry) (fault : Fault) (store : String → RunResult → RunResult) (label : String)
      (argv : List String) (path : String)
      → Ends xs
          (tool_step (logged c) req wc fault store label argv path)
          (λ p l. IsPartOf (ran wc path label argv p ∷ xs) l)
  unfolding tool_step
  tool_step-Ends xs fault store label argv path =
      telling _ xs (ran wc path label argv) _ _ (call-Ends _ _ _ _ _) (λ p.
        passing _ _ _ _ (update-Keeps _) (λ _. passing _ _ _ _ (add-Keeps _) (λ _.
          passing _ _ _ _ (ignoring-Keeps (c.attach_evidence wc label "tool.run@1" p.0 p.1)) (λ _.
            passing _ _ _ _ (add-Keeps _) (λ _.
              returning (λ p' l. IsPartOf (ran wc path label argv p' ∷ xs) l) _ p (λ l h. h))))))

  poll-Ends :
      (xs : List Entry) (fuel : ℕ) (review : String)
      → Ends xs (poll (logged c) req wc fuel review) (λ rs l. IsPartOf (reviewed review rs ∷ xs) l)
  unfolding poll
  poll-Ends xs zero review = record { holds = λ r rs known e. cc }
  poll-Ends xs (suc n) review = passing _ _ _ _ check-Keeps (λ _.
      telling _ xs (reviewed review) _ _ (call-Ends _ _ _ _ _) (λ rs.
        elim (Bool-cases (rs.status == "PENDING")) [
          | inl pending ↦ rw pending (record {
            holds = λ r a known e. (poll-Ends xs n review).holds _ a (dropped known) e;
          })
          | inr decided ↦
              rw decided
                (returning (λ rs' l. IsPartOf (reviewed review rs' ∷ xs) l) _ rs (λ l h. h))
        ]))

  pub work_steps-Ends :
      (xs : List Entry) (path : String) (version : ℕ)
      → Ends xs
          (work_steps (logged c) req wc path version)
          (λ d l. IsPartOf (after_work req wc path version xs d) l)
  unfolding work_steps
  work_steps-Ends xs path version =
      telling _ xs (moved wc "IN_PROGRESS" version) _ _ (call-Ends _ _ _ _ _) (λ version'.
        passing _ _ _ _ (add-Keeps _) (λ _. passing _ _ _ _ check-Keeps (λ _.
          passing _ _ _ _ (add-Keeps _) (λ _. passing _ _ _ _ (agent_step-Keeps path) (λ agent.
            telling _ _ (λ diff. collected wc path diff.0) _ _ (call-Ends _ _ _ _ _)
              (λ diff. passing _ _ _ _ (update-Keeps _) (λ _. passing _ _ _ _ (add-Keeps _) (λ _.
                telling _ _ (ran wc path "build" req.build_command) _ _ (tool_step-Ends _ _ _ _ _ _)
                  (λ build.
                    telling _ _ (ran wc path "test" req.test_command) _ _
                      (tool_step-Ends _ _ _ _ _ _)
                      (λ test.
                        returning (λ d l. IsPartOf (after_work req wc path version xs d) l) _ _
                          (λ l h. h)))))))))))

  gate-Ends :
      (xs : List Entry) (build test : String) (rs : ReviewState) (diff : String)
      → Ends {W = W} xs
          (pass_gate (done_gate build test rs diff))
          (λ _ l. IsAccepted build test rs diff × IsPartOf xs l)
  gate-Ends xs build test rs diff = record {
    holds = λ r a known e. elim (Option-cases (done_gate build test rs diff)) [
      | inl passed ↦ ((done_gate_iff build test rs diff).0 passed, rw passed known)
      | inr (why, stopped) ↦ absurd (cc (rw stopped at e))
    ];
  }

  finishing :
      (xs : List Entry) (d : Work) (review : String) (state : ReviewState) (ready next : ℕ)
      → IsAccepted d.build.1 d.test.1 state d.diff
      → Ends
          (moved wc "DONE" ready next
            ∷ reviewed review state
            ∷ asked wc d.agent d.diff (evidence d) review
            ∷ moved wc "IN_REVIEW" d.version ready
            ∷ xs)
          (add (logged c) req wc (work_transitioned "IN_REVIEW" "DONE"))
          (λ _ l. IsReviewed wc d xs l)
  finishing xs d review state ready next accepted = record {
    holds = λ r a known e. record {
      review = review;
      state = state;
      ready = ready;
      next = next;
      accepted = accepted;
      told = (add-Keeps (work_transitioned "IN_REVIEW" "DONE") _).holds r a known e;
    };
  }

  pub review_steps-Ends :
      (xs : List Entry) (fuel : ℕ) (d : Work)
      → Ends xs (review_steps (logged c) req wc fuel d) (λ _ l. IsReviewed wc d xs l)
  unfolding review_steps
  review_steps-Ends xs fuel d =
      telling _ xs (moved wc "IN_REVIEW" d.version) _ _ (call-Ends _ _ _ _ _) (λ ready.
        passing _ _ _ _ (add-Keeps _) (λ _.
          telling _ _ (asked wc d.agent d.diff (evidence d)) _ _ (call-Ends _ _ _ _ _) (λ review.
            passing _ _ _ _ (update-Keeps _) (λ _. passing _ _ _ _ (add-Keeps _) (λ _.
              passing _ _ _ _ (add-Keeps _) (λ _.
                telling _ _ (reviewed review) _ _ (poll-Ends _ fuel review) (λ state.
                  passing _ _ _ _ (add-Keeps _) (λ _.
                    knowing _ (λ _. IsAccepted d.build.1 d.test.1 state d.diff) _ _ _ _
                      (gate-Ends _ _ _ state d.diff)
                      (λ _ accepted.
                        telling _ _ (moved wc "DONE" ready) _ _ (call-Ends _ _ _ _ _)
                          (λ next. finishing xs d review state ready next accepted))))))))))
