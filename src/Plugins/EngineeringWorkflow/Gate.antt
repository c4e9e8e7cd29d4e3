-- ===== src/Plugins/EngineeringWorkflow/Gate.antt =====
-- plugins/engineering-workflow/gate.go: when a task may be called done.
use Prim.Native.String
use agent_native_os.Prelude.{
  String, Bool, true, not, ◌≡◌, ◌≢◌, ◌↔◌, refl, List, [], ◌∷◌, arith, ◌==◌, text_comparable,
  str_eq_iff, if◌then◌else◌, is_empty, All, Option, none, some,
}

pub record AcceptanceResult : Type 0 where
  pub satisfied : Bool

pub record ReviewState : Type 0 where
  pub status : String
  pub diff_artifact_id : String
  pub acceptance_results : List AcceptanceResult

-- The reasons that doneGate gives.
pub data Refusal : Type 0 where
  build_outcome test_outcome review_status : String → Refusal
  other_diff : String → String → Refusal
  no_results unsatisfied : Refusal

abbrev pub refusal_text : Refusal → String
refusal_text (build_outcome s) = String.◌++◌ "build: outcome " s
refusal_text (test_outcome s) = String.◌++◌ "test: outcome " s
refusal_text (review_status s) = String.◌++◌ "review: status " s
refusal_text (other_diff s t) =
    String.◌++◌ "diff: reviewed " (String.◌++◌ s (String.◌++◌ " != current " t))
refusal_text no_results = "acceptance: no results"
refusal_text unsatisfied = "acceptance: unsatisfied result"

unfoldable pub check_results : List AcceptanceResult → Option Refusal
check_results [] = none
check_results (r ∷ rest) = if not r.satisfied then some unsatisfied else check_results rest

-- `none` if the gate is passed. The arguments are the outcomes of the build and the test.
unfoldable pub done_gate : String → String → ReviewState → String → Option Refusal
unfolding check_results
done_gate build test review current =
    if not (build == "PASS")
    then some (build_outcome build)
    else if not (test == "PASS")
    then some (test_outcome test)
    else if not (review.status == "APPROVED")
    then some (review_status review.status)
    else if not (review.diff_artifact_id == current)
    then some (other_diff review.diff_artifact_id current)
    else if is_empty review.acceptance_results
    then some no_results
    else check_results review.acceptance_results

-- What a finished task is: built, tested, and approved as it stands, on every criterion.
pub record IsAccepted (build test : String) (review : ReviewState) (current : String) : Type 0 where
  pub built : build ≡ "PASS"
  pub tested : test ≡ "PASS"
  pub approved : review.status ≡ "APPROVED"
  pub same_diff : review.diff_artifact_id ≡ current
  pub has_results : review.acceptance_results ≢ []
  pub satisfied_all : All (λ r. r.satisfied ≡ true) review.acceptance_results

check_results_iff :
    (rs : List AcceptanceResult) → (check_results rs ≡ none) ↔ All (λ r. r.satisfied ≡ true) rs
unfolding check_results
check_results_iff [] = (λ _. tt, λ _. refl)
check_results_iff (r ∷ rest) = ground (arith, check_results_iff rest)

is_empty_iff : {A : Type 0} (xs : List A) → (is_empty xs ≡ true) ↔ (xs ≡ [])
is_empty_iff [] = (λ _. refl, λ _. refl)
is_empty_iff (x ∷ xs) = ground arith

module _ (build test : String) (review : ReviewState) (current : String) where
  accepted_of_gate :
      done_gate build test review current ≡ none → IsAccepted build test review current
  unfolding done_gate
  accepted_of_gate e =
      let (built, tested, approved, same_diff, results, checked) : (build ≡ "PASS")
          × (test ≡ "PASS")
          × (review.status ≡ "APPROVED")
          × (review.diff_artifact_id ≡ current)
          × (review.acceptance_results ≢ [])
          × (check_results review.acceptance_results ≡ none) =
        ground (
          arith,
          str_eq_iff build "PASS",
          str_eq_iff test "PASS",
          str_eq_iff review.status "APPROVED",
          str_eq_iff review.diff_artifact_id current,
          is_empty_iff review.acceptance_results,
        ) in
      record {
        built = built;
        tested = tested;
        approved = approved;
        same_diff = same_diff;
        has_results = results;
        satisfied_all = (check_results_iff review.acceptance_results).0 checked;
      }

  gate_of_accepted :
      IsAccepted build test review current → done_gate build test review current ≡ none
  unfolding done_gate
  gate_of_accepted a = ground (
    arith,
    a.built,
    a.tested,
    a.approved,
    a.same_diff,
    a.has_results,
    (check_results_iff review.acceptance_results).1 a.satisfied_all,
    str_eq_iff build "PASS",
    str_eq_iff test "PASS",
    str_eq_iff review.status "APPROVED",
    str_eq_iff review.diff_artifact_id current,
    is_empty_iff review.acceptance_results,
  )

-- The gate is passed exactly if the build and the test have passed and the review has approved the
-- current diff, with at least one criterion and all of them satisfied.
pub done_gate_iff :
    (build test : String) (review : ReviewState) (current : String)
    → (done_gate build test review current ≡ none) ↔ IsAccepted build test review current
done_gate_iff build test review current =
    (accepted_of_gate build test review current, gate_of_accepted build test review current)
