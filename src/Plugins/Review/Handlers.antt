-- ===== src/Plugins/Review/Handlers.antt =====
-- plugins/review/handlers.go. What a payload decodes to is an argument of each handler, `none` if it
-- does not decode.
use agent_native_os.Prelude.{
  String, not, ◌&&◌, ◌||◌, Option, none, some, List, [], ◌==◌, text_comparable, if◌then◌else◌,
}
use agent_native_os.Prelude.Result.{Result, ok, err}
use agent_native_os.Kernel.Protocol.{Envelope}
use agent_native_os.Kernel.Fencing.{FenceEnv, FenceFault, inner, with_write_fence}
use agent_native_os.Plugins.Reply.{Reply, answered, rejection, io_rejection}
use agent_native_os.Plugins.EventLog.{Write, LogError}
use agent_native_os.Plugins.Review.Store.{
  AcceptanceResult, EvidenceSnapshotItem, Review, Store, StoreError, not_found, already_decided,
  ApplyError, record_requested, record_decided, get_by_id, query_by_context,
}

pub record RequestReviewRequest : Type 0 where
  pub work_context_id : String
  pub agent_run_id : String
  pub diff_artifact_id : String
  pub evidence_snapshot : List EvidenceSnapshotItem

pub record DecideReviewRequest : Type 0 where
  pub review_id : String
  pub decision : String
  pub reviewer : String
  pub notes : String
  pub acceptance_results : List AcceptanceResult

abbrev new_review : String → String → RequestReviewRequest → Review
new_review id now q = record {
  id = id;
  work_context_id = q.work_context_id;
  agent_run_id = q.agent_run_id;
  diff_artifact_id = q.diff_artifact_id;
  status = "PENDING";
  reviewer = "";
  notes = "";
  acceptance_results = [];
  evidence_snapshot = q.evidence_snapshot;
  requested_at = now;
  decided_at = "";
}

abbrev requested_reply :
    Review → Result (FenceFault (LogError ApplyError)) (Unit {0}) × Store → Reply Review × Store
requested_reply r (ok _, s) = (answered r, s)
requested_reply r (err e, s) = (io_rejection, s)

-- The name and the time are what the host gives.
unfoldable pub request_handler :
    FenceEnv
    → String
    → String
    → Write
    → Envelope
    → Option RequestReviewRequest
    → Store
    → Reply Review × Store
request_handler env id now w e none s = (rejection "INVALID", s)
request_handler env id now w e (some q) s =
    if q.work_context_id == "" || q.diff_artifact_id == ""
    then (rejection "INVALID", s)
    else requested_reply (new_review id now q)
        (with_write_fence env e (record_requested w (new_review id now q)) s)

-- The switch of errors.Is.
unfoldable pub decide_error_reply : FenceFault StoreError → Reply Review
decide_error_reply (inner not_found) = rejection "NOT_FOUND"
decide_error_reply (inner already_decided) = rejection "CONFLICT"
decide_error_reply _ = io_rejection

abbrev decided_reply : Result (FenceFault StoreError) Review × Store → Reply Review × Store
decided_reply (ok r, s) = (answered r, s)
decided_reply (err e, s) = (decide_error_reply e, s)

unfoldable pub decide_handler :
    FenceEnv → String → Write → Envelope → Option DecideReviewRequest → Store → Reply Review × Store
decide_handler env now w e none s = (rejection "INVALID", s)
decide_handler env now w e (some q) s =
    if q.review_id == ""
      || (not (q.decision == "APPROVED") && not (q.decision == "CHANGES_REQUESTED"))
    then (rejection "INVALID", s)
    else decided_reply (
        with_write_fence env e
          (record_decided w now q.review_id q.decision q.reviewer q.notes q.acceptance_results) s)

abbrev found_review : Option Review → Reply Review
found_review none = rejection "NOT_FOUND"
found_review (some r) = answered r

-- The request is the name of the review.
unfoldable pub get_handler : Option String → Store → Reply Review
get_handler none s = rejection "INVALID"
get_handler (some id) s =
    if id == "" then rejection "INVALID" else found_review (get_by_id id s.0.state)

-- The request is the name of the context.
unfoldable pub query_handler : Option String → Store → Reply (List Review)
query_handler none s = rejection "INVALID"
query_handler (some wc) s =
    if wc == "" then rejection "INVALID" else answered (query_by_context wc s.0.state)
