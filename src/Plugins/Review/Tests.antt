-- ===== src/Plugins/Review/Tests.antt =====
-- One review, decided twice.
use agent_native_os.Prelude.{◌≡◌, refl, none, some, [], text_comparable, str_eq_iff, arith}
use agent_native_os.Prelude.Map.{lookup, insert}
use agent_native_os.Prelude.Result.{ok, err}
use agent_native_os.Plugins.EventLog.{written, append}
use agent_native_os.Plugins.Review.Store.{
  Review, Store, with_decision, record_decided, get_by_id, apply, already_decided,
}
use agent_native_os.Plugins.Review.Decisions.{decided_once}
use agent_native_os.Plugins.Review.Later.{unchanged, requesting, deciding}
use agent_native_os.Plugins.EventLog.{load, replay_lines}
use agent_native_os.Plugins.EventLog.Live.{IsLive, loaded, appended}
use agent_native_os.Plugins.Review.Store.{requested, no_reviews, record_requested}

abbrev pending : Review
pending = record {
  id = "r1";
  work_context_id = "wc";
  agent_run_id = "a1";
  diff_artifact_id = "d1";
  status = "PENDING";
  reviewer = "";
  notes = "";
  acceptance_results = [];
  evidence_snapshot = [];
  requested_at = "t0";
  decided_at = "";
}

abbrev approval : Review
approval = with_decision "APPROVED" "ann" "fine" [] "t1" pending

-- A store that has been loaded from an empty file, with one review requested.
abbrev other_review : Review
other_review = record pending { id = "r2" }

abbrev blank : Store
blank = (record { state = no_reviews; seq = 0 }, record { lines = []; unfinished = none })

abbrev one_review : Store
one_review = (append apply written (requested pending) blank).1

one_review-IsLive : IsLive apply no_reviews one_review
unfolding load replay_lines
one_review-IsLive = appended written (requested pending) (loaded blank.1 blank.0 refl)

decides : (record_decided written "t1" "r1" "APPROVED" "ann" "fine" [] one_review).0 ≡ ok approval
unfolding record_decided lookup append apply insert
decides = refl

-- Another review is requested and decided between the two decisions.
abbrev meanwhile : Store
meanwhile =
    (record_decided written "t2" "r2" "REJECTED" "bob" "" []
      (record_requested written other_review
        (record_decided written "t1" "r1" "APPROVED" "ann" "fine" [] one_review).1).1).1

decided_once_example :
    (get_by_id "r1" meanwhile.0.state ≡ some approval)
    × (approval.status ≡ "APPROVED")
    × (record_decided written "t3" "r1" "REJECTED" "bob" "no" [] meanwhile
        ≡ (err already_decided, meanwhile))
decided_once_example =
    decided_once written written "t1" "t3" "r1" "APPROVED" "REJECTED" "ann" "bob" "fine" "no" [] []
      one_review meanwhile approval (ground (arith, str_eq_iff "APPROVED" "PENDING"))
      one_review-IsLive decides
      (deciding written "t2" "r2" "REJECTED" "bob" "" []
        (requesting written other_review (ground (arith, str_eq_iff "r2" "r1")) unchanged))
