-- ===== src/Plugins/Session/Tests.antt =====
-- A journal with two events, of which one is asked for.
use Prim.Native.String
use agent_native_os.Prelude.{
  String, true, ◌≡◌, ◌≢◌, refl, none, some, List, [], ◌∷◌, ◌++◌, ◌==◌, text_comparable,
  if◌then◌else◌,
}
use agent_native_os.Prelude.Map.{lookup, insert}
use agent_native_os.Prelude.Result.{ok}
use agent_native_os.Plugins.EventLog.{load, replay_lines, written}
use agent_native_os.Plugins.EventLog.Live.{IsLive, loaded}
use agent_native_os.Plugins.Archive.{apply, no_records, get_by_id, query_by_context, record_one}
use agent_native_os.Plugins.Archive.Listing.{record_one-listing}
use agent_native_os.Plugins.Session.Selection.{JournalRecord, indexed, select_asked, select}
use agent_native_os.Plugins.Session.Checkpoint.{split_lines, build_checkpoint}
use agent_native_os.Plugins.Session.Seal.{
  SessionRecord, SealRequest, SealDeps, selection_of, complete, partial_record, archive, seal_once,
}
use agent_native_os.Plugins.Session.Store.{Store, session_id, session_context}
use agent_native_os.Plugins.Session.Integrity.{IsSealed, seal_once-IsSealed}

abbrev event : String → String → JournalRecord
event id hash = record {
  id = id;
  sha256 = hash;
  correlation_id = "wc";
  event_type = "evidence.attached";
  raw = id;
}

-- The world is the list of the blobs that are stored.
abbrev deps : SealDeps (List String)
deps = record {
  git = λ dir args w. (ok "out", w);
  replay = λ w. (ok (event "e1" "h1" ∷ event "e2" "h2" ∷ []), w);
  blob_put = λ bytes w. (ok (String.◌++◌ "blob:" bytes), bytes ∷ w);
  encode = λ sr cp raws. some sr.work_context_id;
  digest = λ bytes. String.◌++◌ "#" bytes;
}

abbrev request : SealRequest
request = record {
  work_context_id = "wc";
  agent_run_id = "a1";
  workspace_path = "/data";
  correlation_id = "";
  event_ids = "e2" ∷ [];
  event_sha256s = "h2" ∷ [];
  diff_artifact_id = "d1";
  task_id = "t";
  provider = "mock";
  harness_native_id = "";
}

abbrev sealed : SessionRecord
sealed =
    let selection = selection_of "wc" (event "e2" "h2" ∷ []) in
    record (partial_record "s1" "t1" request selection (
      complete request "blob:out" selection (record {
        repo = "out";
        base_commit = "out";
        head_commit = "out";
        branch = "out";
        worktree_path_at_seal = "/data";
        dirty = true;
        tracked_patch_ref = "";
        untracked_manifest = "out" ∷ [];
        diff_artifact_id = "";
        task_id = "";
        work_context_id = "";
        agent_run_id = "";
        provider = "";
        harness_native_id = "";
        canonical_event_selection = selection;
      }))) { archive_ref = "blob:wc"; archive_hash = "#wc" }

seals : (seal_once deps "s1" "t1" request []).0 ≡ ok sealed
unfolding seal_once build_checkpoint split_lines select select_asked indexed lookup insert archive
seals = refl

seal_once-IsSealed_example : IsSealed deps request sealed
seal_once-IsSealed_example = seal_once-IsSealed deps "s1" "t1" request [] sealed seals

abbrev empty : Store
empty = (record { state = no_records; seq = 0 }, record { lines = []; unfinished = none })

empty-IsLive : IsLive (apply session_id session_context) no_records empty
unfolding load replay_lines
empty-IsLive =
    loaded (record { lines = []; unfinished = none }) (record { state = no_records; seq = 0 }) refl

no_session : get_by_id (session_id sealed) empty.0.state ≡ none
unfolding get_by_id lookup
no_session = refl

record_one-listing_example :
    let s' = (record_one session_id session_context written sealed empty).1.0.state in
    (get_by_id "s1" s' ≡ some sealed)
    × ((id : String) → id ≢ "s1" → get_by_id id s' ≡ get_by_id id empty.0.state)
    × ((wc : String)
        → query_by_context wc s'
          ≡ query_by_context wc empty.0.state ++ (if "wc" == wc then sealed ∷ [] else []))
record_one-listing_example =
    record_one-listing session_id session_context sealed empty empty-IsLive no_session
