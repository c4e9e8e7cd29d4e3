-- ===== src/Plugins/Session/Seal.antt =====
-- sealOnce of plugins/session/handlers.go. Its dependencies are there, as main.go sets them.
use agent_native_os.Prelude.{
  String, Bool, true, false, ◌||◌, Option, none, some, List, map, ◌==◌, text_comparable,
  nat_comparable, if◌then◌else◌, length,
}
use agent_native_os.Prelude.Result.{Result, ok, err, fail_if}
use agent_native_os.Prelude.Effect.{Effect, ◌>>=◌, ◌>>◌, pure_step, or_fail}
use agent_native_os.Kernel.Protocol.{Error}
use agent_native_os.Plugins.Session.Selection.{JournalRecord, fault, select}
use agent_native_os.Plugins.Session.Checkpoint.{
  SessionEventSelection, RecoveryCheckpoint, build_checkpoint,
}

pub record SessionRecord : Type 0 where
  pub id : String
  pub work_context_id : String
  pub agent_run_id : String
  pub archive_ref : String
  pub archive_hash : String
  pub event_selection : SessionEventSelection
  pub recovery_checkpoint : RecoveryCheckpoint
  pub sealed_at : String

pub record SealRequest : Type 0 where
  pub work_context_id : String
  pub agent_run_id : String
  pub workspace_path : String
  pub correlation_id : String
  pub event_ids : List String
  pub event_sha256s : List String
  pub diff_artifact_id : String
  pub task_id : String
  pub provider : String
  pub harness_native_id : String

-- The calls of other plugins and of git, and the libraries: `encode` is json.Marshal of the archive,
-- which fails on an event that is no JSON, and `digest` is the hexadecimal SHA-256.
pub record SealDeps (W : Type 0) : Type 0 where
  pub git : String → List String → Effect W (Unit {0}) String
  pub replay : Effect W (Unit {0}) (List JournalRecord)
  pub blob_put : String → Effect W (Unit {0}) String
  pub encode : SessionRecord → RecoveryCheckpoint → List String → Option String
  pub digest : String → String

abbrev pub correlation_of : SealRequest → String
correlation_of req = if req.correlation_id == "" then req.work_context_id else req.correlation_id

abbrev pub selection_of : String → List JournalRecord → SessionEventSelection
selection_of correlation selected = record {
  journal_cursor_start = 0;
  journal_cursor_end = 0;
  correlation_id = correlation;
  event_ids = map (λ r. r.id) selected;
  event_sha256s = map (λ r. r.sha256) selected;
  event_count = length selected;
}

abbrev pub complete :
    SealRequest → String → SessionEventSelection → RecoveryCheckpoint → RecoveryCheckpoint
complete req patch_uri selection cp = record cp {
  tracked_patch_ref = patch_uri;
  diff_artifact_id = req.diff_artifact_id;
  task_id = req.task_id;
  work_context_id = req.work_context_id;
  agent_run_id = req.agent_run_id;
  provider = req.provider;
  harness_native_id = req.harness_native_id;
  canonical_event_selection = selection;
}

-- The record before its archive is written.
abbrev pub partial_record :
    String → String → SealRequest → SessionEventSelection → RecoveryCheckpoint → SessionRecord
partial_record id now req selection cp = record {
  id = id;
  work_context_id = req.work_context_id;
  agent_run_id = req.agent_run_id;
  archive_ref = "";
  archive_hash = "";
  event_selection = selection;
  recovery_checkpoint = cp;
  sealed_at = now;
}

abbrev pub encoded : Option String → Result Error String
encoded none = err (fault "IO" false)
encoded (some bytes) = ok bytes

abbrev pub is_incomplete : SealRequest → Bool
is_incomplete req = req.work_context_id == "" || req.agent_run_id == "" || req.workspace_path == ""

module _ {W : Type 0} (deps : SealDeps W) where
  -- The archive of the selected events.
  unfoldable pub archive :
      String
      → String
      → SealRequest
      → RecoveryCheckpoint
      → String
      → List JournalRecord
      → Effect W Error SessionRecord
  archive id now req cp patch_uri selected =
      let selection = selection_of (correlation_of req) selected in
      let cp' = complete req patch_uri selection cp in
      let partial = partial_record id now req selection cp' in
      pure_step (encoded (deps.encode partial cp' (map (λ r. r.raw) selected))) >>= λ bytes.
      or_fail (fault "IO" true) (deps.blob_put bytes) >>= λ uri.
      pure_step (ok (record partial { archive_ref = uri; archive_hash = deps.digest bytes }))

  -- The name and the time are what the host gives.
  unfoldable pub seal_once : String → String → SealRequest → Effect W Error SessionRecord
  unfolding archive
  seal_once id now req = do
    pure_step (fail_if (is_incomplete req) (fault "INVALID" false))
    (cp, patch) ← or_fail (fault "GIT_ERROR" false) (build_checkpoint deps.git req.workspace_path)
    patch_uri ← or_fail (fault "IO" true) (deps.blob_put patch)
    records ← or_fail (fault "IO" true) deps.replay
    selected ← pure_step (select records (correlation_of req) req.event_ids req.event_sha256s)
    archive id now req cp patch_uri selected
