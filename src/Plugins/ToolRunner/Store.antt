-- ===== src/Plugins/ToolRunner/Store.antt =====
-- plugins/tool-runner/store.go: an archive of runs.
use agent_native_os.Prelude.{ℕ, String, Option, List}
use agent_native_os.Prelude.Result.{Result}
use agent_native_os.Plugins.EventLog.{Write, LogError}
use agent_native_os.Plugins.Archive
use agent_native_os.Plugins.Archive.{Table, ApplyError, record_one}

pub record ToolRun : Type 0 where
  pub id : String
  pub work_context_id : String
  pub workspace_path : String
  pub label : String
  pub command : List String
  pub cwd : String
  pub env_allowlist : List String
  pub timeout_ms : ℕ
  pub exit_code : ℕ
  pub outcome : String
  pub stdout_uri : String
  pub stderr_uri : String
  pub fingerprint : String
  pub started_at : String
  pub ended_at : String

abbrev pub Store : Type 0
Store = Archive.Store ToolRun

abbrev pub run_id : ToolRun → String
run_id r = r.id

abbrev pub run_context : ToolRun → String
run_context r = r.work_context_id

abbrev pub record_run : Write → ToolRun → Store → Result (LogError ApplyError) (Unit {0}) × Store
record_run = record_one run_id run_context

abbrev pub get_run : String → Table ToolRun → Option ToolRun
get_run = Archive.get_by_id

abbrev pub query_runs : String → Table ToolRun → List ToolRun
query_runs = Archive.query_by_context
