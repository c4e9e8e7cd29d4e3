-- ===== src/Plugins/ToolRunner/Handlers.antt =====
-- plugins/tool-runner/handlers.go. What a payload decodes to is an argument of each handler, `none` if it
-- does not decode.
use Prim.Native.Char.{nul}
use Prim.Native.String
use agent_native_os.Prelude.{
  ℕ, String, Bool, not, ◌||◌, Option, none, some, List, map, ◌==◌, text_comparable, nat_comparable,
  if◌then◌else◌, is_empty,
}
use agent_native_os.Prelude.Result.{Result, ok, err}
use agent_native_os.Prelude.Effect.{Effect, ◌>>=◌}
use agent_native_os.Kernel.Protocol.{Envelope}
use agent_native_os.Kernel.Manifest.Validate.{sort_texts}
use agent_native_os.Kernel.Fencing.{FenceEnv, FenceFault, with_write_fence}
use agent_native_os.Plugins.Reply.{Reply, answered, rejection, io_rejection}
use agent_native_os.Plugins.EventLog.{Write, LogError}
use agent_native_os.Plugins.Archive.{ApplyError}
use agent_native_os.Plugins.ToolRunner.Runner.{System, CmdResult, effective_timeout, run_command}
use agent_native_os.Plugins.ToolRunner.Store.{ToolRun, Store, record_run, get_run, query_runs}

pub record ToolRunRequest : Type 0 where
  pub work_context_id : String
  pub workspace_path : String
  pub label : String
  pub command : List String
  pub env_allowlist : List String
  pub timeout_ms : ℕ

-- The system, the blob store, the head commit of a workspace, json.Marshal of texts, and SHA-256.
pub record ToolDeps (W : Type 0) : Type 0 where
  pub system : System W
  pub blob_put : String → W → Result (Unit {0}) String × W
  pub head_of : String → W → Result (Unit {0}) String × W
  pub encode : List String → String
  pub digest : String → String

-- The names and times that the host gives to a run.
pub record Stamp : Type 0 where
  pub id : String
  pub started_at : String
  pub ended_at : String

abbrev pub or_empty : {W : Type 0} → Result (Unit {0}) String × W → Result (Unit {0}) String × W
or_empty (ok commit, w) = (ok commit, w)
or_empty (err e, w) = (ok "", w)

module _ {W : Type 0} (deps : ToolDeps W) where
  -- The two parts are followed by a zero byte.
  abbrev fingerprint : List String → List String → String → String
  fingerprint argv allowlist commit = deps.digest (
      String.◌++◌ (deps.encode argv) (
        String.◌∷◌ nul (
          String.◌++◌
            (deps.encode (
              sort_texts (
                map (λ name. String.◌++◌ name (String.◌++◌ "=" (deps.system.getenv name)))
                  allowlist)))
            (String.◌∷◌ nul commit))))

  abbrev pub outcome_of : CmdResult → String
  outcome_of res = if not (res.exit_code == 0) || res.timed_out then "FAIL" else "PASS"

  abbrev pub tool_run : Stamp → ToolRunRequest → CmdResult → String → String → String → ToolRun
  tool_run stamp req res stdout_uri stderr_uri commit = record {
    id = stamp.id;
    work_context_id = req.work_context_id;
    workspace_path = req.workspace_path;
    label = req.label;
    command = req.command;
    cwd = req.workspace_path;
    env_allowlist = req.env_allowlist;
    timeout_ms = effective_timeout req.timeout_ms;
    exit_code = res.exit_code;
    outcome = outcome_of res;
    stdout_uri = stdout_uri;
    stderr_uri = stderr_uri;
    fingerprint = fingerprint req.command req.env_allowlist commit;
    started_at = stamp.started_at;
    ended_at = stamp.ended_at;
  }

  -- A call that leaves the store alone, and one that leaves the world alone.
  abbrev pub outside :
      {A : Type 0} → (W → Result (Unit {0}) A × W) → Effect (Store × W) (Unit {0}) A
  outside m (s, w) = let (r, w') = m w in (r, (s, w'))

  abbrev pub recorded :
      ToolRun
      → Result (LogError ApplyError) (Unit {0}) × Store
      → W
      → Result (Unit {0}) ToolRun × (Store × W)
  recorded tr (ok _, s) w = (ok tr, (s, w))
  recorded tr (err e, s) w = (err tt, (s, w))

  abbrev pub keep_run : Write → ToolRun → Effect (Store × W) (Unit {0}) ToolRun
  keep_run write tr (s, w) = recorded tr (record_run write tr s) w

  unfoldable pub run_tool : Stamp → Write → ToolRunRequest → Effect (Store × W) (Unit {0}) ToolRun
  run_tool stamp write req = do
    res ← outside (
        run_command deps.system req.workspace_path req.command req.env_allowlist
          (effective_timeout req.timeout_ms))
    stdout_uri ← outside (deps.blob_put res.stdout)
    stderr_uri ← outside (deps.blob_put res.stderr)
    commit ← outside (λ w. or_empty (deps.head_of req.workspace_path w))
    keep_run write (tool_run stamp req res stdout_uri stderr_uri commit)

  abbrev pub run_reply :
      {S : Type 0} → Result (FenceFault (Unit {0})) ToolRun × S → Reply ToolRun × S
  run_reply (ok tr, s) = (answered tr, s)
  run_reply (err e, s) = (io_rejection, s)

  abbrev pub is_bad_request : ToolRunRequest → Bool
  is_bad_request q =
      q.work_context_id == "" || q.workspace_path == "" || q.label == "" || is_empty q.command

  unfoldable pub tool_run_handler :
      FenceEnv
      → Stamp
      → Write
      → Envelope
      → Option ToolRunRequest
      → Store × W
      → Reply ToolRun × (Store × W)
  tool_run_handler env stamp write e none sw = (rejection "INVALID", sw)
  tool_run_handler env stamp write e (some q) sw =
      if is_bad_request q
      then (rejection "INVALID", sw)
      else run_reply (with_write_fence env e (run_tool stamp write q) sw)

abbrev found_run : Option ToolRun → Reply ToolRun
found_run none = rejection "NOT_FOUND"
found_run (some tr) = answered tr

unfoldable pub get_handler : Option String → Store → Reply ToolRun
get_handler none s = rejection "INVALID"
get_handler (some id) s = if id == "" then rejection "INVALID" else found_run (get_run id s.0.state)

unfoldable pub query_handler : Option String → Store → Reply (List ToolRun)
query_handler none s = rejection "INVALID"
query_handler (some wc) s =
    if wc == "" then rejection "INVALID" else answered (query_runs wc s.0.state)
