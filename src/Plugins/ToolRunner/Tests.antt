-- ===== src/Plugins/ToolRunner/Tests.antt =====
-- A build that exits with zero.
use agent_native_os.Prelude.{String, true, false, ◌≡◌, refl, none, some, List, [], ◌∷◌}
use agent_native_os.Prelude.Map.{lookup, insert}
use agent_native_os.Prelude.Text.{str_lt}
use agent_native_os.Prelude.Result.{ok}
use agent_native_os.Kernel.Protocol.{Envelope, command}
use agent_native_os.Kernel.Manifest.Validate.{sort_texts, insert_text}
use agent_native_os.Kernel.Registry.Fence.{contents}
use agent_native_os.Kernel.Fencing.{FenceEnv, with_write_fence, write_if_current}
use agent_native_os.Plugins.Reply.{answered}
use agent_native_os.Plugins.EventLog.{written, append}
use agent_native_os.Plugins.Archive
use agent_native_os.Plugins.Archive.{no_records, record_one}
use agent_native_os.Plugins.ToolRunner.Runner.{no_error, run_command, allowed_env}
use agent_native_os.Plugins.ToolRunner.Store.{ToolRun, Store}
use agent_native_os.Plugins.ToolRunner.Handlers.{
  ToolRunRequest, ToolDeps, Stamp, run_tool, tool_run_handler,
}
use agent_native_os.Plugins.ToolRunner.Verdict.{IsVerdict, tool_run_handler-IsVerdict}

-- The world is the list of the directories in which commands were run.
abbrev deps : ToolDeps (List String)
deps = record {
  system = record {
    getenv = λ name. "x";
    exec = λ c w. (
      record {
        exit_code = some 0;
        stdout = "built";
        stderr = "";
        timed_out = false;
        error = no_error;
      },
      c.dir ∷ w,
    );
  };
  blob_put = λ bytes w. (ok bytes, w);
  head_of = λ path w. (ok "c0", w);
  encode = λ texts. "";
  digest = λ bytes. "d";
}

abbrev request : ToolRunRequest
request = record {
  work_context_id = "wc";
  workspace_path = "/data";
  label = "build";
  command = "make" ∷ [];
  env_allowlist = "LANG" ∷ [];
  timeout_ms = 0;
}

abbrev stamp : Stamp
stamp = record { id = "r1"; started_at = "t1"; ended_at = "t2" }

abbrev envelope : Envelope
envelope = record {
  protocol = 1;
  message_id = "m1";
  kind = command;
  capability = "tool.run";
  major = 1;
  contract = "";
  caller = "";
  principal = "";
  actor_chain = [];
  delegation_id = "";
  provider_hint = "";
  service = "tool";
  authority = "main";
  fencing_epoch = 2;
  reply_to = "";
  reply_runtime = "";
  target_runtime = "";
  trace_id = "";
  correlation_id = "";
  causation_id = "";
  deadline = "";
  idempotency_key = "";
  stream_id = "";
  payload = "";
}

abbrev writer : FenceEnv
writer = record {
  root = "/fence";
  runtime_id = "rt-2";
  io = true;
  read = λ name.
      contents (record { service = "tool"; authority = "main"; runtime_id = "rt-2"; epoch = 2 });
}

abbrev empty : Store
empty = (record { state = no_records; seq = 0 }, record { lines = []; unfinished = none })

abbrev built : ToolRun
built = record {
  id = "r1";
  work_context_id = "wc";
  workspace_path = "/data";
  label = "build";
  command = "make" ∷ [];
  cwd = "/data";
  env_allowlist = "LANG" ∷ [];
  timeout_ms = 600000;
  exit_code = 0;
  outcome = "PASS";
  stdout_uri = "built";
  stderr_uri = "";
  fingerprint = "d";
  started_at = "t1";
  ended_at = "t2";
}

builds :
    (tool_run_handler deps writer stamp written envelope (some request) (empty, [])).0
    ≡ answered built
unfolding tool_run_handler run_tool run_command allowed_env with_write_fence write_if_current
    record_one append Archive.apply lookup insert sort_texts insert_text str_lt
builds = refl

tool_run_handler-IsVerdict_example :
    IsVerdict deps request built []
      (tool_run_handler deps writer stamp written envelope (some request) (empty, [])).1.0
tool_run_handler-IsVerdict_example =
    tool_run_handler-IsVerdict deps writer stamp written envelope request (empty, []) built builds
