-- ===== src/Plugins/ToolRunner/Runner.antt =====
-- runCommand of plugins/tool-runner/runner.go, over the processes of the system.
use Prim.Native.String
use agent_native_os.Prelude.{
  ℕ, ◌-◌, ◌^◌, String, Bool, true, false, Option, none, some, List, [], ◌∷◌, ◌==◌, text_comparable,
  if◌then◌else◌, is_empty,
}
use agent_native_os.Prelude.Int64.{sle}
use agent_native_os.Prelude.Result.{Result, ok, err}
use agent_native_os.Prelude.Effect.{Effect}

-- The exit code is a word of 64 bits.
pub record CmdResult : Type 0 where
  pub exit_code : ℕ
  pub stdout : String
  pub stderr : String
  pub timed_out : Bool

-- The error of cmd.Run: `not_started` is exec.Error or os.PathError.
pub data RunError : Type 0 where
  no_error not_started other_error : RunError

-- What a process leaves: its exit code, if it has a state.
pub record Ran : Type 0 where
  pub exit_code : Option ℕ
  pub stdout : String
  pub stderr : String
  pub timed_out : Bool
  pub error : RunError

-- A command: its words, directory, environment and timeout.
pub record Command : Type 0 where
  pub argv : List String
  pub dir : String
  pub env : List String
  pub timeout_ms : ℕ

-- The environment of this process, and cmd.Run.
pub record System (W : Type 0) : Type 0 where
  pub getenv : String → String
  pub exec : Command → W → Ran × W

abbrev setting : String → String → String
setting name value = String.◌++◌ name (String.◌++◌ "=" value)

-- The loop over the names that are let through.
unfoldable pub allowed_env : (String → String) → List String → List String
allowed_env getenv [] = []
allowed_env getenv (name ∷ names) =
    let rest = allowed_env getenv names in
    if getenv name == "" then rest else setting name (getenv name) ∷ rest

abbrev pub exit_or_minus_one : Option ℕ → ℕ
exit_or_minus_one none = 2 ^ 64 - 1
exit_or_minus_one (some code) = code

abbrev pub result_of : Ran → CmdResult
result_of r = record {
  exit_code = exit_or_minus_one r.exit_code;
  stdout = r.stdout;
  stderr = r.stderr;
  timed_out = r.timed_out;
}

abbrev is_none : Option ℕ → Bool
is_none none = true
is_none (some code) = false

abbrev pub failed_to_run : RunError → Option ℕ → Bool
failed_to_run no_error state = false
failed_to_run not_started state = true
failed_to_run other_error state = is_none state

abbrev pub judged : {W : Type 0} → Ran × W → Result (Unit {0}) CmdResult × W
judged (r, w) = (if failed_to_run r.error r.exit_code then err tt else ok (result_of r), w)

abbrev pub effective_timeout : ℕ → ℕ
effective_timeout timeout_ms = if sle timeout_ms 0 then 600000 else timeout_ms

abbrev pub command_of : {W : Type 0} → System W → String → List String → List String → ℕ → Command
command_of system path argv allowlist timeout_ms = record {
  argv = argv;
  dir = path;
  env =
      setting "PATH" (system.getenv "PATH")
      ∷ setting "HOME" (system.getenv "HOME")
      ∷ allowed_env system.getenv allowlist;
  timeout_ms = effective_timeout timeout_ms;
}

unfoldable pub run_command :
    {W : Type 0} → System W → String → List String → List String → ℕ → Effect W (Unit {0}) CmdResult
unfolding allowed_env
run_command system path argv allowlist timeout_ms w =
    if is_empty argv
    then (err tt, w)
    else judged (system.exec (command_of system path argv allowlist timeout_ms) w)
