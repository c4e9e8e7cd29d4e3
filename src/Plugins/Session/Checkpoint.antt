-- ===== src/Plugins/Session/Checkpoint.antt =====
-- plugins/session/checkpoint.go, over a git that is a parameter.
use Prim.Native.Char.{code}
use Prim.Native.String
use agent_native_os.Prelude.{
  ℕ, String, Bool, not, List, [], ◌∷◌, ◌==◌, text_comparable, nat_comparable, if◌then◌else◌,
}
use agent_native_os.Prelude.Result.{ok}
use agent_native_os.Prelude.Effect.{Effect, ◌>>=◌, pure_step, or_zero}

pub record SessionEventSelection : Type 0 where
  pub journal_cursor_start : ℕ
  pub journal_cursor_end : ℕ
  pub correlation_id : String
  pub event_ids : List String
  pub event_sha256s : List String
  pub event_count : ℕ

pub record RecoveryCheckpoint : Type 0 where
  pub repo : String
  pub base_commit : String
  pub head_commit : String
  pub branch : String
  pub worktree_path_at_seal : String
  pub dirty : Bool
  pub tracked_patch_ref : String
  pub untracked_manifest : List String
  pub diff_artifact_id : String
  pub task_id : String
  pub work_context_id : String
  pub agent_run_id : String
  pub provider : String
  pub harness_native_id : String
  pub canonical_event_selection : SessionEventSelection

abbrev no_selection : SessionEventSelection
no_selection = record {
  journal_cursor_start = 0;
  journal_cursor_end = 0;
  correlation_id = "";
  event_ids = [];
  event_sha256s = [];
  event_count = 0;
}

-- strings.Split at newlines.
abbrev before_first : String → List String → List String
before_first piece [] = piece ∷ []
before_first piece (line ∷ lines) = String.◌++◌ piece line ∷ lines

unfoldable pub split_lines : String → List String
split_lines String.[] = "" ∷ []
split_lines (String.◌∷◌ c s) =
    let rest = split_lines s in
    if code c == 10 then "" ∷ rest else before_first (String.◌∷◌ c "") rest

abbrev files_of : String → List String
files_of untracked = if untracked == "" then [] else split_lines untracked

abbrev checkpoint_of : String → String → String → String → String → String → RecoveryCheckpoint
checkpoint_of path head branch repo status untracked = record {
  repo = repo;
  base_commit = head;
  head_commit = head;
  branch = branch;
  worktree_path_at_seal = path;
  dirty = not (status == "");
  tracked_patch_ref = "";
  untracked_manifest = files_of untracked;
  diff_artifact_id = "";
  task_id = "";
  work_context_id = "";
  agent_run_id = "";
  provider = "";
  harness_native_id = "";
  canonical_event_selection = no_selection;
}

-- `git` runs in a directory, and gives its trimmed output. The error of the third call is dropped.
unfoldable pub build_checkpoint :
    {W : Type 0}
    → (String → List String → Effect W (Unit {0}) String)
    → String
    → Effect W (Unit {0}) (RecoveryCheckpoint × String)
unfolding split_lines
build_checkpoint git path = do
  head ← git path ("rev-parse" ∷ "HEAD" ∷ [])
  branch ← git path ("rev-parse" ∷ "--abbrev-ref" ∷ "HEAD" ∷ [])
  repo ← or_zero "" (git path ("rev-parse" ∷ "--path-format=absolute" ∷ "--git-common-dir" ∷ []))
  status ← git path ("status" ∷ "--porcelain" ∷ [])
  patch ← git path ("--no-pager" ∷ "diff" ∷ "HEAD" ∷ [])
  untracked ← git path ("ls-files" ∷ "--others" ∷ "--exclude-standard" ∷ [])
  pure_step (ok (checkpoint_of path head branch repo status untracked, patch))
