-- ===== src/Plugins/Workspace/Handlers.antt =====
-- plugins/workspace/handlers.go. What a payload decodes to is an argument of each handler, `none` if it
-- does not decode. A handler changes the store and the world of git.
use agent_native_os.Prelude.{
  ℕ, zero, suc, ◌-◌, String, Bool, true, false, not, ◌&&◌, ◌||◌, Option, none, some, ◌==◌,
  text_comparable, if◌then◌else◌,
}
use Prim.Native.String
use Prim.Native.String.{count}
use agent_native_os.Prelude.Result.{Result, ok, err}
use agent_native_os.Kernel.Protocol.{Envelope}
use agent_native_os.Kernel.Fencing.{FenceEnv, FenceFault, inner, with_write_fence}
use agent_native_os.Plugins.Reply.{Reply, answered, rejection, io_rejection}
use agent_native_os.Plugins.EventLog.{Write, LogError}
use agent_native_os.Plugins.Workspace.Git.{
  Host, ensure_repo, resolve_commit, add_worktree, remove_worktree, delete_branch,
}
use agent_native_os.Plugins.Workspace.Store.{
  WorkspaceRef, Store, StoreError, ApplyError, record_allocated, record_released, get_by_id,
  get_by_context,
}

pub record AllocateRequest : Type 0 where
  pub work_context_id : String
  pub repo : String
  pub base_ref : String

pub record ReleaseRequest : Type 0 where
  pub workspace_id : String
  pub policy : String

pub record GetRequest : Type 0 where
  pub workspace_id : String
  pub work_context_id : String

-- What a write behind the fence fails with, as its failureCode tells it.
pub data WriteError : Type 0 where
  git_failed store_failed : WriteError

abbrev drop : ℕ → String → String
drop zero s = s
drop (suc n) String.[] = ""
drop (suc n) (String.◌∷◌ c s) = drop n s

-- The last eight code points. Subtraction stops at 0, where the text is short.
unfoldable pub last8 : String → String
last8 s = drop (count s - 8) s

-- The reply of a write: an error of git is final, any other may be tried again.
abbrev pub write_error_reply : FenceFault WriteError → Reply WorkspaceRef
write_error_reply (inner git_failed) = rejection "GIT_ERROR"
write_error_reply _ = io_rejection

abbrev pub write_reply :
    {S : Type 0} → Result (FenceFault WriteError) WorkspaceRef × S → Reply WorkspaceRef × S
write_reply (ok ref, s) = (answered ref, s)
write_reply (err e, s) = (write_error_reply e, s)

-- The workspace that a request asks for.
abbrev pub new_ref : String → String → String → AllocateRequest → String → WorkspaceRef
new_ref id now path q commit = record {
  id = id;
  work_context_id = q.work_context_id;
  repo = q.repo;
  path = path;
  branch = String.◌++◌ "aeos/ws-" (last8 id);
  base_commit = commit;
  status = "ALLOCATED";
  release_policy = "";
  allocated_at = now;
  released_at = "";
}

module _ {W : Type 0} (host : Host W) where
  abbrev pub noted :
      WorkspaceRef
      → Result (LogError ApplyError) (Unit {0}) × Store
      → W
      → Result WriteError WorkspaceRef × (Store × W)
  noted ref (ok _, s) w = (ok ref, (s, w))
  noted ref (err e, s) w = (
    err store_failed,
    (s, (delete_branch host ref.repo ref.branch (remove_worktree host ref.repo ref.path w).1).1),
  )

  abbrev pub placed :
      Write
      → WorkspaceRef
      → Store
      → Result (Unit {0}) (Unit {0}) × W
      → Result WriteError WorkspaceRef × (Store × W)
  placed write ref s (err e, w) =
      (err git_failed, (s, (remove_worktree host ref.repo ref.path w).1))
  placed write ref s (ok _, w) = noted ref (record_allocated write ref s) w

  -- The write behind the fence.
  unfoldable pub allocate :
      Write → WorkspaceRef → Store × W → Result WriteError WorkspaceRef × (Store × W)
  allocate write ref (s, w) =
      placed write ref s (add_worktree host ref.repo ref.path ref.branch ref.base_commit w)

  -- The rest of the handler, behind each of the two questions to git.
  abbrev pub allocate_at :
      FenceEnv
      → String
      → String
      → String
      → Write
      → Envelope
      → AllocateRequest
      → Store
      → Result (Unit {0}) String × W
      → Reply WorkspaceRef × (Store × W)
  allocate_at env id now path write e q s (err x, w) = (rejection "GIT_ERROR", (s, w))
  allocate_at env id now path write e q s (ok commit, w) =
      write_reply (with_write_fence env e (allocate write (new_ref id now path q commit)) (s, w))

  abbrev pub allocate_in :
      FenceEnv
      → String
      → String
      → String
      → Write
      → Envelope
      → AllocateRequest
      → Store
      → Result (Unit {0}) (Unit {0}) × W
      → Reply WorkspaceRef × (Store × W)
  allocate_in env id now path write e q s (err x, w) = (rejection "GIT_ERROR", (s, w))
  allocate_in env id now path write e q s (ok _, w) =
      allocate_at env id now path write e q s (resolve_commit host q.repo q.base_ref w)

  -- The name, the time and the path, which holds the name, are what the process makes.
  unfoldable pub allocate_handler :
      FenceEnv
      → String
      → String
      → String
      → Write
      → Envelope
      → Option AllocateRequest
      → Store × W
      → Reply WorkspaceRef × (Store × W)
  allocate_handler env id now path write e none (s, w) = (rejection "INVALID", (s, w))
  allocate_handler env id now path write e (some q) (s, w) =
      if q.work_context_id == "" || q.repo == ""
      then (rejection "INVALID", (s, w))
      else allocate_in env id now path write e q s (ensure_repo host q.repo w)

  abbrev pub recorded :
      Result StoreError WorkspaceRef × Store → W → Result WriteError WorkspaceRef × (Store × W)
  recorded (ok ref, s) w = (ok ref, (s, w))
  recorded (err e, s) w = (err store_failed, (s, w))

  abbrev pub cleared :
      Write
      → String
      → WorkspaceRef
      → ReleaseRequest
      → Store
      → Result (Unit {0}) (Unit {0}) × W
      → Result WriteError WorkspaceRef × (Store × W)
  cleared write now ref q s (err e, w) = (err git_failed, (s, w))
  cleared write now ref q s (ok _, w) =
      recorded (record_released write now q.workspace_id q.policy s)
        (delete_branch host ref.repo ref.branch w).1

  -- The write behind the fence.
  unfoldable pub release :
      Write
      → String
      → WorkspaceRef
      → ReleaseRequest
      → Store × W
      → Result WriteError WorkspaceRef × (Store × W)
  release write now ref q (s, w) =
      if q.policy == "delete"
      then cleared write now ref q s (remove_worktree host ref.repo ref.path w)
      else recorded (record_released write now q.workspace_id q.policy s) w

  abbrev pub release_found :
      FenceEnv
      → String
      → Write
      → Envelope
      → ReleaseRequest
      → Store × W
      → Option WorkspaceRef
      → Reply WorkspaceRef × (Store × W)
  release_found env now write e q sw none = (rejection "NOT_FOUND", sw)
  release_found env now write e q sw (some ref) =
      if ref.status == "RELEASED"
      then (if ref.release_policy == q.policy then answered ref else rejection "CONFLICT", sw)
      else write_reply (with_write_fence env e (release write now ref q) sw)

  -- `seen` is the store as the handler reads it, before it waits for the fence. The handlers of a
  -- process run at the same time, so the store may be another when the fence lets the write through:
  -- that store is the one that changes.
  unfoldable pub release_handler :
      FenceEnv
      → String
      → Write
      → Envelope
      → Option ReleaseRequest
      → Store
      → Store × W
      → Reply WorkspaceRef × (Store × W)
  release_handler env now write e none seen sw = (rejection "INVALID", sw)
  release_handler env now write e (some q) seen sw =
      if q.workspace_id == "" || (not (q.policy == "preserve") && not (q.policy == "delete"))
      then (rejection "INVALID", sw)
      else release_found env now write e q sw (get_by_id q.workspace_id seen.0.state)

abbrev found_reply : Option WorkspaceRef → Reply WorkspaceRef
found_reply none = rejection "NOT_FOUND"
found_reply (some ref) = answered ref

abbrev both_or_neither : Bool → Bool → Bool
both_or_neither true b = b
both_or_neither false b = not b

unfoldable pub get_handler : Option GetRequest → Store → Reply WorkspaceRef
get_handler none s = rejection "INVALID"
get_handler (some q) s =
    if both_or_neither (q.workspace_id == "") (q.work_context_id == "")
    then rejection "INVALID"
    else if not (q.workspace_id == "")
    then found_reply (get_by_id q.workspace_id s.0.state)
    else found_reply (get_by_context q.work_context_id s.0.state)
