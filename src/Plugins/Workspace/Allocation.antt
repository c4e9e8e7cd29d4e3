-- ===== src/Plugins/Workspace/Allocation.antt =====
-- What an allocation leaves behind, and who may write.
use agent_native_os.Prelude.{
  String, not, ◌&&◌, ◌||◌, ◌≡◌, ◌≢◌, refl, ap, ◌∙◌, inl, inr, Option, none, some, ◌==◌,
  text_comparable, Bool-cases,
}
use agent_native_os.Prelude.Result.{Result, ok, err}
use agent_native_os.Kernel.Protocol.{Envelope}
use agent_native_os.Kernel.Fencing.{FenceEnv, FenceFault, with_write_fence}
use agent_native_os.Kernel.Fencing.Stale.{HoldsLease, changed_by_current}
use agent_native_os.Plugins.EventLog.{Write}
use agent_native_os.Plugins.Workspace.Git.{Host}
use agent_native_os.Plugins.Workspace.Store.{WorkspaceRef, Store, get_by_id}
use agent_native_os.Plugins.Workspace.Handlers.{
  AllocateRequest, ReleaseRequest, WriteError, write_reply, allocate_at, allocate_in,
  allocate_handler, release_found, release_handler,
}

-- A call of one of the handlers that write: a release with the store that it has read.
pub data Command : Type 0 where
  allocating : String → String → Option AllocateRequest → Command
  releasing : Option ReleaseRequest → Store → Command

module _ {W : Type 0} (host : Host W) where
  -- The store and the world after a call at a time.
  abbrev pub serve : FenceEnv → String → Write → Envelope → Command → Store × W → Store × W
  serve env now w e (allocating id path q) sw = (allocate_handler host env id now path w e q sw).1
  serve env now w e (releasing q seen) sw = (release_handler host env now w e q seen sw).1

  write_reply-kept :
      {S : Type 0} (o : Result (FenceFault WriteError) WorkspaceRef × S) → (write_reply o).1 ≡ o.1
  write_reply-kept (ok u, s) = refl
  write_reply-kept (err x, s) = refl

  fenced-HoldsLease :
      (env : FenceEnv) (e : Envelope)
      (fn : Store × W → Result WriteError WorkspaceRef × (Store × W)) (s : Store) (world : W)
      → (write_reply (with_write_fence env e fn (s, world))).1.0 ≢ s
      → HoldsLease env e
  fenced-HoldsLease env e fn s world changed =
      (changed_by_current env e fn (s, world)
        (λ q. changed (ap (λ o. o.0) (write_reply-kept _ ∙ q)))).0

  allocate_at-HoldsLease :
      (env : FenceEnv) (id now path : String) (w : Write) (e : Envelope) (q : AllocateRequest)
      (s : Store) (o : Result (Unit {0}) String × W)
      → (allocate_at host env id now path w e q s o).1.0 ≢ s
      → HoldsLease env e
  allocate_at-HoldsLease env id now path w e q s (err x, world) changed = absurd (changed refl)
  allocate_at-HoldsLease env id now path w e q s (ok commit, world) changed =
      fenced-HoldsLease env e _ s world changed

  allocate_in-HoldsLease :
      (env : FenceEnv) (id now path : String) (w : Write) (e : Envelope) (q : AllocateRequest)
      (s : Store) (o : Result (Unit {0}) (Unit {0}) × W)
      → (allocate_in host env id now path w e q s o).1.0 ≢ s
      → HoldsLease env e
  allocate_in-HoldsLease env id now path w e q s (err x, world) changed = absurd (changed refl)
  allocate_in-HoldsLease env id now path w e q s (ok tt, world) changed =
      allocate_at-HoldsLease env id now path w e q s _ changed

  release_found-HoldsLease :
      (env : FenceEnv) (now : String) (w : Write) (e : Envelope) (q : ReleaseRequest)
      (sw : Store × W) (found : Option WorkspaceRef)
      → (release_found host env now w e q sw found).1.0 ≢ sw.0
      → HoldsLease env e
  release_found-HoldsLease env now w e q sw none changed = absurd (changed refl)
  release_found-HoldsLease env now w e q sw (some ref) changed =
      elim (Bool-cases (ref.status == "RELEASED")) [
        | inl over ↦ absurd ((rw over at changed) refl)
        | inr open_still ↦ fenced-HoldsLease env e _ sw.0 sw.1 (rw open_still at changed)
      ]

  -- A call of a handler, whatever its request, that changes the store or its log is made by a process
  -- that holds the lease of the request's authority at the request's epoch.
  pub serve_workspace-HoldsLease :
      (env : FenceEnv) (now : String) (w : Write) (e : Envelope) (command : Command)
      (sw : Store × W)
      → (serve env now w e command sw).0 ≢ sw.0
      → HoldsLease env e
  unfolding allocate_handler release_handler
  serve_workspace-HoldsLease env now w e (allocating id path none) sw changed =
      absurd (changed refl)
  serve_workspace-HoldsLease env now w e (releasing none seen) sw changed = absurd (changed refl)
  serve_workspace-HoldsLease env now w e (allocating id path (some q)) (s, world) changed =
      elim (Bool-cases (q.work_context_id == "" || q.repo == "")) [
        | inl bad ↦ absurd ((rw (bad, serve, allocate_handler) at changed) refl)
        | inr fine ↦
            allocate_in-HoldsLease env id now path w e q s _
              (rw (fine, serve, allocate_handler) at changed)
      ]
  serve_workspace-HoldsLease env now w e (releasing (some q) seen) sw changed =
      elim (Bool-cases
        (q.workspace_id == "" || (not (q.policy == "preserve") && not (q.policy == "delete")))) [
          | inl bad ↦ absurd ((rw (bad, serve, release_handler) at changed) refl)
          | inr fine ↦
              release_found-HoldsLease env now w e q sw (get_by_id q.workspace_id seen.0.state)
                (rw (fine, serve, release_handler) at changed)
        ]
