-- ===== src/Plugins/WorkRegistry/Writers.antt =====
-- Only the writer that the registry has chosen changes the work registry.
use agent_native_os.Prelude.{
  String, Bool, true, false, ◌≡◌, ◌≢◌, refl, ◌∙◌, inl, inr, Option, none, some, text_comparable,
  Option-cases, if◌then◌else◌,
}
use agent_native_os.Prelude.Result.{Result, ok, err}
use agent_native_os.Kernel.Protocol.{Envelope}
use agent_native_os.Kernel.Fencing.{FenceEnv, FenceFault, with_write_fence}
use agent_native_os.Kernel.Fencing.Stale.{HoldsLease, changed_by_current}
use agent_native_os.Plugins.Reply.{Reply}
use agent_native_os.Plugins.EventLog.{Write}
use agent_native_os.Plugins.WorkRegistry.Store.{Store, StoreError}
use agent_native_os.Plugins.WorkRegistry.Handlers.{
  CreateRequest, TransitionRequest, AttachEvidenceRequest, reply_of, create_handler,
  transition_handler, attach_evidence_handler,
}

-- A call of one of the handlers that write: the names and times that the host gives, and the request.
pub data Command : Type 0 where
  creating : String → String → Option CreateRequest → Command
  transitioning : Option TransitionRequest → Command
  attaching : String → String → Option AttachEvidenceRequest → Command

-- The store after a call.
abbrev pub serve : FenceEnv → Write → Envelope → Command → Store → Store
serve env w e (creating task_id wc_id q) s = (create_handler env task_id wc_id w e q s).1
serve env w e (transitioning q) s = (transition_handler env w e q s).1
serve env w e (attaching ev_id now q) s = (attach_evidence_handler env ev_id now w e q s).1

reply_of-store :
    {A : Type 0} (f : FenceFault StoreError → Reply A)
    (o : Result (FenceFault StoreError) A × Store)
    → (reply_of f o).1 ≡ o.1
reply_of-store f (ok a, s) = refl
reply_of-store f (err x, s) = refl

-- The part of a handler behind its checks.
guarded :
    {A : Type 0} (bad : Bool) (r : Reply A) (f : FenceFault StoreError → Reply A) (env : FenceEnv)
    (e : Envelope) (fn : Store → Result StoreError A × Store) (s : Store)
    → (if bad then (r, s) else reply_of f (with_write_fence env e fn s)).1 ≢ s
    → HoldsLease env e
guarded true r f env e fn s changed = absurd (changed refl)
guarded false r f env e fn s changed =
    (changed_by_current env e fn s (λ q. changed (reply_of-store f _ ∙ q))).0

-- A call of a handler, whatever its request, that changes the store or its log is made by a process
-- that holds the lease of the request's authority at the request's epoch.
pub serve-HoldsLease :
    (env : FenceEnv) (w : Write) (e : Envelope) (command : Command) (s : Store)
    → serve env w e command s ≢ s
    → HoldsLease env e
unfolding create_handler transition_handler attach_evidence_handler
serve-HoldsLease env w e (creating task_id wc_id none) s changed = absurd (changed refl)
serve-HoldsLease env w e (creating task_id wc_id (some q)) s changed =
    guarded _ _ _ env e _ s changed
serve-HoldsLease env w e (transitioning none) s changed = absurd (changed refl)
serve-HoldsLease env w e (transitioning (some q)) s changed =
    elim (Option-cases q.expected_version) [
      | inl missing ↦ absurd ((rw (missing, transition_handler) at changed) refl)
      | inr (version, given) ↦ guarded _ _ _ env e _ s (rw (given, transition_handler) at changed)
    ]
serve-HoldsLease env w e (attaching ev_id now none) s changed = absurd (changed refl)
serve-HoldsLease env w e (attaching ev_id now (some q)) s changed =
    elim (Option-cases q.expected_version) [
      | inl missing ↦ absurd ((rw (missing, attach_evidence_handler) at changed) refl)
      | inr (version, given) ↦
          guarded _ _ _ env e _ s (rw (given, attach_evidence_handler) at changed)
    ]
