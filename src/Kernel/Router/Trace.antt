-- ===== src/Kernel/Router/Trace.antt =====
-- Requests that begin and end in any order, among all else that changes the router.
use agent_native_os.Prelude.{
  ℕ, String, Bool, ◌≡◌, refl, sym, inl, inr, List, ◌∷◌, ◌==◌, text_comparable, Bool-cases, arith,
  subst,
}
use agent_native_os.Prelude.Map.{lookup, lookup-insert, lookup-erase}
use agent_native_os.Prelude.Result.{ok, bind_ok}
use agent_native_os.Kernel.Protocol.{Envelope, validate_envelope}
use agent_native_os.Kernel.Registry.State.{Provider, Registry}
use agent_native_os.Kernel.Registry.Fence.{Disk}
use agent_native_os.Kernel.Authz.Engine.{Engine}
use agent_native_os.Kernel.Router.State.{Router, new, Host}
use agent_native_os.Kernel.Router.Invoke.{
  Origin, Deadline, Authority, Ending, calling, checked, identify, admit, issued, stamp, open_call,
  close_call, begin, finish,
}
use agent_native_os.Kernel.Router.Streams.{add_client, remove_client, forward_stream}
use agent_native_os.Kernel.Router.Authority.{
  IsDerived, IsIssued, IsAdmitted, authority_of, authorize-IsAdmitted,
}
use agent_native_os.Kernel.Router.Opening.{begin-IsOpened, begin-router}

module _ (auth : Engine) where
  -- One event. The registry and the files may change in any way.
  pub data Step : Host → Host → Type 0 where
    begins :
        (io : Bool) (deadline : Deadline) (fresh : String) (o : Origin) (req : Envelope) (h : Host)
        → Step h (begin auth io deadline fresh o req h).1
    finishes :
        (ending : Ending) (o : Origin) (req : Envelope) (p : Provider) (fresh : String) (h : Host)
        → Step h (finish ending o req p fresh h).1
    connects :
        (runtime_id plugin_id : String) (h : Host)
        → Step h (record h { router = add_client runtime_id plugin_id h.router })
    disconnects :
        (runtime_id : String) (h : Host)
        → Step h (record h { router = (remove_client runtime_id h.router).1 })
    forwards :
        (taken : Bool) (runtime_id : String) (e : Envelope) (h : Host)
        → Step h (record h { router = (forward_stream taken runtime_id e h.router).1 })
    moves :
        (reg : Registry) (disk : Disk) (h : Host)
        → Step h (record h { registry = reg; disk = disk })

  -- A host that has come from a new router.
  pub data Reach : Host → Type 0 where
    start :
        (reg : Registry) (disk : Disk)
        → Reach (record { router = new; registry = reg; disk = disk })
    next : {h h' : Host} → Reach h → Step h h' → Reach h'

  admit-IsAdmitted :
      (o : Origin) (req : Envelope) (h : Host) (a : Authority)
      → IsIssued auth h.router
      → admit auth o req h ≡ ok a
      → IsDerived auth a × IsAdmitted auth o req h.registry a.principal
  unfolding admit
  admit-IsAdmitted o req h a issued e =
      let (_, _, named) = bind_ok (checked (validate_envelope req)) _ e in
      let (a0, found, allowed) = bind_ok (identify auth o req h.router) _ named in
      authorize-IsAdmitted auth o req h.router h.registry a0 a issued found allowed

  open_call-IsIssued :
      (o : Origin) (a : Authority) (p : Provider) (fresh : String) (req : Envelope) (r : Router)
      → IsDerived auth a
      → IsIssued auth r
      → IsIssued auth (open_call o a p fresh req r)
  unfolding open_call
  open_call-IsIssued o a p fresh req r derived old id d e = elim (Bool-cases (fresh == id)) [
    | inl same ↦
        let this : issued a p ≡ d = cc (rw (lookup-insert, same) at e) in
        subst (λ x. IsDerived auth (authority_of x)) this derived
    | inr other ↦ old id d (rw (lookup-insert, other) at e)
  ]

  close_call-IsIssued :
      (o : Origin) (req : Envelope) (fresh : String) (r : Router)
      → IsIssued auth r
      → IsIssued auth (close_call o req fresh r)
  unfolding close_call
  close_call-IsIssued o req fresh r old id d e = elim (Bool-cases (fresh == id)) [
    | inl same ↦ absurd (cc (rw (lookup-erase, same) at e))
    | inr other ↦ old id d (rw (lookup-erase, other) at e)
  ]

  -- A stream's frame changes no delegation.
  forward_stream-delegations :
      (taken : Bool) (runtime_id : String) (e : Envelope) (r : Router)
      → (forward_stream taken runtime_id e r).1.delegations ≡ r.delegations
  unfolding forward_stream
  forward_stream-delegations taken runtime_id e r = ground arith

  begin-IsIssued :
      (io : Bool) (deadline : Deadline) (fresh : String) (o : Origin) (req : Envelope) (h : Host)
      → IsIssued auth h.router
      → IsIssued auth (begin auth io deadline fresh o req h).1.router
  begin-IsIssued io deadline fresh o req h old =
      elim (begin-router o fresh req auth io deadline h) [
        | inl same ↦ subst (IsIssued auth) (sym same) old
        | inr (a, p, as_a, tables) ↦ subst (IsIssued auth) (sym tables) (
            open_call-IsIssued o a p fresh req h.router (admit-IsAdmitted o req h a old as_a).0 old)
      ]

  Step-IsIssued : {h h' : Host} → Step h h' → IsIssued auth h.router → IsIssued auth h'.router
  unfolding finish add_client remove_client
  Step-IsIssued (begins io deadline fresh o req h) old =
      begin-IsIssued io deadline fresh o req h old
  Step-IsIssued (finishes ending o req p fresh h) old = close_call-IsIssued o req fresh h.router old
  Step-IsIssued (connects runtime_id plugin_id h) old = old
  Step-IsIssued (disconnects runtime_id h) old = old
  Step-IsIssued (forwards taken runtime_id e h) old =
      λ id d q. old id d (rw (forward_stream-delegations taken runtime_id e h.router) at q)
  Step-IsIssued (moves reg disk h) old = old

  Reach-IsIssued : {h : Host} → Reach h → IsIssued auth h.router
  unfolding lookup
  Reach-IsIssued (start reg disk) = λ id d e. cc
  Reach-IsIssued (next r s) = Step-IsIssued s (Reach-IsIssued r)

  -- What a provider is sent in a call: the principal heads the actors, and is the caller, or is
  -- entitled to the capability; the caller may make the call.
  pub record IsAuthorized (o : Origin) (req : Envelope) (reg : Registry) (sent : Envelope)
      : Type 0 where
    pub others : List String
    pub headed : sent.actor_chain ≡ sent.principal ∷ others
    pub admitted : IsAdmitted auth o req reg sent.principal
    pub same_capability : sent.capability ≡ req.capability
    pub same_major : sent.major ≡ req.major

  -- No confused deputy: in every host that a new router reaches, whatever requests are open and
  -- whatever a request says of itself, a call that reaches a provider is one that the policy
  -- allows. A client is granted the capability. A plugin declares that it consumes it and is
  -- granted it, and makes the call for itself or for the principal whose request it serves; then
  -- the principal is granted the capability, or is granted some capability for which the policy
  -- delegates this one to it. The principal is the first of the actors that the provider is told.
  pub begin-IsAuthorized :
      (h : Host) (io : Bool) (deadline : Deadline) (fresh : String) (o : Origin) (req : Envelope)
      (p : Provider) (sent : Envelope) (timeout : ℕ)
      → Reach h
      → (begin auth io deadline fresh o req h).0 ≡ calling p sent timeout
      → IsAuthorized o req h.registry sent
  unfolding stamp
  begin-IsAuthorized h io deadline fresh o req p sent timeout reach e =
      let opened = begin-IsOpened o fresh req auth io deadline h p sent timeout e in
      let a = opened.authority in
      let (derived, admitted) =
        admit-IsAdmitted o req h a (Reach-IsIssued reach) opened.admitted_as in
      subst (IsAuthorized o req h.registry) (sym opened.stamped) (record {
        others = derived.rest;
        headed = derived.headed;
        admitted = admitted;
        same_capability = refl;
        same_major = refl;
      })
