-- ===== src/Kernel/Router/Opening.antt =====
-- What a request leaves in the router's tables, and what its provider is sent.
use agent_native_os.Prelude.{
  ℕ, String, Bool, ◌≡◌, refl, inl, inr, ◌⊎◌, text_comparable, Bool-cases, Option-cases, subst,
}
use agent_native_os.Prelude.Map.{lookup}
use agent_native_os.Prelude.Result.{Result, ok, err}
use agent_native_os.Kernel.Protocol.{Envelope}
use agent_native_os.Kernel.Contracts.{metadata}
use agent_native_os.Kernel.Registry.State.{Provider}
use agent_native_os.Kernel.Registry.Resolve.{Outcome}
use agent_native_os.Kernel.Authz.Engine.{Engine}
use agent_native_os.Kernel.Router.State.{Router, Host}
use agent_native_os.Kernel.Router.Invoke.{
  Origin, Deadline, RouteError, Authority, Begun, calling, stamp, open_call, wrong_kind, timeout_of,
  called, dispatch, routed, admitted, admit, begin,
}

abbrev IsStopped : Begun → Type 0
IsStopped (calling p sent timeout) = ⊥
IsStopped _ = Unit

module _ (o : Origin) (fresh : String) (req : Envelope) where
  -- A request is stopped and opens nothing, or its call is open for an authority.
  abbrev Opens : Authority → Router → Begun × Host → Type 0
  Opens a r (b, h) =
      (IsStopped b × (h.router ≡ r))
      ⊎ ((p : Provider) × (timeout : ℕ) × (b ≡ calling p (stamp o a p fresh req) timeout)
          × (h.router ≡ open_call o a p fresh req r))

  called-Opens :
      (a : Authority) (p : Provider) (h : Host) (t : Result RouteError ℕ)
      → Opens a h.router (called o a p fresh req h t)
  called-Opens a p h (ok timeout) = inr (p, timeout, refl, refl)
  called-Opens a p h (err e) = inl (tt, refl)

  dispatch-Opens :
      (deadline : Deadline) (a : Authority) (p : Provider) (h : Host)
      → Opens a h.router (dispatch deadline fresh o a p req h)
  unfolding dispatch
  dispatch-Opens deadline a p h =
      elim (Bool-cases (wrong_kind req (metadata h.registry.contracts p.export.contract))) [
        | inl wrong ↦ rw (wrong, dispatch) (inl (tt, refl))
        | inr right ↦ elim (Option-cases (lookup p.runtime_id h.router.clients)) [
          | inl gone ↦ rw (right, gone, dispatch) (inl (tt, refl))
          | inr (plugin, there) ↦
              rw (right, there, dispatch) (called-Opens a p h (timeout_of deadline))
        ]
      ]

  routed-Opens :
      (deadline : Deadline) (a : Authority) (r : Router) (out : Outcome)
      → Opens a r (routed deadline fresh o req a r out)
  routed-Opens deadline a r (ok p, reg, disk) =
      dispatch-Opens deadline a p (record { router = r; registry = reg; disk = disk })
  routed-Opens deadline a r (err e, reg, disk) = inl (tt, refl)

  admitted-Opens :
      (io : Bool) (deadline : Deadline) (h : Host) (m : Result RouteError Authority)
      → (IsStopped (admitted io deadline fresh o req h m).0
          × ((admitted io deadline fresh o req h m).1.router ≡ h.router))
        ⊎ ((a : Authority) × (m ≡ ok a) × Opens a h.router (admitted io deadline fresh o req h m))
  admitted-Opens io deadline h (ok a) = inr (a, refl, routed-Opens deadline a h.router _)
  admitted-Opens io deadline h (err e) = inl (tt, refl)

  -- A call that is open: who is called and what it is sent, on whose authority, and the tables.
  pub record IsOpened (auth : Engine) (b : Begun × Host) (h : Host) (p : Provider) (sent : Envelope)
      : Type 0 where
    pub authority : Authority
    pub admitted_as : admit auth o req h ≡ ok authority
    pub stamped : sent ≡ stamp o authority p fresh req
    pub tables : b.1.router ≡ open_call o authority p fresh req h.router

  IsOpened-of :
      (auth : Engine) (h : Host) (a : Authority) (b : Begun × Host) (p : Provider) (sent : Envelope)
      (timeout : ℕ)
      → admit auth o req h ≡ ok a
      → Opens a h.router b
      → b.0 ≡ calling p sent timeout
      → IsOpened auth b h p sent
  IsOpened-of auth h a b p sent timeout as_a (inl (stop, same)) e = absurd (subst IsStopped e stop)
  IsOpened-of auth h a b p sent timeout as_a (inr (q, t, c, tables)) e =
      let same : p ≡ q = cc in
      record { authority = a; admitted_as = as_a; stamped = rw same (cc); tables = rw same tables }

  pub begin-IsOpened :
      (auth : Engine) (io : Bool) (deadline : Deadline) (h : Host) (p : Provider) (sent : Envelope)
      (timeout : ℕ)
      → (begin auth io deadline fresh o req h).0 ≡ calling p sent timeout
      → IsOpened auth (begin auth io deadline fresh o req h) h p sent
  unfolding begin
  begin-IsOpened auth io deadline h p sent timeout e =
      elim (admitted-Opens io deadline h (admit auth o req h)) [
        | inl (stop, same) ↦ absurd (subst IsStopped e stop)
        | inr (a, as_a, opens) ↦ IsOpened-of auth h a _ p sent timeout as_a opens e
      ]

  -- The tables after any request.
  pub begin-router :
      (auth : Engine) (io : Bool) (deadline : Deadline) (h : Host)
      → ((begin auth io deadline fresh o req h).1.router ≡ h.router)
        ⊎ ((a : Authority) × (p : Provider) × (admit auth o req h ≡ ok a)
            × ((begin auth io deadline fresh o req h).1.router
                ≡ open_call o a p fresh req h.router))
  unfolding begin
  begin-router auth io deadline h = elim (admitted-Opens io deadline h (admit auth o req h)) [
    | inl (stop, same) ↦ inl same
    | inr (a, as_a, inl (stop, same)) ↦ inl same
    | inr (a, as_a, inr (p, t, c, tables)) ↦ inr (a, p, as_a, tables)
  ]
