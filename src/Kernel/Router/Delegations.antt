-- ===== src/Kernel/Router/Delegations.antt =====
-- How a process proves on whose behalf it calls, and what it cannot claim.
use agent_native_os.Prelude.{
  ℕ, String, Bool, true, false, ◌≡◌, ◌≢◌, refl, sym, ap, inl, inr, ◌⊎◌, Option, none, some, List,
  [], ◌∷◌, ◌++◌, ◌==◌, text_comparable, str_eq_iff, Bool-cases, arith, subst,
}
use agent_native_os.Prelude.Map.{lookup, lookup-erase}
use agent_native_os.Prelude.Result.{ok, bind_ok}
use agent_native_os.Kernel.Protocol.{Envelope, validate_envelope}
use agent_native_os.Kernel.Manifest.{Manifest}
use agent_native_os.Kernel.Registry.State.{Provider}
use agent_native_os.Kernel.Registry.Runtimes.{manifest}
use agent_native_os.Kernel.Authz.Engine.{Engine, can_invoke_as_service}
use agent_native_os.Kernel.Router.State.{Delegation, Router, Host}
use agent_native_os.Kernel.Router.Invoke.{
  Origin, Deadline, Authority, Ending, invalid_delegation, declined, calling, checked, own,
  delegated, identify, authorize, consumed, admit, stamp, begin, finish, close_call,
}
use agent_native_os.Kernel.Router.Opening.{begin-IsOpened}

-- What backs an authority of a process: the policy lets it call as a service, for itself; or a
-- delegation that was given to this very process, whose principal it keeps.
abbrev pub IsBacked : Engine → Origin → Envelope → Router → String → List String → Type 0
IsBacked auth o req r principal chain =
    ((req.delegation_id ≡ "")
      × (can_invoke_as_service o.identity auth ≡ true)
      × (principal ≡ o.identity)
      × (chain ≡ o.identity ∷ []))
    ⊎ ((d : Delegation) × (lookup req.delegation_id r.delegations ≡ some d)
        × (d.runtime_id ≡ o.runtime)
        × (principal ≡ d.principal)
        × (chain ≡ d.actor_chain ++ o.identity ∷ []))

module _ (auth : Engine) (o : Origin) (req : Envelope) where
  delegated-IsBacked :
      (r : Router) (a : Authority) (d : Option Delegation)
      → lookup req.delegation_id r.delegations ≡ d
      → delegated o d ≡ ok a
      → IsBacked auth o req r a.principal a.actor_chain
  delegated-IsBacked r a none found e = cc
  delegated-IsBacked r a (some d) found e = elim (Bool-cases (d.runtime_id == o.runtime)) [
    | inr other ↦ absurd (cc (rw other at e))
    | inl same ↦
        let made : Authority = record {
          principal = d.principal;
          actor_chain = d.actor_chain ++ o.identity ∷ [];
          scope = d.scope;
        } in
        let result : made ≡ a = cc (rw same at e) in
        inr (
          d,
          found,
          (str_eq_iff d.runtime_id o.runtime).0 same,
          sym (ap (λ x. x.principal) result),
          sym (ap (λ x. x.actor_chain) result),
        )
  ]

  identify-IsBacked :
      (r : Router) (a : Authority)
      → o.is_plugin ≡ true
      → o.runtime ≢ ""
      → identify auth o req r ≡ ok a
      → IsBacked auth o req r a.principal a.actor_chain
  unfolding identify
  identify-IsBacked r a plugin running e =
      let process : (o.runtime == "") ≡ false = ground (arith, running, str_eq_iff o.runtime "") in
      elim (Bool-cases (req.delegation_id == "")) [
        | inr given ↦
            delegated-IsBacked r a (lookup req.delegation_id r.delegations) refl
              (rw (plugin, process, given) at e)
        | inl missing ↦ elim (Bool-cases (can_invoke_as_service o.identity auth)) [
          | inr denied ↦ absurd (cc (rw (plugin, process, missing, denied) at e))
          | inl service ↦
              let result : own o ≡ a = cc (rw (plugin, process, missing, service) at e) in
              inl (
                (str_eq_iff req.delegation_id "").0 missing,
                service,
                sym (ap (λ x. x.principal) result),
                sym (ap (λ x. x.actor_chain) result),
              )
        ]
      ]

  consumed_same :
      (a a' : Authority) (m : Option Manifest) → consumed auth o req a m ≡ ok a' → a ≡ a'
  consumed_same a a' none e = cc
  consumed_same a a' (some m) e = ground arith

  -- A process whose call reaches a provider has called as a service, which the policy lets its plugin
  -- do, and the provider is told that it acts for itself; or it has given a delegation that the host
  -- made for this very process, and the provider is told the delegation's principal and its
  -- actors, with the process's plugin behind them.
  pub begin-IsBacked :
      (io : Bool) (deadline : Deadline) (fresh : String) (h : Host) (p : Provider) (sent : Envelope)
      (timeout : ℕ)
      → o.is_plugin ≡ true
      → o.runtime ≢ ""
      → (begin auth io deadline fresh o req h).0 ≡ calling p sent timeout
      → IsBacked auth o req h.router sent.principal sent.actor_chain
  unfolding admit authorize stamp
  begin-IsBacked io deadline fresh h p sent timeout plugin running e =
      let opened = begin-IsOpened o fresh req auth io deadline h p sent timeout e in
      let a = opened.authority in
      let (_, _, named) = bind_ok (checked (validate_envelope req)) _ opened.admitted_as in
      let (a0, found, allowed) = bind_ok (identify auth o req h.router) _ named in
      let same = consumed_same a0 a (manifest o.identity h.registry) (rw plugin at allowed) in
      let backed = identify-IsBacked h.router a0 plugin running found in
      subst (λ s. IsBacked auth o req h.router s.principal s.actor_chain) (sym opened.stamped)
        (subst (λ x. IsBacked auth o req h.router x.principal x.actor_chain) same backed)

-- Once a call has ended, its delegation is of no use: a process that gives it with a valid request is
-- declined, and nothing changes.
pub ended_delegation_declined :
    (auth : Engine) (ending : Ending) (o o' : Origin) (req req' : Envelope) (p : Provider)
    (fresh fresh' : String) (h : Host) (io : Bool) (deadline : Deadline)
    → o'.is_plugin ≡ true
    → o'.runtime ≢ ""
    → fresh ≢ ""
    → req'.delegation_id ≡ fresh
    → validate_envelope req' ≡ ok tt
    → let h' = (finish ending o req p fresh h).1 in
      begin auth io deadline fresh' o' req' h' ≡ (declined invalid_delegation, h')
unfolding begin admit identify finish close_call
ended_delegation_declined auth ending o o' req req' p fresh fresh' h io deadline plugin running
      named same valid =
    let process : (o'.runtime == "") ≡ false = ground (arith, running, str_eq_iff o'.runtime "") in
    let given : (fresh == "") ≡ false = ground (arith, named, str_eq_iff fresh "") in
    rw (valid, plugin, process, same, given, lookup-erase, (str_eq_iff fresh fresh).1 refl)
