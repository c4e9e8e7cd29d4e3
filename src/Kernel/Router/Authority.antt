-- ===== src/Kernel/Router/Authority.antt =====
-- On whose authority a call is made.
use agent_native_os.Prelude.{
  ℕ, String, true, false, not, ◌||◌, ◌≡◌, refl, ap, ◌∙◌, inl, inr, ◌⊎◌, Option, none, some, List,
  [], ◌∷◌, ◌++◌, ◌==◌, text_comparable, str_eq_iff, Bool-cases, subst,
}
use agent_native_os.Prelude.Map.{lookup}
use agent_native_os.Prelude.Result.{Result, ok}
use agent_native_os.Kernel.Protocol.{Envelope}
use agent_native_os.Kernel.Manifest.{Manifest}
use agent_native_os.Kernel.Registry.State.{Registry}
use agent_native_os.Kernel.Registry.Runtimes.{manifest}
use agent_native_os.Kernel.Authz.Engine.{
  Engine, can_consume, can_external, can_invoke_as_service, delegation_scope, scope_allows, granted,
}
use agent_native_os.Kernel.Router.State.{Delegation, Router}
use agent_native_os.Kernel.Router.Invoke.{
  Origin, RouteError, Authority, own, delegated, identify, consumed, authorize,
}

-- Where an authority comes from: its principal heads the chain of actors, and its scope is empty or
-- what the policy gives the principal for a capability that the principal itself is granted.
pub record IsDerived (auth : Engine) (a : Authority) : Type 0 where
  pub rest : List String
  pub headed : a.actor_chain ≡ a.principal ∷ rest
  pub root :
      (a.scope ≡ [])
      ⊎ ((name : String) × (major : ℕ) × (granted a.principal name major auth ≡ true)
          × (a.scope ≡ delegation_scope a.principal name major auth))

abbrev pub authority_of : Delegation → Authority
authority_of d = record { principal = d.principal; actor_chain = d.actor_chain; scope = d.scope }

-- Every delegation of the router is derived.
abbrev pub IsIssued : Engine → Router → Type 0
IsIssued auth r =
    (id : String) (d : Delegation)
    → lookup id r.delegations ≡ some d
    → IsDerived auth (authority_of d)

-- What entitles a principal to a capability: its own grant, or the scope of a capability that it is
-- granted.
abbrev pub IsEntitled : Engine → String → String → ℕ → Type 0
IsEntitled auth principal capability major =
    (granted principal capability major auth ≡ true)
    ⊎ ((name : String) × (root : ℕ) × (granted principal name root auth ≡ true)
        × (scope_allows (delegation_scope principal name root auth) capability major ≡ true))

-- A call that is admitted: a plugin may consume the capability, and makes the call for itself or
-- for a principal that is entitled to it; a client is granted it.
pub record IsAdmitted (auth : Engine) (o : Origin) (req : Envelope) (reg : Registry)
    (principal : String) : Type 0 where
  pub consumer :
      o.is_plugin ≡ true
      → (m : Manifest) × (manifest o.identity reg ≡ some m)
        × (can_consume m req.capability req.major auth ≡ true)
  pub client :
      o.is_plugin ≡ false
      → (principal ≡ o.identity) × (granted principal req.capability req.major auth ≡ true)
  pub entitled : (principal ≡ o.identity) ⊎ IsEntitled auth principal req.capability req.major

module _ (auth : Engine) (o : Origin) (req : Envelope) where
  own-IsDerived : IsDerived auth (own o)
  own-IsDerived = record { rest = []; headed = refl; root = inl refl }

  delegated-IsDerived :
      (r : Router) (a : Authority) (d : Option Delegation)
      → ((x : Delegation) → d ≡ some x → IsDerived auth (authority_of x))
      → delegated o d ≡ ok a
      → IsDerived auth a
  delegated-IsDerived r a none h e = cc
  delegated-IsDerived r a (some d) h e = elim (Bool-cases (d.runtime_id == o.runtime)) [
    | inr other ↦ absurd (cc (rw other at e))
    | inl same ↦
        let from = h d refl in
        let made : Authority = record {
          principal = d.principal;
          actor_chain = d.actor_chain ++ o.identity ∷ [];
          scope = d.scope;
        } in
        let result : made ≡ a = cc (rw same at e) in
        subst (IsDerived auth) result (record {
          rest = from.rest ++ o.identity ∷ [];
          headed = ap (λ chain. chain ++ o.identity ∷ []) from.headed;
          root = from.root;
        })
  ]

  own_result :
      (a : Authority) → ◌≡◌ {A = Result RouteError Authority} (ok (own o)) (ok a) → IsDerived auth a
  own_result a e = let result : own o ≡ a = cc in subst (IsDerived auth) result own-IsDerived

  pub identify-IsDerived :
      (r : Router) (a : Authority)
      → IsIssued auth r
      → identify auth o req r ≡ ok a
      → IsDerived auth a
  unfolding identify
  identify-IsDerived r a h e = elim (Bool-cases (not o.is_plugin || o.runtime == "")) [
    | inl host ↦ own_result a (rw host at e)
    | inr process ↦ elim (Bool-cases (req.delegation_id == "")) [
      | inr given ↦
          delegated-IsDerived r a (lookup req.delegation_id r.delegations) (h req.delegation_id)
            (rw (process, given) at e)
      | inl missing ↦ elim (Bool-cases (can_invoke_as_service o.identity auth)) [
        | inl service ↦ own_result a (rw (process, missing, service) at e)
        | inr denied ↦ absurd (cc (rw (process, missing, denied) at e))
      ]
    ]
  ]

  -- The principal of a client is the client.
  identify-client :
      (r : Router) (a : Authority) → o.is_plugin ≡ false → identify auth o req r ≡ ok a → own o ≡ a
  unfolding identify
  identify-client r a outside e = cc (rw outside at e)

  scope-IsEntitled :
      (a : Authority)
      → IsDerived auth a
      → scope_allows a.scope req.capability req.major ≡ true
      → IsEntitled auth a.principal req.capability req.major
  unfolding scope_allows
  scope-IsEntitled a d e = elim d.root [
    | inl empty ↦ absurd (cc (rw empty at e))
    | inr (name, root, direct, from) ↦ inr (name, root, direct, rw (← from) e)
  ]

  plugin-IsAdmitted :
      (reg : Registry) (m : Manifest) (principal : String)
      → manifest o.identity reg ≡ some m
      → o.is_plugin ≡ true
      → can_consume m req.capability req.major auth ≡ true
      → (principal ≡ o.identity) ⊎ IsEntitled auth principal req.capability req.major
      → IsAdmitted auth o req reg principal
  plugin-IsAdmitted reg m principal known plugin consumes entitled = record {
    consumer = λ _. (m, known, consumes);
    client = λ outside. cc;
    entitled = entitled;
  }

  consumed-IsAdmitted :
      (reg : Registry) (a a' : Authority) (m : Option Manifest)
      → manifest o.identity reg ≡ m
      → IsDerived auth a
      → o.is_plugin ≡ true
      → consumed auth o req a m ≡ ok a'
      → (a ≡ a') × IsAdmitted auth o req reg a.principal
  consumed-IsAdmitted reg a a' none q d plugin e = cc
  consumed-IsAdmitted reg a a' (some m) q d plugin e =
      elim (Bool-cases (can_consume m req.capability req.major auth)) [
        | inr denied ↦ absurd (cc (rw denied at e))
        | inl consumes ↦
            let admitted = plugin-IsAdmitted reg m a.principal q plugin consumes in
            elim (Bool-cases (a.principal == o.identity)) [
              | inl itself ↦ (
                cc (rw (consumes, itself) at e),
                admitted (inl ((str_eq_iff a.principal o.identity).0 itself)),
              )
              | inr other ↦
                  elim (Bool-cases (can_external a.principal req.capability req.major auth)) [
                    | inl direct ↦ (
                      cc (rw (consumes, other, direct) at e),
                      admitted (inr (inl (unfold can_external in direct))),
                    )
                    | inr indirect ↦
                        elim (Bool-cases (scope_allows a.scope req.capability req.major)) [
                          | inl scoped ↦ (
                            cc (rw (consumes, other, indirect, scoped) at e),
                            admitted (inr (scope-IsEntitled a d scoped)),
                          )
                          | inr unscoped ↦
                              absurd (cc (rw (consumes, other, indirect, unscoped) at e))
                        ]
                  ]
            ]
      ]

  client-IsAdmitted :
      (reg : Registry) (a a' : Authority)
      → o.is_plugin ≡ false
      → can_external o.identity req.capability req.major auth ≡ true
      → own o ≡ a
      → record a { scope = delegation_scope o.identity req.capability req.major auth } ≡ a'
      → IsDerived auth a' × IsAdmitted auth o req reg a'.principal
  unfolding can_external
  client-IsAdmitted reg a a' outside direct mine made =
      let scope = delegation_scope o.identity req.capability req.major auth in
      let result : record (own o) { scope = scope } ≡ a' =
        ap {A = Authority} {B = Authority} (λ x. record x { scope = scope }) mine ∙ made in
      let derived : IsDerived auth (record (own o) { scope = scope }) = record {
        rest = [];
        headed = refl;
        root = inr (req.capability, req.major, direct, refl);
      } in
      let admitted : IsAdmitted auth o req reg o.identity = record {
        consumer = λ plugin. cc;
        client = λ _. (refl, direct);
        entitled = inl refl;
      } in
      (
        subst (IsDerived auth) result derived,
        subst (λ x. IsAdmitted auth o req reg x.principal) result admitted,
      )

  pub authorize-IsAdmitted :
      (r : Router) (reg : Registry) (a a' : Authority)
      → IsIssued auth r
      → identify auth o req r ≡ ok a
      → authorize auth o req reg a ≡ ok a'
      → IsDerived auth a' × IsAdmitted auth o req reg a'.principal
  unfolding authorize
  authorize-IsAdmitted r reg a a' issued found e = elim (Bool-cases o.is_plugin) [
    | inl plugin ↦
        let d = identify-IsDerived r a issued found in
        let (same, admitted) =
          consumed-IsAdmitted reg a a' (manifest o.identity reg) refl d plugin (rw plugin at e) in
        (
          subst (IsDerived auth) same d,
          subst (λ x. IsAdmitted auth o req reg x.principal) same admitted,
        )
    | inr outside ↦
        let mine = identify-client r a outside found in
        elim (Bool-cases (can_external o.identity req.capability req.major auth)) [
          | inr denied ↦ absurd (cc (rw (outside, denied) at e))
          | inl direct ↦
              client-IsAdmitted reg a a' outside direct mine (cc (rw (outside, direct) at e))
        ]
  ]
