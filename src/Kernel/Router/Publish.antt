-- ===== src/Kernel/Router/Publish.antt =====
-- publishEnvelope of kernel/internal/router/router.go.
use agent_native_os.Prelude.{
  String, Bool, true, false, not, ◌≡◌, refl, inl, inr, Option, none, some, List, [], ◌∷◌, ◌++◌,
  ◌==◌, text_comparable, if◌then◌else◌, Bool-cases, Option-cases, All, arith, subst,
}
use mathlib.Core.List.{Memᴰ}
use agent_native_os.Prelude.Map.{Map, lookup}
use agent_native_os.Prelude.Result.{Result, ok, err, ◌>>=◌, ◌>>◌, bind_ok}
use agent_native_os.Kernel.Protocol.{Envelope}
use agent_native_os.Kernel.Manifest.{Manifest}
use agent_native_os.Kernel.Registry.State.{Registry}
use agent_native_os.Kernel.Registry.Runtimes.{manifest}
use agent_native_os.Kernel.Authz.Engine.{Engine, can_publish, can_subscribe, can_invoke_as_service}
use agent_native_os.Kernel.Router.State.{Delegation, Router, process, Sent}

pub data PublishError : Type 0 where
  unknown_caller not_publishable delegation_required invalid_delegation : PublishError

-- The principal and the actors of an event.
pub record Provenance : Type 0 where
  pub principal : String
  pub actor_chain : List String

abbrev its_own : String → Provenance
its_own plugin = record { principal = plugin; actor_chain = plugin ∷ [] }

abbrev lent : String → String → Option Delegation → Result PublishError Provenance
lent runtime plugin none = err invalid_delegation
lent runtime plugin (some d) =
    if not (d.runtime_id == runtime)
    then err invalid_delegation
    else ok (record { principal = d.principal; actor_chain = d.actor_chain ++ plugin ∷ [] })

unfoldable pub provenance :
    Engine → String → String → Envelope → Router → Result PublishError Provenance
provenance auth runtime plugin e r =
    if runtime == ""
    then ok (its_own plugin)
    else if e.delegation_id == ""
    then (if can_invoke_as_service plugin auth
        then ok (its_own plugin)
        else err delegation_required)
    else lent runtime plugin (lookup e.delegation_id r.delegations)

abbrev may_publish : Engine → Envelope → Option Manifest → Result PublishError (Unit {0})
may_publish auth e none = err unknown_caller
may_publish auth e (some m) =
    if can_publish m e.capability e.major auth then ok tt else err not_publishable

abbrev pub published : String → Provenance → Envelope → Envelope
published plugin p e = record e {
  caller = plugin;
  principal = p.principal;
  actor_chain = p.actor_chain;
}

abbrev pub subscribed : Engine → Envelope → Option Manifest → Bool
subscribed auth e none = false
subscribed auth e (some m) = can_subscribe m e.capability e.major auth

-- The loop over the clients. Whether a process takes the event has no effect on the others.
unfoldable pub fan_out : Engine → Envelope → Registry → Map String String → List Sent
fan_out auth e reg [] = []
fan_out auth e reg ((runtime_id, plugin_id) ∷ rest) =
    let others = fan_out auth e reg rest in
    if subscribed auth e (manifest plugin_id reg)
    then record { target = process runtime_id; envelope = e } ∷ others
    else others

unfoldable pub publish_envelope :
    Engine → String → String → Envelope → Registry → Router → Result PublishError (List Sent)
unfolding provenance fan_out
publish_envelope auth runtime plugin e reg r = do
  may_publish auth e (manifest plugin reg)
  p ← provenance auth runtime plugin e r
  ok (fan_out auth (published plugin p e) reg r.clients)

-- A message that a subscriber gets.
pub record IsDelivered (auth : Engine) (plugin : String) (e : Envelope) (reg : Registry)
    (r : Router) (s : Sent) : Type 0 where
  pub runtime_id : String
  pub subscriber : String
  pub m : Manifest
  pub to : s.target ≡ process runtime_id
  pub connected : Memᴰ (runtime_id, subscriber) r.clients
  pub known : manifest subscriber reg ≡ some m
  pub allowed : can_subscribe m e.capability e.major auth ≡ true
  pub from : s.envelope.caller ≡ plugin

module _ (auth : Engine) (plugin : String) (e : Envelope) (reg : Registry) (r : Router) where
  fan_out-IsDelivered :
      (p : Provenance) (clients : Map String String)
      → ((x : String × String) → Memᴰ x clients → Memᴰ x r.clients)
      → All (IsDelivered auth plugin e reg r) (fan_out auth (published plugin p e) reg clients)
  unfolding fan_out
  fan_out-IsDelivered p [] within = tt
  fan_out-IsDelivered p ((runtime_id, plugin_id) ∷ rest) within =
      let others = fan_out-IsDelivered p rest (λ x m. within x (Memᴰ.tail m)) in
      elim (Option-cases (manifest plugin_id reg)) [
        | inl unknown ↦ rw unknown others
        | inr (m, known) ↦ elim (Bool-cases (can_subscribe m e.capability e.major auth)) [
          | inr denied ↦ rw (known, denied) others
          | inl allowed ↦
              rw (known, allowed)
                (
                  record {
                    runtime_id = runtime_id;
                    subscriber = plugin_id;
                    m = m;
                    to = refl;
                    connected = within (runtime_id, plugin_id) (Memᴰ.head refl);
                    known = known;
                    allowed = allowed;
                    from = refl;
                  },
                  others,
                )
        ]
      ]

  -- If an event is published, its plugin is known, declares it and is granted it, and each message
  -- goes to the process of a connected plugin that declares its subscription and is granted it,
  -- and names the publishing plugin as its caller, whatever the event said of itself.
  pub publish-IsDelivered :
      (runtime : String) (sent : List Sent)
      → publish_envelope auth runtime plugin e reg r ≡ ok sent
      → ((m : Manifest) × (manifest plugin reg ≡ some m)
          × (can_publish m e.capability e.major auth ≡ true))
        × All (IsDelivered auth plugin e reg r) sent
  unfolding publish_envelope
  publish-IsDelivered runtime sent q =
      let (_, may, named) = bind_ok (may_publish auth e (manifest plugin reg)) _ q in
      let (p, found, all) = bind_ok (provenance auth runtime plugin e r) _ named in
      let same : fan_out auth (published plugin p e) reg r.clients ≡ sent = cc in
      (
        permitted (manifest plugin reg) refl may,
        subst (All (IsDelivered auth plugin e reg r)) same
            (fan_out-IsDelivered p r.clients (λ x m. m)),
      )
    where
      permitted :
          (x : Option Manifest)
          → manifest plugin reg ≡ x
          → may_publish auth e x ≡ ok tt
          → (m : Manifest) × (manifest plugin reg ≡ some m)
            × (can_publish m e.capability e.major auth ≡ true)
      permitted none known ok_tt = cc
      permitted (some m) known ok_tt = (m, known, ground arith)
