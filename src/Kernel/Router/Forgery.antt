-- ===== src/Kernel/Router/Forgery.antt =====
-- The host's metadata do not depend on what a request says of itself.
use agent_native_os.Prelude.{
  ℕ, String, Bool, ◌≡◌, refl, ap, ◌∙◌, inl, inr, Option, none, some, List, text_comparable,
  Bool-cases, Option-cases, arith,
}
use agent_native_os.Prelude.Map.{lookup}
use agent_native_os.Prelude.Result.{Result, ok, err, ◌>>=◌}
use agent_native_os.Kernel.Protocol.{Kind, Envelope, validate_kind, validate_envelope}
use agent_native_os.Kernel.Contracts.{Metadata, metadata}
use agent_native_os.Kernel.Manifest.{Manifest}
use agent_native_os.Kernel.Registry.State.{Provider}
use agent_native_os.Kernel.Registry.Runtimes.{manifest}
use agent_native_os.Kernel.Registry.Resolve.{Outcome}
use agent_native_os.Kernel.Authz.Engine.{Engine}
use agent_native_os.Kernel.Router.State.{Router, Host}
use agent_native_os.Kernel.Router.Invoke.{
  Origin, Deadline, Authority, RouteError, checked, consumed, identify, authorize, admit, admitted,
  routed, dispatch, called, timeout_of, wrong_kind, begin, stamp, open_call,
}

-- What a request may claim of its origin.
pub record Claims : Type 0 where
  pub caller : String
  pub principal : String
  pub actor_chain : List String
  pub reply_runtime : String
  pub contract : String

abbrev pub forge : Claims → Envelope → Envelope
forge c req = record req {
  caller = c.caller;
  principal = c.principal;
  actor_chain = c.actor_chain;
  reply_runtime = c.reply_runtime;
  contract = c.contract;
}

bind_same :
    {E A B : Type 0} (r : Result E A) (f g : A → Result E B)
    → ((a : A) → f a ≡ g a)
    → (r >>= f) ≡ (r >>= g)
bind_same (ok a) f g h = h a
bind_same (err e) f g h = refl

module _ (c : Claims) (req : Envelope) where
  validate_kind-forge : (k : Kind) → validate_kind k (forge c req) ≡ validate_kind k req
  validate_kind-forge k = ground arith

  validate_envelope-forge : validate_envelope (forge c req) ≡ validate_envelope req
  unfolding validate_envelope
  validate_envelope-forge = rw (validate_kind-forge req.kind)

  module _ (auth : Engine) (o : Origin) where
    consumed-forge :
        (a : Authority) (m : Option Manifest)
        → consumed auth o (forge c req) a m ≡ consumed auth o req a m
    consumed-forge a none = refl
    consumed-forge a (some m) = refl

    authorize-forge :
        (h : Host) (a : Authority)
        → authorize auth o (forge c req) h.registry a ≡ authorize auth o req h.registry a
    unfolding authorize
    authorize-forge h a = rw (consumed-forge a (manifest o.identity h.registry))

    admit-forge : (h : Host) → admit auth o (forge c req) h ≡ admit auth o req h
    unfolding admit identify
    admit-forge h = rw validate_envelope-forge (
        bind_same (checked (validate_envelope req)) _ _
          (λ _. bind_same (identify auth o req h.router) _ _ (λ a. authorize-forge h a)))

  module _ (deadline : Deadline) (fresh : String) (o : Origin) where
    wrong_kind-forge : (m : Option Metadata) → wrong_kind (forge c req) m ≡ wrong_kind req m
    wrong_kind-forge none = refl
    wrong_kind-forge (some m) = refl

    called-forge :
        (a : Authority) (p : Provider) (h : Host) (t : Result RouteError ℕ)
        → called o a p fresh (forge c req) h t ≡ called o a p fresh req h t
    unfolding stamp open_call
    called-forge a p h (ok timeout) = refl
    called-forge a p h (err e) = refl

    dispatch-forge :
        (a : Authority) (p : Provider) (h : Host)
        → dispatch deadline fresh o a p (forge c req) h ≡ dispatch deadline fresh o a p req h
    unfolding dispatch
    dispatch-forge a p h =
        let m = metadata h.registry.contracts p.export.contract in
        let same = wrong_kind-forge m in
        elim (Bool-cases (wrong_kind req m)) [
          | inl wrong ↦ rw (same ∙ wrong, dispatch)
          | inr right ↦ elim (Option-cases (lookup p.runtime_id h.router.clients)) [
            | inl gone ↦ rw (same ∙ right, gone, dispatch)
            | inr (plugin, there) ↦
                rw (same ∙ right, there, dispatch) (called-forge a p h (timeout_of deadline))
          ]
        ]

    routed-forge :
        (a : Authority) (r : Router) (out : Outcome)
        → routed deadline fresh o (forge c req) a r out ≡ routed deadline fresh o req a r out
    routed-forge a r (ok p, reg, disk) = dispatch-forge a p _
    routed-forge a r (err e, reg, disk) = refl

    admitted-forge :
        (io : Bool) (h : Host) (m : Result RouteError Authority)
        → admitted io deadline fresh o (forge c req) h m ≡ admitted io deadline fresh o req h m
    admitted-forge io h (ok a) = routed-forge a h.router _
    admitted-forge io h (err e) = refl

    -- What a request says of its caller, its principal, its actors, its contract and where the
    -- answer goes has no effect: the host's decision, what it sends to the provider, and its tables
    -- are the same.
    pub begin-forge :
        (auth : Engine) (io : Bool) (h : Host)
        → begin auth io deadline fresh o (forge c req) h ≡ begin auth io deadline fresh o req h
    unfolding begin
    begin-forge auth io h =
        ap (admitted io deadline fresh o (forge c req) h) (admit-forge auth o h)
        ∙ admitted-forge io h (admit auth o req h)
