-- ===== src/Kernel/Router/Invoke.antt =====
-- invoke of kernel/internal/router/router.go, in two parts: up to the call of the provider, and what
-- is done with its answer. Other requests are served between the two.
use agent_native_os.Prelude.{
  ℕ, zero, suc, String, Bool, false, not, ◌&&◌, ◌||◌, Option, none, some, List, [], ◌∷◌, ◌++◌, ◌==◌,
  text_comparable, if◌then◌else◌,
}
use agent_native_os.Prelude.Map.{lookup, insert, erase}
use agent_native_os.Prelude.Result.{Result, ok, err, ◌>>=◌, ◌>>◌}
use agent_native_os.Kernel.Protocol.{
  Envelope, EnvelopeError, validate_envelope, command, cancel, Kind-Comparable,
}
use agent_native_os.Kernel.Manifest.{Manifest}
use agent_native_os.Kernel.Contracts.{Metadata, metadata}
use agent_native_os.Kernel.Registry.State.{Provider, Key, Registry}
use agent_native_os.Kernel.Registry.Runtimes.{manifest}
use agent_native_os.Kernel.Registry.Health.{record_failure, record_success}
use agent_native_os.Kernel.Registry.Resolve.{Hints, ResolveError, Outcome, resolve_for_kind}
use agent_native_os.Kernel.Authz.Engine.{
  Engine, can_consume, can_external, can_invoke_as_service, delegation_scope, scope_allows,
}
use agent_native_os.Kernel.Router.State.{
  Delegation, StreamRoute, InflightKey, InflightKey-Comparable, Router, Host, process, Sent,
  runtime_consumer_key, external_consumer_key,
}

-- Who calls: the runtime, empty for the host and for clients; the plugin or the client; and whether
-- the call has a channel for a stream.
pub record Origin : Type 0 where
  pub runtime : String
  pub identity : String
  pub is_plugin : Bool
  pub external : Bool

-- The deadline of a request, as the clock finds it: the time that is left.
pub data Deadline : Type 0 where
  absent malformed : Deadline
  remaining : ℕ → Deadline

pub data RouteError : Type 0 where
  invalid : EnvelopeError → RouteError
  delegation_required invalid_delegation unknown_caller not_consumable : RouteError
  no_authority not_granted : RouteError
  unresolved : ResolveError → RouteError
  runtime_unavailable bad_deadline deadline_passed : RouteError

-- On whose behalf a call is made.
pub record Authority : Type 0 where
  pub principal : String
  pub actor_chain : List String
  pub scope : List String

-- What comes of a request before the provider is called: `calling` has the provider, the request that
-- it is sent, and the time it has. `mismatched` is an answer with the code KIND_MISMATCH.
pub data Begun : Type 0 where
  declined : RouteError → Begun
  mismatched : Begun
  calling : Provider → Envelope → ℕ → Begun

abbrev pub own : Origin → Authority
own o = record { principal = o.identity; actor_chain = o.identity ∷ []; scope = [] }

abbrev pub delegated : Origin → Option Delegation → Result RouteError Authority
delegated o none = err invalid_delegation
delegated o (some d) =
    if not (d.runtime_id == o.runtime)
    then err invalid_delegation
    else ok (record {
      principal = d.principal;
      actor_chain = d.actor_chain ++ o.identity ∷ [];
      scope = d.scope;
    })

-- The principal comes from the host's own tables.
unfoldable pub identify : Engine → Origin → Envelope → Router → Result RouteError Authority
identify auth o req r =
    if not o.is_plugin || o.runtime == ""
    then ok (own o)
    else if req.delegation_id == ""
    then (if can_invoke_as_service o.identity auth then ok (own o) else err delegation_required)
    else delegated o (lookup req.delegation_id r.delegations)

abbrev pub consumed :
    Engine → Origin → Envelope → Authority → Option Manifest → Result RouteError Authority
consumed auth o req a none = err unknown_caller
consumed auth o req a (some m) =
    if not (can_consume m req.capability req.major auth)
    then err not_consumable
    else if not (a.principal == o.identity)
        && not (can_external a.principal req.capability req.major auth)
        && not (scope_allows a.scope req.capability req.major)
    then err no_authority
    else ok a

unfoldable pub authorize :
    Engine → Origin → Envelope → Registry → Authority → Result RouteError Authority
authorize auth o req reg a =
    if o.is_plugin
    then consumed auth o req a (manifest o.identity reg)
    else if not (can_external o.identity req.capability req.major auth)
    then err not_granted
    else ok (record a { scope = delegation_scope o.identity req.capability req.major auth })

abbrev pub checked : Result EnvelopeError (Unit {0}) → Result RouteError (Unit {0})
checked (ok _) = ok tt
checked (err e) = err (invalid e)

unfoldable pub admit : Engine → Origin → Envelope → Host → Result RouteError Authority
unfolding identify authorize
admit auth o req h = do
  checked (validate_envelope req)
  a ← identify auth o req h.router
  authorize auth o req h.registry a

abbrev pub is_stateful : Provider → Bool
is_stateful p = p.export.mode == "stateful"

-- The request with the host's metadata.
unfoldable pub stamp : Origin → Authority → Provider → String → Envelope → Envelope
stamp o a p fresh req = record req {
  caller = o.identity;
  principal = a.principal;
  actor_chain = a.actor_chain;
  reply_runtime = o.runtime;
  contract = p.export.contract;
  service = if is_stateful p then p.export.service else req.service;
  authority = if is_stateful p then p.export.authority else req.authority;
  fencing_epoch =
      if is_stateful p && req.kind == command then p.writer_epoch else req.fencing_epoch;
  delegation_id = fresh;
}

abbrev pub consumer_of : Origin → String
consumer_of o =
    if o.is_plugin then runtime_consumer_key o.runtime else external_consumer_key o.identity

abbrev pub inflight_key : Origin → Envelope → InflightKey
inflight_key o req = record { consumer = consumer_of o; request_id = req.message_id }

abbrev tracked : Origin → Bool
tracked o = not (o.runtime == "") || not o.is_plugin

abbrev pub issued : Authority → Provider → Delegation
issued a p = record {
  principal = a.principal;
  actor_chain = a.actor_chain;
  runtime_id = p.runtime_id;
  scope = a.scope;
}

abbrev pub stream_route : Origin → Envelope → Provider → StreamRoute
stream_route o req p = record {
  stream_id = req.stream_id;
  consumer_runtime = o.runtime;
  external_identity = if o.is_plugin then "" else o.identity;
  provider_runtime = p.runtime_id;
  request_id = req.message_id;
  external = o.external;
}

-- The entries that a call has in the router's tables.
unfoldable pub open_call : Origin → Authority → Provider → String → Envelope → Router → Router
open_call o a p fresh req r = record r {
  streams =
      if not (req.stream_id == "") && (not (o.runtime == "") || o.external)
      then insert req.stream_id (stream_route o req p) r.streams
      else r.streams;
  delegations = insert fresh (issued a p) r.delegations;
  inflight =
      if tracked o
      then insert (inflight_key o req)
          (record { provider_runtime = p.runtime_id; provider_request_id = req.message_id })
          r.inflight
      else r.inflight;
}

abbrev pub wrong_kind : Envelope → Option Metadata → Bool
wrong_kind req none = false
wrong_kind req (some m) = not (m.kind == req.kind)

-- A call waits thirty seconds if it has no deadline.
abbrev pub timeout_of : Deadline → Result RouteError ℕ
timeout_of absent = ok 30000
timeout_of malformed = err bad_deadline
timeout_of (remaining zero) = err deadline_passed
timeout_of (remaining (suc n)) = ok (suc n)

abbrev pub called :
    Origin → Authority → Provider → String → Envelope → Host → Result RouteError ℕ → Begun × Host
called o a p fresh req h (err e) = (declined e, h)
called o a p fresh req h (ok timeout) = (
  calling p (stamp o a p fresh req) timeout,
  record h { router = open_call o a p fresh req h.router },
)

unfoldable pub dispatch :
    Deadline → String → Origin → Authority → Provider → Envelope → Host → Begun × Host
unfolding stamp open_call
dispatch deadline fresh o a p req h =
    if wrong_kind req (metadata h.registry.contracts p.export.contract)
    then (mismatched, h)
    else elim (lookup p.runtime_id h.router.clients) [
      | none ↦ (declined runtime_unavailable, h)
      | some _ ↦ called o a p fresh req h (timeout_of deadline)
    ]

abbrev pub routed :
    Deadline → String → Origin → Envelope → Authority → Router → Outcome → Begun × Host
routed deadline fresh o req a r (err e, reg, disk) =
    (declined (unresolved e), record { router = r; registry = reg; disk = disk })
routed deadline fresh o req a r (ok p, reg, disk) =
    dispatch deadline fresh o a p req (record { router = r; registry = reg; disk = disk })

abbrev pub key_of : Envelope → Key
key_of req = record { name = req.capability; major = req.major }

abbrev pub hints_of : Envelope → Hints
hints_of req = record {
  provider = req.provider_hint;
  service = req.service;
  authority = req.authority;
}

abbrev pub admitted :
    Bool → Deadline → String → Origin → Envelope → Host → Result RouteError Authority → Begun × Host
admitted io deadline fresh o req h (err e) = (declined e, h)
admitted io deadline fresh o req h (ok a) =
    routed deadline fresh o req a h.router
      (resolve_for_kind io (key_of req) (hints_of req) req.kind h.registry h.disk)

-- Up to the call. `io` says whether the fence file can be written, and `fresh` is the new name of the
-- delegation.
unfoldable pub begin : Engine → Bool → Deadline → String → Origin → Envelope → Host → Begun × Host
unfolding admit dispatch
begin auth io deadline fresh o req h = admitted io deadline fresh o req h (admit auth o req h)

-- What the call of the provider ends with.
pub data Ending : Type 0 where
  answered out_of_time broken : Ending

abbrev cancel_call : Envelope → Provider → Sent
cancel_call req p = record {
  target = process p.runtime_id;
  envelope = record {
    protocol = 1;
    message_id = "";
    kind = cancel;
    capability = "";
    major = 0;
    contract = "";
    caller = "";
    principal = "";
    actor_chain = [];
    delegation_id = "";
    provider_hint = "";
    service = "";
    authority = "";
    fencing_epoch = 0;
    reply_to = req.message_id;
    reply_runtime = "";
    target_runtime = p.runtime_id;
    trace_id = req.trace_id;
    correlation_id = req.correlation_id;
    causation_id = req.message_id;
    deadline = "";
    idempotency_key = "";
    stream_id = "";
    payload = "";
  };
}

-- The calls that are deferred.
unfoldable pub close_call : Origin → Envelope → String → Router → Router
close_call o req fresh r = record r {
  delegations = erase fresh r.delegations;
  inflight = if tracked o then erase (inflight_key o req) r.inflight else r.inflight;
}

abbrev scored : Ending → String → Registry → Registry
scored answered runtime_id reg = record_success runtime_id reg
scored _ runtime_id reg = record_failure runtime_id reg

abbrev cancelled : Ending → Envelope → Provider → List Sent
cancelled out_of_time req p = cancel_call req p ∷ []
cancelled _ req p = []

-- Behind the call: the provider's score, and the end of the call's entries.
unfoldable pub finish : Ending → Origin → Envelope → Provider → String → Host → List Sent × Host
unfolding close_call
finish ending o req p fresh h = (
  cancelled ending req p,
  record h {
    registry = scored ending p.runtime_id h.registry;
    router = close_call o req fresh h.router;
  },
)
