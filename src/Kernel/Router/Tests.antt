-- ===== src/Kernel/Router/Tests.antt =====
-- A client asks a plugin, which asks another one on its behalf.
use agent_native_os.Prelude.{
  String, true, false, ◌≡◌, refl, sym, ap, some, List, [], ◌∷◌, text_comparable, str_eq_iff, arith,
  All,
}
use agent_native_os.Prelude.Map.{lookup, insert, erase}
use agent_native_os.Prelude.Text.{canonical}
use agent_native_os.Prelude.Result.{ok}
use agent_native_os.Kernel.Protocol.{
  Envelope, command, event, cancel, stream_data, validate_envelope, Kind,
}
use agent_native_os.Kernel.Manifest.{Manifest, Capability, has_capability}
use agent_native_os.Kernel.Contracts.{metadata}
use agent_native_os.Kernel.Registry.State.{Provider, Registry}
use agent_native_os.Kernel.Registry.State
use agent_native_os.Kernel.Registry.Runtimes.{manifest, provider_of}
use agent_native_os.Kernel.Registry.Resolve.{resolve_for_kind, resolve_among}
use agent_native_os.Kernel.Authz.Pattern.{matches}
use agent_native_os.Kernel.Authz.Engine.{
  Grant, Engine, can_consume, can_external, can_publish, can_subscribe, can_invoke_as_service,
  delegation_scope, collect_scope, scope_allows, granted, match_list,
}
use agent_native_os.Kernel.Router.State.{
  Host, StreamRoute, InflightKey-Comparable, new, channel, process, Sent, runtime_consumer_key,
  external_consumer_key,
}
use agent_native_os.Kernel.Router.Invoke.{
  Origin, absent, answered, broken, invalid_delegation, declined, calling, identify, authorize,
  admit, stamp, open_call, close_call, dispatch, begin, finish,
}
use agent_native_os.Kernel.Router.Streams.{
  add_client, forward_stream, forward_cancel, cancel_request, cancel_stream, send_to,
}
use agent_native_os.Kernel.Router.Delegations.{IsBacked, begin-IsBacked, ended_delegation_declined}
use agent_native_os.Kernel.Router.Forgery.{Claims, forge, begin-forge}
use agent_native_os.Kernel.Router.Publish.{publish_envelope, IsDelivered, publish-IsDelivered}
use agent_native_os.Kernel.Router.Ownership.{
  IsCancel, frames_come_from_provider, cancels_come_from_consumer,
}
use agent_native_os.Kernel.Router.Leaks.{ended_stream_still_routed}
use agent_native_os.Kernel.Router.Trace.{
  Reach, start, next, begins, connects, IsAuthorized, begin-IsAuthorized,
}

abbrev capability : String → Capability
capability name = record {
  name = name;
  major = 1;
  contract = "";
  mode = "stateless";
  service = "";
  authority = "";
  priority = 0;
}

abbrev plugin : String → List Capability → Manifest
plugin id exports = record {
  manifest_version = 1;
  plugin = record { id = id; version = "1" };
  runtime = record {
    protocol = "vibe-plugin/1";
    executable = "run";
    args = [];
    isolation = "";
    data_namespace = "";
  };
  exports = exports;
  consumes = record { required = capability "work.get" ∷ []; optional = [] };
  publishes = capability "flow.done" ∷ [];
  subscribes = capability "flow.done" ∷ [];
  permissions = [];
  restart = record { mode = ""; max_attempts = 0; cooldown_ms = 0 };
  resources = record { memory_mb = 0; cpu_weight = 0 };
}

abbrev flow : Manifest
flow = plugin "flow" (capability "flow.run" ∷ [])

abbrev work : Manifest
work = plugin "work" (capability "work.get" ∷ [])

abbrev registry : Registry
registry = record State.new {
  by_plugin = ("flow", flow) ∷ ("work", work) ∷ [];
  providers =
      (
        record { name = "flow.run"; major = 1 },
        provider_of flow "rt-f" (capability "flow.run") ∷ [],
      )
      ∷ (
        record { name = "work.get"; major = 1 },
        provider_of work "rt-w" (capability "work.get") ∷ [],
      )
      ∷ [];
}

abbrev nothing : Grant
nothing = record {
  capabilities = [];
  publishes = [];
  subscribes = [];
  host_permissions = [];
  service_authority = false;
  delegations = [];
}

-- Alice may run the flow, and the flow may read her work for this.
abbrev policy : Engine
policy =
    (
      "alice",
      record nothing {
        capabilities = "flow.run@1" ∷ [];
        delegations = ("flow.*", "work.*" ∷ []) ∷ [];
      },
    )
    ∷ (
      "flow",
      record nothing {
        capabilities = "work.*" ∷ [];
        publishes = "flow.*" ∷ [];
        subscribes = "*" ∷ [];
      },
    )
    ∷ []

abbrev request : Kind → String → String → String → Envelope
request kind capability delegation stream = record {
  protocol = 1;
  message_id = "m1";
  kind = kind;
  capability = capability;
  major = 1;
  contract = "";
  caller = "root";
  principal = "root";
  actor_chain = [];
  delegation_id = delegation;
  provider_hint = "";
  service = "";
  authority = "";
  fencing_epoch = 0;
  reply_to = "";
  reply_runtime = "";
  target_runtime = "";
  trace_id = "";
  correlation_id = "";
  causation_id = "";
  deadline = "";
  idempotency_key = "";
  stream_id = stream;
  payload = "";
}

abbrev idle : Host
idle = record {
  router = record new { clients = ("rt-f", "flow") ∷ ("rt-w", "work") ∷ [] };
  registry = registry;
  disk = [];
}

abbrev alice : Origin
alice = record { runtime = ""; identity = "alice"; is_plugin = false; external = true }

abbrev flow_process : Origin
flow_process = record { runtime = "rt-f"; identity = "flow"; is_plugin = true; external = false }

everything : Unit {0}
unfolding begin admit identify authorize dispatch stamp open_call close_call finish add_client
    validate_envelope metadata manifest resolve_for_kind resolve_among lookup insert erase
    has_capability can_consume can_external can_publish can_subscribe can_invoke_as_service
    delegation_scope collect_scope scope_allows granted match_list matches canonical
    runtime_consumer_key external_consumer_key forward_stream forward_cancel cancel_request
    cancel_stream send_to
everything = tt

abbrev running : Host
running = (begin policy true absent "d1" alice (request command "flow.run" "" "s1") idle).1

abbrev flow_provider : Provider
flow_provider = provider_of flow "rt-f" (capability "flow.run")

abbrev work_provider : Provider
work_provider = provider_of work "rt-w" (capability "work.get")

abbrev for_alice : List String → String → Envelope → Envelope
for_alice chain delegation req = record req {
  principal = "alice";
  actor_chain = chain;
  delegation_id = delegation;
  contract = "";
}

abbrev first_sent : Envelope
first_sent = record (for_alice ("alice" ∷ []) "d1" (request command "flow.run" "" "s1")) {
  caller = "alice";
}

abbrev second_sent : Envelope
second_sent = record (for_alice ("alice" ∷ "flow" ∷ []) "d2" (request command "work.get" "d1" "")) {
  caller = "flow";
  reply_runtime = "rt-f";
}

first_call :
    (begin policy true absent "d1" alice (request command "flow.run" "" "s1") idle).0
    ≡ calling flow_provider first_sent 30000
unfolding everything
first_call = refl

second_call :
    (begin policy true absent "d2" flow_process (request command "work.get" "d1" "") running).0
    ≡ calling work_provider second_sent 30000
unfolding everything
second_call = refl

running-Reach : Reach policy running
unfolding add_client insert
running-Reach =
    next (next (next (start registry []) (connects "rt-f" "flow" _)) (connects "rt-w" "work" _))
      (begins true absent "d1" alice (request command "flow.run" "" "s1") _)

begin-IsAuthorized_example :
    IsAuthorized policy flow_process
      (request command "work.get" "d1" "")
      running.registry
      second_sent
begin-IsAuthorized_example =
    begin-IsAuthorized policy running true absent "d2" flow_process
      (request command "work.get" "d1" "") work_provider second_sent 30000 running-Reach second_call

begin-IsBacked_example :
    IsBacked policy flow_process
      (request command "work.get" "d1" "")
      running.router
      "alice"
      ("alice" ∷ "flow" ∷ [])
begin-IsBacked_example =
    begin-IsBacked policy flow_process (request command "work.get" "d1" "") true absent "d2" running
      work_provider second_sent 30000 refl (ground (arith, str_eq_iff "rt-f" "")) second_call

is_valid : validate_envelope (request command "work.get" "d1" "") ≡ ok tt
unfolding everything
is_valid = refl

ended_delegation_declined_example :
    let h' =
      (finish answered alice (request command "flow.run" "" "s1") flow_provider "d1" running).1 in
    begin policy true absent "d2" flow_process (request command "work.get" "d1" "") h'
    ≡ (declined invalid_delegation, h')
ended_delegation_declined_example =
    ended_delegation_declined policy answered alice flow_process
      (request command "flow.run" "" "s1") (request command "work.get" "d1" "") flow_provider "d1"
      "d2" running true absent refl (ground (arith, str_eq_iff "rt-f" ""))
      (ground (arith, str_eq_iff "d1" "")) refl is_valid

abbrev claims : Claims
claims = record {
  caller = "root";
  principal = "root";
  actor_chain = "root" ∷ [];
  reply_runtime = "rt-w";
  contract = "any";
}

begin-forge_example :
    begin policy true absent "d1" alice (forge claims (request command "flow.run" "" "s1")) idle
    ≡ begin policy true absent "d1" alice (request command "flow.run" "" "s1") idle
begin-forge_example =
    begin-forge claims (request command "flow.run" "" "s1") absent "d1" alice policy true idle

abbrev announced : Sent
announced = record {
  target = process "rt-f";
  envelope = record (request event "flow.done" "" "") {
    caller = "flow";
    principal = "flow";
    actor_chain = "flow" ∷ [];
  };
}

publishes :
    publish_envelope policy "" "flow" (request event "flow.done" "" "") registry idle.router
    ≡ ok (announced ∷ [])
unfolding everything publish_envelope
publishes = refl

publish-IsDelivered_example :
    ((m : Manifest) × (manifest "flow" registry ≡ some m)
      × (can_publish m "flow.done" 1 policy ≡ true))
    × All
        (IsDelivered policy "flow" (request event "flow.done" "" "") registry idle.router)
        (announced ∷ [])
publish-IsDelivered_example =
    publish-IsDelivered policy "flow" (request event "flow.done" "" "") registry idle.router ""
      (announced ∷ []) publishes

abbrev frame : Envelope
frame = request stream_data "" "" "s1"

frame_is_sent :
    (forward_stream true "rt-f" frame running.router).0
    ≡ record { target = channel "s1"; envelope = frame } ∷ []
unfolding everything
frame_is_sent = refl

frames_come_from_provider_example :
    (sr : StreamRoute) × (lookup frame.stream_id running.router.streams ≡ some sr)
    × (sr.provider_runtime ≡ "rt-f")
frames_come_from_provider_example =
    frames_come_from_provider true "rt-f" frame running.router
      (λ q. cc (sym frame_is_sent, ap (λ x. x.0) q))

ended_stream_still_routed_example :
    let h' =
      (finish broken alice (request command "flow.run" "" "s1") flow_provider "d1" running).1 in
    (forward_stream true "rt-f" frame h'.router).0
    ≡ record { target = channel "s1"; envelope = frame } ∷ []
ended_stream_still_routed_example =
    ended_stream_still_routed policy true absent "d1" alice (request command "flow.run" "" "s1")
      frame flow_provider first_sent 30000 idle broken refl (ground (arith, str_eq_iff "s1" ""))
      refl first_call

-- A process cancels the request that it has open.
abbrev waiting : Host
waiting =
    (begin policy true absent "d2" flow_process (request command "work.get" "d1" "") running).1

abbrev cancellation : Envelope
cancellation = record (request cancel "" "" "") { reply_to = "m1" }

cancel_is_sent :
    forward_cancel "rt-f" cancellation waiting.router
    ≡ record { target = process "rt-w"; envelope = record cancellation { target_runtime = "rt-w" } }
      ∷ []
unfolding everything
cancel_is_sent = refl

cancels_come_from_consumer_example :
    All
      (IsCancel "rt-f" cancellation waiting.router)
      (forward_cancel "rt-f" cancellation waiting.router)
cancels_come_from_consumer_example = cancels_come_from_consumer "rt-f" cancellation waiting.router
