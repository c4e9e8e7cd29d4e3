-- ===== src/Kernel/Router/Streams.antt =====
-- The clients and streams of kernel/internal/router/router.go.
use agent_native_os.Prelude.{
  String, Bool, true, false, not, ◌||◌, none, some, List, [], ◌∷◌, ◌++◌, ◌==◌, text_comparable,
  if◌then◌else◌,
}
use agent_native_os.Prelude.Map.{Map, lookup, insert, erase}
use agent_native_os.Kernel.Protocol.{Envelope, cancel, stream_close, Kind, Kind-Comparable}
use agent_native_os.Kernel.Router.State.{
  StreamRoute, InflightKey-Comparable, Router, process, channel, Sent, runtime_consumer_key,
  external_consumer_key,
}

unfoldable pub add_client : String → String → Router → Router
add_client runtime_id plugin_id r = record r { clients = insert runtime_id plugin_id r.clients }

-- An envelope that the router makes itself.
abbrev bare : Kind → String → String → String → Envelope
bare kind stream_id reply_to target_runtime = record {
  protocol = 1;
  message_id = "";
  kind = kind;
  capability = "";
  major = 0;
  contract = "";
  caller = "";
  principal = "";
  actor_chain = [];
  delegation_id = "";
  provider_hint = "";
  service = "";
  authority = "";
  fencing_epoch = 0;
  reply_to = reply_to;
  reply_runtime = "";
  target_runtime = target_runtime;
  trace_id = "";
  correlation_id = "";
  causation_id = "";
  deadline = "";
  idempotency_key = "";
  stream_id = stream_id;
  payload = "";
}

-- A message to a process, if it is there.
unfoldable pub send_to : String → Envelope → Router → List Sent
send_to runtime_id e r = elim (lookup runtime_id r.clients) [
  | none ↦ []
  | some _ ↦ record { target = process runtime_id; envelope = e } ∷ []
]

abbrev touches : String → StreamRoute → Bool
touches runtime_id sr = sr.provider_runtime == runtime_id || sr.consumer_runtime == runtime_id

-- The routes that stay.
unfoldable pub drop_streams : String → Map String StreamRoute → Map String StreamRoute
drop_streams runtime_id [] = []
drop_streams runtime_id ((id, sr) ∷ rest) =
    let others = drop_streams runtime_id rest in
    if touches runtime_id sr then others else (id, sr) ∷ others

-- What is told of one route whose process is gone: its consumer that the provider is, or its provider
-- that the consumer is.
unfoldable pub farewell : String → Router → StreamRoute → List Sent
unfolding send_to
farewell runtime_id r sr =
    if sr.provider_runtime == runtime_id
    then (if sr.external
        then record {
          target = channel sr.stream_id;
          envelope = bare stream_close sr.stream_id "" "";
        }
          ∷ []
        else send_to sr.consumer_runtime (bare stream_close sr.stream_id "" "") r)
    else if sr.consumer_runtime == runtime_id
    then send_to sr.provider_runtime (bare cancel "" sr.request_id sr.provider_runtime) r
    else []

unfoldable pub farewells : String → Router → Map String StreamRoute → List Sent
unfolding farewell
farewells runtime_id r [] = []
farewells runtime_id r ((id, sr) ∷ rest) = farewell runtime_id r sr ++ farewells runtime_id r rest

-- RemoveClient. The source sends to the lost providers' consumers first; the order among the
-- processes is not kept here.
unfoldable pub remove_client : String → Router → List Sent × Router
unfolding drop_streams farewells
remove_client runtime_id r =
    let r' = record r {
      clients = erase runtime_id r.clients;
      streams = drop_streams runtime_id r.streams;
    } in
    (farewells runtime_id r' r.streams, r')

abbrev closing : Envelope → String → Router → Router
closing e stream_id r =
    if e.kind == stream_close then record r { streams = erase stream_id r.streams } else r

-- A frame for a client's channel, which takes it in time or not. A client that does not take it loses
-- the stream.
abbrev to_channel : Bool → StreamRoute → Envelope → Router → List Sent × Router
to_channel true sr e r =
    (record { target = channel sr.stream_id; envelope = e } ∷ [], closing e e.stream_id r)
to_channel false sr e r = (
  send_to sr.provider_runtime (bare cancel sr.stream_id sr.request_id sr.provider_runtime) r,
  record r { streams = erase e.stream_id r.streams },
)

abbrev along : Bool → StreamRoute → Envelope → Router → List Sent × Router
along taken sr e r = if sr.external then to_channel taken sr e r else (
  if sr.consumer_runtime == ""
      then []
      else send_to sr.consumer_runtime (record e { target_runtime = sr.consumer_runtime }) r,
  closing e e.stream_id r,
)

-- forwardStream, for a frame from a process.
unfoldable pub forward_stream : Bool → String → Envelope → Router → List Sent × Router
unfolding send_to
forward_stream taken provider_runtime e r = elim (lookup e.stream_id r.streams) [
  | none ↦ ([], r)
  | some sr ↦ if not (sr.provider_runtime == provider_runtime) then ([], r) else along taken sr e r
]

-- What a process asks to cancel by its stream,
unfoldable pub cancel_stream : String → Envelope → Router → List Sent
unfolding send_to
cancel_stream consumer_runtime e r = elim (lookup e.stream_id r.streams) [
  | none ↦ []
  | some sr ↦
      if not (sr.consumer_runtime == consumer_runtime)
      then []
      else send_to sr.provider_runtime
          (record e { target_runtime = sr.provider_runtime; reply_to = sr.request_id }) r
]

-- and by its request.
unfoldable pub cancel_request : String → Envelope → Router → List Sent
unfolding send_to
cancel_request consumer_runtime e r =
    elim (lookup
      (record { consumer = runtime_consumer_key consumer_runtime; request_id = e.reply_to })
      r.inflight) [
        | none ↦ []
        | some route ↦
            send_to route.provider_runtime
              (record e {
                target_runtime = route.provider_runtime;
                reply_to = route.provider_request_id;
              })
              r
      ]

unfoldable pub forward_cancel : String → Envelope → Router → List Sent
unfolding cancel_stream cancel_request
forward_cancel consumer_runtime e r =
    if not (e.stream_id == "")
    then cancel_stream consumer_runtime e r
    else if e.reply_to == ""
    then []
    else cancel_request consumer_runtime e r

-- CancelExternalStream. The Boolean that it returns says whether something is sent.
unfoldable pub cancel_external_stream : String → String → Router → List Sent
unfolding send_to
cancel_external_stream identity stream_id r = elim (lookup stream_id r.streams) [
  | none ↦ []
  | some sr ↦
      if not (sr.external_identity == identity)
      then []
      else send_to sr.provider_runtime (bare cancel stream_id sr.request_id sr.provider_runtime) r
]

unfoldable pub cancel_external_request : String → String → Router → List Sent
unfolding send_to
cancel_external_request identity request_id r =
    elim (lookup (record { consumer = external_consumer_key identity; request_id = request_id })
      r.inflight) [
        | none ↦ []
        | some route ↦
            send_to route.provider_runtime
              (bare cancel "" route.provider_request_id route.provider_runtime) r
      ]
