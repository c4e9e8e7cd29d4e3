-- ===== src/Plugins/Session/Handlers.antt =====
-- The handlers of plugins/session/handlers.go. What a payload decodes to is an argument of each handler, `none` if it
-- does not decode.
use agent_native_os.Prelude.{String, Option, none, some, List, ◌==◌, text_comparable, if◌then◌else◌}
use agent_native_os.Prelude.Result.{Result, ok, err}
use agent_native_os.Kernel.Protocol.{Envelope, Error}
use agent_native_os.Kernel.Fencing.{FenceEnv, FenceFault, with_write_fence}
use agent_native_os.Plugins.Reply.{Reply, answered, rejected, rejection, io_rejection}
use agent_native_os.Plugins.EventLog.{Write, LogError}
use agent_native_os.Plugins.Archive.{ApplyError}
use agent_native_os.Plugins.Session.Store.{Store, record_session, get_session, query_sessions}
use agent_native_os.Plugins.Session.Seal.{SessionRecord, SealRequest, SealDeps, seal_once}

abbrev stored_reply :
    SessionRecord
    → Result (FenceFault (LogError ApplyError)) (Unit {0}) × Store
    → Reply SessionRecord × Store
stored_reply sr (ok _, s) = (answered sr, s)
stored_reply sr (err e, s) = (io_rejection, s)

abbrev pub sealed_reply :
    {W : Type 0}
    → FenceEnv
    → Write
    → Envelope
    → Store
    → Result Error SessionRecord × W
    → Reply SessionRecord × (Store × W)
sealed_reply env w e s (err x, world) = (rejected x, (s, world))
sealed_reply env w e s (ok sr, world) =
    let (reply, s') = stored_reply sr (with_write_fence env e (record_session w sr) s) in
    (reply, (s', world))

unfoldable pub seal_handler :
    {W : Type 0}
    → SealDeps W
    → FenceEnv
    → String
    → String
    → Write
    → Envelope
    → Option SealRequest
    → Store × W
    → Reply SessionRecord × (Store × W)
seal_handler deps env id now w e none sw = (rejection "INVALID", sw)
seal_handler deps env id now w e (some req) (s, world) =
    sealed_reply env w e s (seal_once deps id now req world)

abbrev found_record : Option SessionRecord → Reply SessionRecord
found_record none = rejection "NOT_FOUND"
found_record (some sr) = answered sr

-- The request is the name of the session.
unfoldable pub get_handler : Option String → Store → Reply SessionRecord
get_handler none s = rejection "INVALID"
get_handler (some id) s =
    if id == "" then rejection "INVALID" else found_record (get_session id s.0.state)

-- The request is the name of the context.
unfoldable pub query_handler : Option String → Store → Reply (List SessionRecord)
query_handler none s = rejection "INVALID"
query_handler (some wc) s =
    if wc == "" then rejection "INVALID" else answered (query_sessions wc s.0.state)
