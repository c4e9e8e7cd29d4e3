-- ===== src/Plugins/Session/Store.antt =====
-- plugins/session/store.go: an archive of sessions.
use agent_native_os.Prelude.{String, Option, List}
use agent_native_os.Prelude.Result.{Result}
use agent_native_os.Plugins.EventLog.{Numbered, LogFile, Write, LogError}
use agent_native_os.Plugins.Archive
use agent_native_os.Plugins.Archive.{Change, Table, ApplyError, record_one}
use agent_native_os.Plugins.Session.Seal.{SessionRecord}

abbrev pub Store : Type 0
Store = Archive.Store SessionRecord

abbrev pub session_id : SessionRecord → String
session_id sr = sr.id

abbrev pub session_context : SessionRecord → String
session_context sr = sr.work_context_id

abbrev pub apply :
    Change SessionRecord → Table SessionRecord → Result ApplyError (Table SessionRecord)
apply = Archive.apply session_id session_context

abbrev pub load :
    LogFile (Change SessionRecord) → Result (LogError ApplyError) (Numbered (Table SessionRecord))
load = Archive.load session_id session_context

abbrev pub record_session :
    Write → SessionRecord → Store → Result (LogError ApplyError) (Unit {0}) × Store
record_session = record_one session_id session_context

abbrev pub get_session : String → Table SessionRecord → Option SessionRecord
get_session = Archive.get_by_id

abbrev pub query_sessions : String → Table SessionRecord → List SessionRecord
query_sessions = Archive.query_by_context
