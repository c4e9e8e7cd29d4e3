-- ===== src/Plugins/Archive.antt =====
-- The stores of plugins/artifact, plugins/session and plugins/tool-runner, which are the same code over
-- three types of record: a record is added once, under its name and to the list of its context.
pub mod Listing
use agent_native_os.Prelude.{String, Option, none, some, List, [], ◌∷◌, ◌++◌, text_comparable}
use agent_native_os.Prelude.Map.{Map, lookup, insert}
use agent_native_os.Prelude.Result.{Result, ok, err}
use agent_native_os.Plugins.EventLog
use agent_native_os.Plugins.EventLog.{Numbered, LogFile, LogError, Write, append}

-- A record of the log, by its operation and what its data decodes to.
pub data Change (R : Type 0) : Type 0 where
  recorded : R → Change R
  undecodable unknown_op : Change R

pub record Table (R : Type 0) : Type 0 where
  pub by_id : Map String R
  pub by_ctx : Map String (List String)

pub data ApplyError : Type 0 where
  bad_data bad_op : ApplyError

abbrev pub Store : Type 0 → Type 0
Store R = Numbered (Table R) × LogFile (Change R)

-- The entry of a missing key is the nil slice.
abbrev pub or_nil : Option (List String) → List String
or_nil none = []
or_nil (some ids) = ids

abbrev pub ids_of : String → Map String (List String) → List String
ids_of wc m = or_nil (lookup wc m)

abbrev pub no_records : {R : Type 0} → Table R
no_records = record { by_id = []; by_ctx = [] }

-- A record's name and its context.
module _ {R : Type 0} (id_of context_of : R → String) where
  unfoldable pub apply : Change R → Table R → Result ApplyError (Table R)
  apply (recorded r) s = ok (record {
    by_id = insert (id_of r) r s.by_id;
    by_ctx = insert (context_of r) (ids_of (context_of r) s.by_ctx ++ id_of r ∷ []) s.by_ctx;
  })
  apply undecodable s = err bad_data
  apply unknown_op s = err bad_op

  unfoldable pub load : LogFile (Change R) → Result (LogError ApplyError) (Numbered (Table R))
  load = EventLog.load apply no_records

  unfoldable pub record_one :
      Write → R → Store R → Result (LogError ApplyError) (Unit {0}) × Store R
  record_one w r s = append apply w (recorded r) s

module _ {R : Type 0} where
  unfoldable pub get_by_id : String → Table R → Option R
  get_by_id id s = lookup id s.by_id

  abbrev pub collect : Option R → List R → List R
  collect none rest = rest
  collect (some r) rest = r ∷ rest

  unfoldable pub records_of : List String → Map String R → List R
  records_of [] m = []
  records_of (id ∷ ids) m = collect (lookup id m) (records_of ids m)

  unfoldable pub query_by_context : String → Table R → List R
  unfolding records_of
  query_by_context wc s = records_of (ids_of wc s.by_ctx) s.by_id
