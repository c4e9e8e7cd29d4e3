-- ===== src/Plugins/Session/Selection.antt =====
-- The events that sealOnce of plugins/session/handlers.go puts into a session.
use agent_native_os.Prelude.{
  String, Bool, false, not, Option, none, some, List, [], ◌∷◌, ◌==◌, text_comparable,
  nat_comparable, if◌then◌else◌, keep, length, is_empty,
}
use agent_native_os.Prelude.Map.{Map, lookup, insert}
use agent_native_os.Prelude.Result.{Result, ok, err, ◌>>=◌, ◌>>◌, fail_if}
use agent_native_os.Kernel.Protocol.{Error}

pub record JournalRecord : Type 0 where
  pub id : String
  pub sha256 : String
  pub correlation_id : String
  pub event_type : String
  pub raw : String

abbrev pub fault : String → Bool → Error
fault code retryable = record { code = code; retryable = retryable }

abbrev pub integrity : Error
integrity = fault "INTEGRITY_ERROR" false

-- byID: of two events of one name the later one stays.
unfoldable pub indexed : List JournalRecord → Map String JournalRecord → Map String JournalRecord
indexed [] m = m
indexed (r ∷ rs) m = indexed rs (insert r.id r m)

abbrev pub check_event : String → Option JournalRecord → Result Error JournalRecord
check_event hash none = err integrity
check_event hash (some r) = if not (r.sha256 == hash) then err integrity else ok r

-- The loop over the events that are asked for. The two lists are as long as each other.
unfoldable pub select_asked :
    Map String JournalRecord → List String → List String → Result Error (List JournalRecord)
select_asked by_id [] hashes = ok []
select_asked by_id (id ∷ ids) [] = err integrity
select_asked by_id (id ∷ ids) (hash ∷ hashes) =
    check_event hash (lookup id by_id) >>= λ r. select_asked by_id ids hashes >>= λ rs. ok (r ∷ rs)

-- The events that are asked for, or those with the correlation.
unfoldable pub select :
    List JournalRecord → String → List String → List String → Result Error (List JournalRecord)
unfolding select_asked indexed
select records correlation ids hashes =
    if is_empty ids
    then ok (keep (λ r. r.correlation_id == correlation) records)
    else fail_if (not (length hashes == length ids)) integrity
      >> select_asked (indexed records []) ids hashes
