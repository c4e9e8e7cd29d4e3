-- ===== src/Plugins/Session/Integrity.antt =====
-- A sealed session holds events of the journal, and an archive that says so.
use agent_native_os.Prelude.{
  String, true, false, ◌≡◌, refl, sym, ap, ◌∙◌, subst, inl, inr, Option, none, some, List, [], ◌∷◌,
  map, ◌==◌, text_comparable, nat_comparable, eq_of_==, arith, All, keep, length, Bool-cases,
}
use mathlib.Core.List.{Memᴰ}
use agent_native_os.Prelude.Map.{Map, lookup, insert, lookup-insert}
use agent_native_os.Prelude.Result.{Result, ok, err, bind_ok, fail_if}
use agent_native_os.Prelude.Effect.{Effect, step_ok, or_fail, pure_step, relabelled}
use agent_native_os.Kernel.Protocol.{Error}
use agent_native_os.Plugins.Session.Selection.{
  JournalRecord, fault, indexed, check_event, select_asked, select,
}
use agent_native_os.Plugins.Session.Checkpoint.{RecoveryCheckpoint, build_checkpoint}
use agent_native_os.Plugins.Session.Seal.{
  SessionRecord, SealRequest, SealDeps, encoded, selection_of, complete, partial_record,
  is_incomplete, correlation_of, archive, seal_once,
}

-- The index finds events of the journal under their names.
IsIndex : List JournalRecord → Map String JournalRecord → Type 0
IsIndex records m =
    (id : String) (r : JournalRecord) → lookup id m ≡ some r → Memᴰ r records × (r.id ≡ id)

IsIndex-at :
    (records : List JournalRecord) (m : Map String JournalRecord) (id : String) (r : JournalRecord)
    → IsIndex records m
    → lookup id m ≡ some r
    → Memᴰ r records × (r.id ≡ id)
unfolding IsIndex
IsIndex-at records m id r index = index id r

empty-IsIndex : (records : List JournalRecord) → IsIndex records []
unfolding IsIndex lookup
empty-IsIndex records id r e = cc

indexed-IsIndex :
    (records rs : List JournalRecord) (m : Map String JournalRecord)
    → ((r : JournalRecord) → Memᴰ r rs → Memᴰ r records)
    → IsIndex records m
    → IsIndex records (indexed rs m)
unfolding indexed IsIndex
indexed-IsIndex records [] m within index = index
indexed-IsIndex records (r ∷ rs) m within index =
    indexed-IsIndex records rs (insert r.id r m) (λ x l. within x (Memᴰ.tail l))
      (λ id x e. elim (Bool-cases (r.id == id)) [
        | inl same ↦
            let one : r ≡ x = cc (lookup-insert r.id id r m, same, e) in
            subst (λ y. Memᴰ y records × (y.id ≡ id)) one
              (within r (Memᴰ.head refl), eq_of_== r.id id same)
        | inr other ↦ index id x (sym (lookup-insert r.id id r m ∙ rw other) ∙ e)
      ])

-- The events are in the journal, and have the names and hashes.
abbrev Asked : List JournalRecord → List String → List String → List JournalRecord → Type 0
Asked records ids hashes sel =
    All (λ r. Memᴰ r records) sel × (map (λ r. r.id) sel ≡ ids) × (map (λ r. r.sha256) sel ≡ hashes)

check_event-ok :
    (h : String) (o : Option JournalRecord) (r : JournalRecord)
    → check_event h o ≡ ok r
    → (o ≡ some r) × (r.sha256 ≡ h)
check_event-ok h none r e = cc
check_event-ok h (some x) r e = elim (Bool-cases (x.sha256 == h)) [
  | inl same ↦
      let one : x ≡ r = cc (rw same at e) in
      (ap some one, ap (λ y. y.sha256) (sym one) ∙ eq_of_== x.sha256 h same)
  | inr other ↦ absurd (cc (rw other at e))
]

select_asked-Asked :
    (records : List JournalRecord) (m : Map String JournalRecord) (ids hashes : List String)
    (sel : List JournalRecord)
    → IsIndex records m
    → length hashes ≡ length ids
    → select_asked m ids hashes ≡ ok sel
    → Asked records ids hashes sel
unfolding select_asked
select_asked-Asked records m [] [] sel index len e =
    let none_left : [] ≡ sel = cc in subst (Asked records [] []) none_left (tt, refl, refl)
select_asked-Asked records m [] (h ∷ hs) sel index len e = absurd (ground (arith, len))
select_asked-Asked records m (i ∷ is) [] sel index len e = cc
select_asked-Asked records m (i ∷ is) (h ∷ hs) sel index len e =
    let (r, found, more) = bind_ok (check_event h (lookup i m)) _ e in
    let (rs, rest, done) = bind_ok (select_asked m is hs) _ more in
    let (there, hashed) = check_event-ok h (lookup i m) r found in
    let (listed, named) = IsIndex-at records m i r index there in
    let (listed_rest, ids_rest, hashes_rest) =
      select_asked-Asked records m is hs rs index (ground (arith, len)) rest in
    let whole : r ∷ rs ≡ sel = cc in
    subst (Asked records (i ∷ is) (h ∷ hs)) whole
      ((listed, listed_rest), cc (named, ids_rest), cc (hashed, hashes_rest))

-- What a session holds: the events that are asked for, or else those with the correlation.
pub data IsSelection (records : List JournalRecord) (correlation : String)
    (ids hashes : List String) (sel : List JournalRecord) : Type 0 where
  correlated :
      ids ≡ []
      → sel ≡ keep (λ r. r.correlation_id == correlation) records
      → IsSelection records correlation ids hashes sel
  requested :
      ¬ (ids ≡ []) → Asked records ids hashes sel → IsSelection records correlation ids hashes sel

select-IsSelection :
    (records : List JournalRecord) (correlation : String) (ids hashes : List String)
    (sel : List JournalRecord)
    → select records correlation ids hashes ≡ ok sel
    → IsSelection records correlation ids hashes sel
unfolding select
select-IsSelection records correlation [] hashes sel e = correlated refl (cc)
select-IsSelection records correlation (i ∷ is) hashes sel e =
    elim (Bool-cases (length hashes == length (i ∷ is))) [
      | inr other ↦ absurd (cc (rw other at e))
      | inl same ↦
          requested (λ q. cc)
            (select_asked-Asked records (indexed records []) (i ∷ is) hashes sel
              (indexed-IsIndex records records [] (λ r l. l) (empty-IsIndex records))
              (eq_of_== (length hashes) (length (i ∷ is)) same) (rw same at e))
    ]

or_fail-ok :
    {W A : Type 0} (x : Error) (m : Effect W (Unit {0}) A) (w : W) {a : A}
    → (or_fail x m w).0 ≡ ok a
    → (m w).0 ≡ ok a
or_fail-ok x m w e = answered_ok (m w) e
  where
    answered_ok :
        {W A : Type 0} (o : Result (Unit {0}) A × W) {a : A}
        → (relabelled x o).0 ≡ ok a
        → o.0 ≡ ok a
    answered_ok (ok b, w) e = cc
    answered_ok (err y, w) e = cc

encoded-ok : (o : Option String) (bytes : String) → encoded o ≡ ok bytes → o ≡ some bytes
encoded-ok none bytes e = cc
encoded-ok (some b) bytes e = cc

module _ {W : Type 0} (deps : SealDeps W) where
  -- The archive that a record names: what is encoded is the record as it was before it named it.
  pub record IsArchived (sr : SessionRecord) (selected : List JournalRecord) : Type 0 where
    pub bytes : String
    pub world : W
    pub content :
        deps.encode
          (record sr { archive_ref = ""; archive_hash = "" })
          sr.recovery_checkpoint
          (map (λ r. r.raw) selected)
        ≡ some bytes
    pub stored : (deps.blob_put bytes world).0 ≡ ok sr.archive_ref
    pub hashed : sr.archive_hash ≡ deps.digest bytes

  pub record IsSealed (req : SealRequest) (sr : SessionRecord) : Type 0 where
    pub records : List JournalRecord
    pub selected : List JournalRecord
    pub world : W
    pub replayed : (deps.replay world).0 ≡ ok records
    pub chosen : IsSelection records (correlation_of req) req.event_ids req.event_sha256s selected
    pub told : sr.event_selection ≡ selection_of (correlation_of req) selected
    pub told_again : sr.recovery_checkpoint.canonical_event_selection ≡ sr.event_selection
    pub archived : IsArchived sr selected

  archive-IsArchived :
      (id now : String) (req : SealRequest) (cp : RecoveryCheckpoint) (patch_uri : String)
      (selected : List JournalRecord) (w : W) {sr : SessionRecord}
      → (archive deps id now req cp patch_uri selected w).0 ≡ ok sr
      → (sr.event_selection ≡ selection_of (correlation_of req) selected)
        × (sr.recovery_checkpoint.canonical_event_selection ≡ sr.event_selection)
        × IsArchived sr selected
  unfolding archive
  archive-IsArchived id now req cp patch_uri selected w {sr} e =
      let selection = selection_of (correlation_of req) selected in
      let cp' = complete req patch_uri selection cp in
      let partial = partial_record id now req selection cp' in
      let code = deps.encode partial cp' (map (λ r. r.raw) selected) in
      let (bytes, made, later) = step_ok (pure_step (encoded code)) _ w e in
      let (uri, put, done) = step_ok (or_fail (fault "IO" true) (deps.blob_put bytes)) _ w later in
      let same : record partial { archive_ref = uri; archive_hash = deps.digest bytes } ≡ sr = cc in
      subst
        (λ x.
          (x.event_selection ≡ selection)
          × (x.recovery_checkpoint.canonical_event_selection ≡ x.event_selection)
          × IsArchived x selected)
        same
        (
          refl,
          refl,
          record {
            bytes = bytes;
            world = w;
            content = encoded-ok code bytes made;
            stored = or_fail-ok (fault "IO" true) (deps.blob_put bytes) w put;
            hashed = refl;
          },
        )

  -- A session that is sealed holds events of the journal as it was replayed: if events are asked for,
  -- exactly these, in their order and with the hashes that the request names, and otherwise all with
  -- its correlation. The record lists their names, hashes and number, its checkpoint the same; and
  -- it names an archive that is stored, holds the record and the events, and has the hash that the
  -- record gives.
  pub seal_once-IsSealed :
      (id now : String) (req : SealRequest) (w : W) (sr : SessionRecord)
      → (seal_once deps id now req w).0 ≡ ok sr
      → IsSealed req sr
  unfolding seal_once
  seal_once-IsSealed id now req w sr e =
      let (_, _, e1) =
        step_ok (pure_step (fail_if (is_incomplete req) (fault "INVALID" false))) _ w e in
      let ((cp, patch), _, e2) =
        step_ok (or_fail (fault "GIT_ERROR" false) (build_checkpoint deps.git req.workspace_path)) _
          w e1 in
      let (patch_uri, _, e3) = step_ok (or_fail (fault "IO" true) (deps.blob_put patch)) _ _ e2 in
      let (records, replayed, e4) = step_ok (or_fail (fault "IO" true) deps.replay) _ _ e3 in
      let (selected, chosen, e5) =
        step_ok (pure_step (select records (correlation_of req) req.event_ids req.event_sha256s)) _
          _ e4 in
      let (told, told_again, archived) = archive-IsArchived id now req cp patch_uri selected _ e5 in
      record {
        records = records;
        selected = selected;
        world = _;
        replayed = or_fail-ok (fault "IO" true) deps.replay _ replayed;
        chosen = select-IsSelection records _ _ _ selected chosen;
        told = told;
        told_again = told_again;
        archived = archived;
      }
