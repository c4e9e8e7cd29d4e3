-- ===== src/Kernel/Registry/Admission.antt =====
-- AddManifest: the admission of a manifest.
use agent_native_os.Prelude.{
  String, Bool, true, false, not, ◌&&◌, ◌||◌, Option, none, some, List, [], ◌∷◌, ◌==◌,
  text_comparable, nat_comparable, any, if◌then◌else◌,
}
use agent_native_os.Prelude.Map.{Map, lookup, insert, values}
use agent_native_os.Prelude.Result.{Result, ok, err, ◌>>=◌, ◌>>◌, fail_if}
use agent_native_os.Prelude.Text.{canonical}
use agent_native_os.Kernel.Protocol.{event, Kind-Comparable}
use agent_native_os.Kernel.Manifest.{Manifest, Capability}
use agent_native_os.Kernel.Contracts.{Catalog, Metadata, metadata}
use agent_native_os.Kernel.Registry.State.{AuthorityKey, AuthorityKey-Comparable, Registry}
use agent_native_os.Kernel.Registry.Runtimes.{mode_of, is_stateful, authority_of, conflicts}

pub data AdmissionError : Type 0 where
  duplicate_plugin no_catalog : AdmissionError
  unknown_contract contract_mismatch mixed_modes incomplete_authority : Capability → AdmissionError
  storage_conflict manifest_conflict : Capability → AdmissionError
  unknown_declared declared_mismatch not_an_event an_event : Capability → AdmissionError

abbrev Pending : Type 0
Pending = Map AuthorityKey String

-- The metadata of a capability whose contract has the capability's own name.
unfoldable pub contract_of :
    Option Catalog
    → (Capability → AdmissionError)
    → (Capability → AdmissionError)
    → Capability
    → Result AdmissionError Metadata
unfolding metadata
contract_of catalog unknown mismatch c = elim (metadata catalog c.contract) [
  | none ↦ err (unknown c)
  | some meta ↦ do
    fail_if
        (not (c.contract == canonical c.name c.major)
          || not (meta.contract == canonical c.name c.major))
        (mismatch c)
    ok meta
]

-- Some admitted plugin exports the capability in another mode.
unfoldable pub mixes : Map String Manifest → Capability → Bool
mixes by_plugin c =
    any
      (λ other.
        any (λ oc. (oc.name == c.name && oc.major == c.major) && not (mode_of oc == mode_of c))
          other.exports)
      (values by_plugin)

unfoldable pub admit_stateful :
    Registry → Manifest → Capability → Pending → Result AdmissionError Pending
admit_stateful r m c pending =
    let ns = m.runtime.data_namespace in
    do
      fail_if (c.service == "" || c.authority == "" || ns == "") (incomplete_authority c)
      fail_if (conflicts r.authority_storage (authority_of c) ns) (storage_conflict c)
      fail_if (conflicts pending (authority_of c) ns) (manifest_conflict c)
      ok (insert (authority_of c) ns pending)

unfoldable pub admit_export :
    Registry → Manifest → Capability → Pending → Result AdmissionError Pending
admit_export r m c pending = do
  _ ← contract_of r.contracts unknown_contract contract_mismatch c
  fail_if (mixes r.by_plugin c) (mixed_modes c)
  if is_stateful c then admit_stateful r m c pending else ok pending

unfoldable pub admit_exports :
    Registry → Manifest → List Capability → Pending → Result AdmissionError Pending
unfolding admit_export
admit_exports r m [] pending = ok pending
admit_exports r m (c ∷ cs) pending =
    admit_export r m c pending >>= λ next. admit_exports r m cs next

-- One group of declarations: events, or capabilities that are no events.
unfoldable pub check_declared :
    Option Catalog → Bool → List Capability → Result AdmissionError (Unit {0})
check_declared catalog want_event [] = ok tt
check_declared catalog want_event (c ∷ cs) =
    let rest = check_declared catalog want_event cs in
    do
      meta ← contract_of catalog unknown_declared declared_mismatch c
      fail_if (want_event && not (meta.kind == event)) (not_an_event c)
      fail_if (not want_event && meta.kind == event) (an_event c)
      rest

unfoldable pub store_all : Pending → Map AuthorityKey String → Map AuthorityKey String
store_all [] storage = storage
store_all ((ak, ns) ∷ rest) storage = store_all rest (insert ak ns storage)

-- Everything that AddManifest checks before it writes, with the authorities to reserve.
unfoldable pub check_manifest : Manifest → Registry → Result AdmissionError Pending
check_manifest m r = do
  fail_if (elim (lookup m.plugin.id r.by_plugin) [ none ↦ false | some _ ↦ true ]) duplicate_plugin
  fail_if (elim r.contracts [ none ↦ true | some _ ↦ false ]) no_catalog
  pending ← admit_exports r m m.exports []
  check_declared r.contracts false m.consumes.required
  check_declared r.contracts false m.consumes.optional
  check_declared r.contracts true m.publishes
  check_declared r.contracts true m.subscribes
  ok pending

unfoldable pub add_manifest : Manifest → Registry → Result AdmissionError (Unit {0}) × Registry
add_manifest m r = elim (check_manifest m r) [
  | err e ↦ (err e, r)
  | ok pending ↦ (
    ok tt,
    record r {
      by_plugin = insert m.plugin.id m r.by_plugin;
      authority_storage = store_all pending r.authority_storage;
    },
  )
]
