-- ===== src/Kernel/Registry/Resolve.antt =====
-- ResolveForKind: which provider serves a request.
use agent_native_os.Prelude.{
  String, Bool, ◌&&◌, ◌||◌, Option, none, some, List, [], ◌∷◌, ◌==◌, text_comparable, keep, first,
  if◌then◌else◌,
}
use agent_native_os.Prelude.Int64.{incr}
use agent_native_os.Prelude.Map.{Map, lookup, insert}
use agent_native_os.Prelude.Result.{Result, ok, err}
use agent_native_os.Kernel.Protocol.{Kind, command, query, Kind-Comparable}
use agent_native_os.Kernel.Registry.State.{
  Provider, Key, Key-Comparable, AuthorityKey, AuthorityKey-Comparable, WriterLease, Registry,
}
use agent_native_os.Kernel.Registry.Runtimes.{providers_at}
use agent_native_os.Kernel.Registry.Fence.{Disk, FenceError, persist_fence}

pub data ResolveError : Type 0 where
  no_provider all_unhealthy ambiguous_authority authority_unavailable : ResolveError
  provider_unavailable not_active_writer : ResolveError
  persist_failed : FenceError → ResolveError

-- The hints of a request: provider, service and authority. An empty text is no hint.
pub record Hints : Type 0 where
  pub provider : String
  pub service : String
  pub authority : String

abbrev or_default : String → String → String
or_default hint d = if hint == "" then d else hint

abbrev pub with_binding : Registry → Key → Hints → Hints
with_binding r k h = elim (lookup k r.bindings) [
  | none ↦ h
  | some b ↦ record {
    provider = or_default h.provider b.provider;
    service = or_default h.service b.service;
    authority = or_default h.authority b.authority;
  }
]

abbrev pub fits_hint : String → Provider → Bool
fits_hint hint p = hint == "" || p.plugin_id == hint

abbrev pub serves : String → Provider → Bool
serves hint p = p.healthy && fits_hint hint p

-- The distinct authorities of the providers: the keys of the map `pairs`.
pub authority_pairs : List Provider → Map AuthorityKey (Unit {0})
authority_pairs [] = []
authority_pairs (p ∷ ps) =
    insert (record { service = p.export.service; authority = p.export.authority }) tt
      (authority_pairs ps)

abbrev infer_from : Map AuthorityKey (Unit {0}) → Hints → Result ResolveError AuthorityKey
infer_from ((ak, _) ∷ []) h = ok (record {
  service = or_default h.service ak.service;
  authority = or_default h.authority ak.authority;
})
infer_from _ h = err ambiguous_authority

unfoldable pub infer_authority : List Provider → Hints → Result ResolveError AuthorityKey
unfolding authority_pairs
infer_authority ps h =
    if h.service == "" || h.authority == ""
    then infer_from (authority_pairs ps) h
    else ok (record { service = h.service; authority = h.authority })

abbrev pub is_candidate : AuthorityKey → Provider → Bool
is_candidate ak p =
    p.healthy && (p.export.service == ak.service && p.export.authority == ak.authority)

-- The zero value stands for a missing lease.
abbrev pub lease_in : Option WriterLease → WriterLease
lease_in none = record { runtime_id = ""; epoch = 0 }
lease_in (some l) = l

unfoldable pub lease_of : AuthorityKey → Registry → WriterLease
lease_of ak r = lease_in (lookup ak r.writers)

abbrev pub Outcome : Type 0
Outcome = Result ResolveError Provider × Registry × Disk

abbrev pub or_fail : ResolveError → Option Provider → Result ResolveError Provider
or_fail e none = err e
or_fail e (some p) = ok p

-- The current writer, if it is among the candidates.
unfoldable pub active_writer : WriterLease → List Provider → Option Provider
active_writer l candidates =
    if l.runtime_id == "" then none else first (λ p. p.runtime_id == l.runtime_id) candidates

-- A new writer: the next epoch, on disk first and then in memory.
unfoldable pub promote : Bool → AuthorityKey → Provider → Registry → Disk → Outcome
unfolding persist_fence
promote io ak chosen r disk =
    let lease : WriterLease = record {
      runtime_id = chosen.runtime_id;
      epoch = incr (lease_of ak r).epoch;
    } in
    elim (persist_fence io ak lease r disk) [
      | err e ↦ (err (persist_failed e), r, disk)
      | ok disk' ↦ (
        ok (record chosen { writer_epoch = lease.epoch }),
        record r { writers = insert ak lease r.writers },
        disk',
      )
    ]

unfoldable pub resolve_writer :
    Bool → String → AuthorityKey → List Provider → Registry → Disk → Outcome
resolve_writer io hint ak candidates r disk = elim (active_writer (lease_of ak r) candidates) [
  | some p ↦
      if fits_hint hint p
      then (ok (record p { writer_epoch = (lease_of ak r).epoch }), r, disk)
      else (err not_active_writer, r, disk)
  | none ↦ elim (first (fits_hint hint) candidates) [
    | none ↦ (err provider_unavailable, r, disk)
    | some chosen ↦ promote io ak chosen r disk
  ]
]

unfoldable pub resolve_stateful :
    Bool → Hints → Kind → List Provider → AuthorityKey → Registry → Disk → Outcome
resolve_stateful io h kind ps ak r disk = elim (keep (is_candidate ak) ps) [
  | [] ↦ (err authority_unavailable, r, disk)
  | c ∷ cs ↦
      if kind == command
      then resolve_writer io h.provider ak (c ∷ cs) r disk
      else (or_fail provider_unavailable (first (fits_hint h.provider) (c ∷ cs)), r, disk)
]

unfoldable pub resolve_among : Bool → Hints → Kind → List Provider → Registry → Disk → Outcome
resolve_among io h kind [] r disk = (err no_provider, r, disk)
resolve_among io h kind (p ∷ ps) r disk =
    if p.export.mode == "stateful"
    then elim (infer_authority (p ∷ ps) h) [
      | err e ↦ (err e, r, disk)
      | ok ak ↦ resolve_stateful io h kind (p ∷ ps) ak r disk
    ]
    else (or_fail all_unhealthy (first (serves h.provider) (p ∷ ps)), r, disk)

unfoldable pub resolve_for_kind : Bool → Key → Hints → Kind → Registry → Disk → Outcome
resolve_for_kind io k h kind r disk =
    resolve_among io (with_binding r k h) kind (providers_at k r.providers) r disk

-- Resolve, for callers that give no kind.
unfoldable pub resolve : Bool → Key → Hints → Registry → Disk → Outcome
resolve io k h r disk = resolve_for_kind io k h query r disk
