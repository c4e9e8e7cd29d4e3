-- ===== src/Kernel/Registry/Leases.antt =====
-- What each operation of the registry does to the leases, and what it grants.
use agent_native_os.Kernel.Manifest.{Manifest}
use mathlib.Core.Option
use agent_native_os.Prelude.{
  ℕ, String, Bool, true, false, ◌&&◌, ◌≡◌, ◌≢◌, refl, sym, inl, inr, Option, none, some, List, [],
  ◌∷◌, ◌==◌, text_comparable, arith, if◌then◌else◌, ap, ◌∙◌,
}
use agent_native_os.Prelude.Int64.{incr}
use agent_native_os.Prelude.Map.{lookup, insert, lookup-insert}
use agent_native_os.Prelude.Result.{Result, ok, err, Result-cases}
use agent_native_os.Kernel.Protocol.{Kind, command, Kind-Comparable, kind_eq_iff}
use agent_native_os.Kernel.Registry.State.{
  Provider, Key, Key-Comparable, AuthorityKey, AuthorityKey-Comparable, WriterLease, Registry,
}
use agent_native_os.Kernel.Registry.Health.{
  clear_lease, clear_writer, touch, flagged, mark_health, mark_dependency_health, record_failure,
  record_success, record_heartbeat_failure, record_heartbeat_success,
}
use agent_native_os.Kernel.Registry.Touch.{lookup-clear_writer}
use agent_native_os.Kernel.Registry.Runtimes.{
  providers_at, set_binding, register_runtime, remove_runtime, authority_of, check_storage,
  drop_runtime,
}
use agent_native_os.Kernel.Registry.Admission.{add_manifest, check_manifest}
use agent_native_os.Kernel.Registry.Fence.{Disk}
use agent_native_os.Kernel.Registry.Resolve.{
  Hints, with_binding, resolve_for_kind, Outcome, lease_of, lease_in, ResolveError,
}
use agent_native_os.Kernel.Registry.Routing.{
  Routed, Returns, is_stateful_key, resolve_for_kind-Returns,
}
use agent_native_os.Kernel.Registry.Trace.{
  Op, cataloguing, admitting, binding, registering, removing, marking, marking_dependency, failing,
  succeeding, missing_heartbeat, beating, resolving, step, set_contract_catalog,
}

-- The right to write that a resolved command carries: the router puts the epoch into the request.
pub record Grant : Type 0 where
  pub authority : AuthorityKey
  pub runtime_id : String
  pub epoch : ℕ

abbrev pub grant_of_provider : Result ResolveError Provider → Option Grant
grant_of_provider (err e) = none
grant_of_provider (ok p) = some (record {
  authority = authority_of p.export;
  runtime_id = p.runtime_id;
  epoch = p.writer_epoch;
})

-- What an operation grants.
unfoldable pub grant : Op → Registry × Disk → Option Grant
grant (resolving io k h kind) (r, disk) =
    if is_stateful_key (providers_at k r.providers) && kind == command
    then grant_of_provider (resolve_for_kind io k h kind r disk).0
    else none
grant _ w = none

abbrev pub add_grant : Option Grant → List Grant → List Grant
add_grant none gs = gs
add_grant (some g) gs = g ∷ gs

-- All that a sequence of operations grants, the latest first, in front of what was granted before.
unfoldable pub grants : List Op → Registry × Disk → List Grant → List Grant
grants [] w past = past
grants (op ∷ ops) w past = grants ops (step op w) (add_grant (grant op w) past)

abbrev pub SameLeases : Registry → Registry → Type 0
SameLeases r r' = (ak : AuthorityKey) → lease_of ak r' ≡ lease_of ak r

-- What an operation does to the leases.
pub data Change (r r' : Registry) : Option Grant → Type 0 where
  same : SameLeases r r' → Change r r' none
  cleared :
      (runtime_id : String)
      → ((ak : AuthorityKey) → lease_of ak r' ≡ clear_lease runtime_id (lease_of ak r))
      → Change r r' none
  again :
      (g : Grant)
      → lease_of g.authority r ≡ record { runtime_id = g.runtime_id; epoch = g.epoch }
      → g.runtime_id ≢ ""
      → SameLeases r r'
      → Change r r' (some g)
  next :
      (g : Grant)
      → g.epoch ≡ incr (lease_of g.authority r).epoch
      → ((ak : AuthorityKey)
          → lease_of ak r' ≡ (
              if g.authority == ak
              then record { runtime_id = g.runtime_id; epoch = g.epoch }
              else lease_of ak r))
      → Change r r' (some g)

-- The leases depend on the writers alone.
lease_of_writers : (r r' : Registry) → r'.writers ≡ r.writers → SameLeases r r'
unfolding lease_of
lease_of_writers r r' e ak = ap (λ m. lease_in (lookup ak m)) e

lease_of-clear_writer :
    (runtime_id : String) (ak : AuthorityKey) (r : Registry)
    → lease_of ak (clear_writer runtime_id r) ≡ clear_lease runtime_id (lease_of ak r)
unfolding lease_of
lease_of-clear_writer runtime_id ak r =
    ap lease_in (lookup-clear_writer runtime_id ak r) ∙ at (lookup ak r.writers)
  where
    at :
        (o : Option WriterLease)
        → lease_in (Option.map (clear_lease runtime_id) o) ≡ clear_lease runtime_id (lease_in o)
    at none = ground arith
    at (some l) = refl

lease_of-insert :
    (ak j : AuthorityKey) (l : WriterLease) (r : Registry)
    → lease_of j (record r { writers = insert ak l r.writers })
      ≡ (if ak == j then l else lease_of j r)
unfolding lease_of
lease_of-insert ak j l r = ground (arith, lookup-insert ak j l r.writers)

-- The updates of health either keep all leases or clear those of one runtime.
flagged-Change :
    (runtime_id : String) (f : Provider → Provider) (b : Bool) (r : Registry)
    → Change r
        (if b then clear_writer runtime_id (touch runtime_id f r) else touch runtime_id f r)
        none
flagged-Change runtime_id f true r = cleared runtime_id (λ ak.
    lease_of-clear_writer runtime_id ak (touch runtime_id f r)
    ∙ ap (clear_lease runtime_id)
        (lease_of_writers r (touch runtime_id f r) (unfold touch in refl) ak))
flagged-Change runtime_id f false r =
    same (lease_of_writers r (touch runtime_id f r) (unfold touch in refl))

writers-add_manifest : (m : Manifest) (r : Registry) → (add_manifest m r).1.writers ≡ r.writers
unfolding add_manifest
writers-add_manifest m r = elim (Result-cases (check_manifest m r)) [
  | inl (pending, passed) ↦ rw (passed, add_manifest)
  | inr (e, failed) ↦ rw (failed, add_manifest)
]

writers-register_runtime :
    (m : Manifest) (runtime_id : String) (r : Registry)
    → (register_runtime m runtime_id r).1.writers ≡ r.writers
unfolding register_runtime
writers-register_runtime m runtime_id r =
    elim (Result-cases (check_storage r.authority_storage m.runtime.data_namespace m.exports)) [
      | inl (done, passed) ↦ rw (passed, register_runtime)
      | inr (e, failed) ↦ rw (failed, register_runtime)
    ]

resolve-Change :
    (io : Bool) (k : Key) (h : Hints) (kind : Kind) (r : Registry) (disk : Disk)
    → Change r (resolve_for_kind io k h kind r disk).1 (grant (resolving io k h kind) (r, disk))
unfolding grant lookup
resolve-Change io k h kind r disk =
    go (is_stateful_key ps) (kind == command) refl refl (resolve_for_kind io k h kind r disk)
      (resolve_for_kind-Returns io k h kind r disk)
  where
    ps : List Provider
    ps = providers_at k r.providers

    kept : (r' : Registry) → r' ≡ r → SameLeases r r'
    kept r' e ak = ap (lease_of ak) e

    go :
        (stateful is_command : Bool)
        → is_stateful_key ps ≡ stateful
        → (kind == command) ≡ is_command
        → (o : Outcome) → Returns r disk (Routed (with_binding r k h) kind ps r disk) o
        → Change r o.1 (if stateful && is_command then grant_of_provider o.0 else none)
    go false b e c (ok p, r', disk') w = same (kept r' (w.2 (inl e)).0)
    go true false e c (ok p, r', disk') w =
        same (kept r' (w.2 (inr (λ x. cc ((kind_eq_iff kind command).1 x)))).0)
    go true true e c (ok p, r', disk') w =
        let fenced = w.1 e ((kind_eq_iff kind command).0 c) in
        elim fenced.written [
          | inl (unchanged, _, held) ↦
              let before = sym (ap (lease_of (authority_of p.export)) unchanged) ∙ fenced.leased in
              again _ before (λ x. held (ap (λ l. l.runtime_id) before ∙ x)) (kept r' unchanged)
          | inr (number, memory, file) ↦
              next _ number (λ ak. ap (lease_of ak) memory ∙ lease_of-insert _ ak _ r)
        ]
    go false b e c (err x, r', disk') w = same (kept r' w.0)
    go true false e c (err x, r', disk') w = same (kept r' w.0)
    go true true e c (err x, r', disk') w = same (kept r' w.0)

lease_of-remove_runtime :
    (runtime_id : String) (r : Registry) (ak : AuthorityKey)
    → lease_of ak (remove_runtime runtime_id r) ≡ clear_lease runtime_id (lease_of ak r)
unfolding remove_runtime lease_of
lease_of-remove_runtime runtime_id r ak =
    lease_of-clear_writer runtime_id ak
      (record r { providers = drop_runtime runtime_id r.providers })

pub step-Change :
    (op : Op) (r : Registry) (disk : Disk) → Change r (step op (r, disk)).0 (grant op (r, disk))
unfolding step grant set_contract_catalog set_binding mark_health mark_dependency_health
    record_failure record_success record_heartbeat_failure record_heartbeat_success
step-Change (cataloguing c) r disk = same (lease_of_writers r _ refl)
step-Change (admitting m) r disk = same (lease_of_writers r _ (writers-add_manifest m r))
step-Change (binding name major b) r disk = same (lease_of_writers r _ refl)
step-Change (registering m runtime_id) r disk =
    same (lease_of_writers r _ (writers-register_runtime m runtime_id r))
step-Change (removing runtime_id) r disk = cleared runtime_id (lease_of-remove_runtime runtime_id r)
step-Change (marking runtime_id b) r disk = flagged-Change runtime_id _ (flagged runtime_id _ r) r
step-Change (marking_dependency runtime_id b) r disk =
    flagged-Change runtime_id _ (flagged runtime_id _ r) r
step-Change (failing runtime_id) r disk = flagged-Change runtime_id _ (flagged runtime_id _ r) r
step-Change (succeeding runtime_id) r disk = flagged-Change runtime_id _ false r
step-Change (missing_heartbeat runtime_id) r disk =
    flagged-Change runtime_id _ (flagged runtime_id _ r) r
step-Change (beating runtime_id) r disk = flagged-Change runtime_id _ false r
step-Change (resolving io k h kind) r disk = resolve-Change io k h kind r disk
