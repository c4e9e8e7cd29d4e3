-- ===== src/Kernel/Registry/Trace.antt =====
-- Sequences of the registry's operations, and the invariant of every state that they reach.
use agent_native_os.Prelude.{
  ℕ, String, Bool, true, false, not, ◌&&◌, ◌≡◌, refl, sym, inl, inr, Option, List, [], ◌∷◌, ◌==◌,
  All-imp, All_at, Bool-cases, subst, ap, ◌∙◌,
}
use agent_native_os.Prelude.Int64.{slt}
use agent_native_os.Prelude.Map.{lookup, insert, lookup-insert}
use agent_native_os.Prelude.Result.{ok, err, Result-cases}
use agent_native_os.Kernel.Protocol.{Kind, command, Kind-Comparable, kind_eq_iff}
use agent_native_os.Kernel.Manifest.{Manifest}
use agent_native_os.Kernel.Contracts.{Catalog}
use agent_native_os.Kernel.Registry.State.{
  Provider, Key, Key-Comparable, Binding, AuthorityKey, AuthorityKey-Comparable, Registry,
  AllProviders, new,
}
use agent_native_os.Kernel.Registry.Health.{
  mark_health, mark_dependency_health, record_failure, record_success, record_heartbeat_failure,
  record_heartbeat_success,
}
use agent_native_os.Kernel.Registry.Runtimes.{
  providers_at, set_binding, register_runtime, remove_runtime, authority_of,
}
use agent_native_os.Kernel.Registry.Admission.{add_manifest, check_manifest}
use agent_native_os.Kernel.Registry.Fence.{Disk}
use agent_native_os.Kernel.Registry.Resolve.{Hints, with_binding, resolve_for_kind, Outcome}
use agent_native_os.Kernel.Registry.Validity.{
  Flags, IsSound, IsValid, mark_health-IsValid, mark_dependency_health-IsValid,
  record_failure-IsValid, record_success-IsValid, record_heartbeat_failure-IsValid,
  record_heartbeat_success-IsValid,
}
use agent_native_os.Kernel.Registry.Routing.{
  IsServed, Routed, Returns, is_stateful_key, resolve_for_kind-Returns,
}
use agent_native_os.Kernel.Registry.Lifecycle.{
  IsUnused, register_runtime-IsValid, remove_runtime-IsValid, All-providers_at,
}

-- An operation of the registry that changes its state, with its arguments. The first argument of
-- `resolving` says whether the calls of the operating system succeed.
pub data Op : Type 0 where
  cataloguing : Option Catalog → Op
  admitting : Manifest → Op
  binding : String → ℕ → Binding → Op
  registering : Manifest → String → Op
  removing : String → Op
  marking marking_dependency : String → Bool → Op
  failing succeeding missing_heartbeat beating : String → Op
  resolving : Bool → Key → Hints → Kind → Op

unfoldable pub set_contract_catalog : Option Catalog → Registry → Registry
set_contract_catalog c r = record r { contracts = c }

unfoldable pub step : Op → Registry × Disk → Registry × Disk
step (cataloguing c) (r, disk) = (set_contract_catalog c r, disk)
step (admitting m) (r, disk) = ((add_manifest m r).1, disk)
step (binding name major b) (r, disk) = (set_binding name major b r, disk)
step (registering m runtime_id) (r, disk) = ((register_runtime m runtime_id r).1, disk)
step (removing runtime_id) (r, disk) = (remove_runtime runtime_id r, disk)
step (marking runtime_id b) (r, disk) = (mark_health runtime_id b r, disk)
step (marking_dependency runtime_id b) (r, disk) = ((mark_dependency_health runtime_id b r).0, disk)
step (failing runtime_id) (r, disk) = (record_failure runtime_id r, disk)
step (succeeding runtime_id) (r, disk) = (record_success runtime_id r, disk)
step (missing_heartbeat runtime_id) (r, disk) = (record_heartbeat_failure runtime_id r, disk)
step (beating runtime_id) (r, disk) = (record_heartbeat_success runtime_id r, disk)
step (resolving io k h kind) (r, disk) =
    let (_, r', disk') = resolve_for_kind io k h kind r disk in (r', disk')

-- The names of runtimes are fresh: nothing is registered under a name that is in use.
abbrev pub IsFresh : Op → Registry → Type 0
IsFresh (registering m runtime_id) r = IsUnused runtime_id r
IsFresh _ r = Unit

unfoldable pub run : List Op → Registry × Disk → Registry × Disk
run [] w = w
run (op ∷ ops) w = run ops (step op w)

abbrev pub AllFresh : List Op → Registry × Disk → Type 0
AllFresh [] w = Unit
AllFresh (op ∷ ops) w = IsFresh op w.0 × AllFresh ops (step op w)

same_shape-IsValid :
    (r r' : Registry) → r'.providers ≡ r.providers → r'.writers ≡ r.writers → IsValid r → IsValid r'
same_shape-IsValid r r' ps ws v = record {
  flags = v.flags;
  sound = record { at_key = λ k xs e. v.sound.at_key k xs (rw ps at e) };
  writer = λ ak l e held. record {
    at_key = λ k xs q. (v.writer ak l (rw ws at e) held).at_key k xs (rw ps at q);
  };
}

abbrev health_of : Flags → Bool
health_of x =
    x.process_healthy && x.dependencies_healthy && not x.circuit_open && slt x.heartbeat_failures 3

-- A healthy provider's runtime is healthy in all its entries.
healthy_runtime :
    (flags : String → Flags) (r : Registry) (source : Provider)
    → AllProviders (IsSound flags) r
    → IsSound flags source
    → source.healthy ≡ true
    → AllProviders (λ q. q.runtime_id ≡ source.runtime_id → q.healthy ≡ true) r
healthy_runtime flags r source s sound h = record {
  at_key = λ k ps e.
      All-imp _ ps
        (λ q x at.
          x.exact
          ∙ ap health_of (x.tracked ∙ ap flags at ∙ sym sound.tracked)
          ∙ sym sound.exact
          ∙ h)
        (s.at_key k ps e);
}

promoted-IsValid :
    (ak : AuthorityKey) (hint : String) (k : Key) (r : Registry) (p : Provider)
    → IsValid r
    → IsServed hint (providers_at k r.providers) p
    → IsValid (record r {
      writers = insert ak (record { runtime_id = p.runtime_id; epoch = p.writer_epoch }) r.writers;
    })
promoted-IsValid ak hint k r p v s = record {
  flags = v.flags;
  sound = record { at_key = v.sound.at_key };
  writer = λ j l e held. elim (Bool-cases (ak == j)) [
    | inr miss ↦ record { at_key = (v.writer j l (rw (lookup-insert, miss) at e) held).at_key }
    | inl hit ↦
        let same : record { runtime_id = p.runtime_id; epoch = p.writer_epoch } ≡ l =
          cc (rw (lookup-insert, hit) at e) in
        let at_source : l.runtime_id ≡ s.source.runtime_id =
          sym (ap (λ x. x.runtime_id) same) ∙ ap (λ x. x.runtime_id) s.same in
        let sound : IsSound v.flags s.source =
          All_at (IsSound v.flags) (providers_at k r.providers) s.listed
            (All-providers_at (IsSound v.flags) k r.providers v.sound.at_key) in
        record {
          at_key = λ i ps q.
              All-imp _ ps (λ x h at. h (at ∙ at_source))
                ((healthy_runtime v.flags r s.source v.sound sound s.healthy).at_key i ps q);
        }
  ];
}

resolve-IsValid :
    (io : Bool) (k : Key) (h : Hints) (kind : Kind) (r : Registry) (disk : Disk)
    → IsValid r
    → IsValid (resolve_for_kind io k h kind r disk).1
resolve-IsValid io k h kind r disk v =
    go (resolve_for_kind io k h kind r disk) (resolve_for_kind-Returns io k h kind r disk)
  where
    ps : List Provider
    ps = providers_at k r.providers

    go : (o : Outcome) → Returns r disk (Routed (with_binding r k h) kind ps r disk) o → IsValid o.1
    go (err e, r', disk') w = subst IsValid (sym w.0) v
    go (ok p, r', disk') w = elim (Bool-cases (is_stateful_key ps)) [
      | inr plain ↦ subst IsValid (sym (w.2 (inl plain)).0) v
      | inl stateful ↦ elim (Bool-cases (kind == command)) [
        | inr other ↦ subst IsValid (sym (w.2 (inr (λ e. cc ((kind_eq_iff kind command).1 e)))).0) v
        | inl is_command ↦ elim (w.1 stateful ((kind_eq_iff kind command).0 is_command)).written [
          | inl same ↦ subst IsValid (sym same.0) v
          | inr (next, memory, file) ↦
              subst IsValid (sym memory) (promoted-IsValid (authority_of p.export) _ k r p v w.0)
        ]
      ]
    ]

add_manifest-IsValid : (m : Manifest) (r : Registry) → IsValid r → IsValid (add_manifest m r).1
unfolding add_manifest
add_manifest-IsValid m r v = elim (Result-cases (check_manifest m r)) [
  | inl (pending, passed) ↦ rw (passed, add_manifest) (same_shape-IsValid r _ refl refl v)
  | inr (e, failed) ↦ rw (failed, add_manifest) v
]

step-IsValid :
    (op : Op) (r : Registry) (disk : Disk)
    → IsFresh op r
    → IsValid r
    → IsValid (step op (r, disk)).0
unfolding step set_contract_catalog set_binding
step-IsValid (cataloguing c) r disk f v = same_shape-IsValid r _ refl refl v
step-IsValid (admitting m) r disk f v = add_manifest-IsValid m r v
step-IsValid (binding name major b) r disk f v = same_shape-IsValid r _ refl refl v
step-IsValid (registering m runtime_id) r disk f v = register_runtime-IsValid m runtime_id r f v
step-IsValid (removing runtime_id) r disk f v = remove_runtime-IsValid runtime_id r v
step-IsValid (marking runtime_id b) r disk f v = mark_health-IsValid runtime_id b r v
step-IsValid (marking_dependency runtime_id b) r disk f v =
    mark_dependency_health-IsValid runtime_id b r v
step-IsValid (failing runtime_id) r disk f v = record_failure-IsValid runtime_id r v
step-IsValid (succeeding runtime_id) r disk f v = record_success-IsValid runtime_id r v
step-IsValid (missing_heartbeat runtime_id) r disk f v =
    record_heartbeat_failure-IsValid runtime_id r v
step-IsValid (beating runtime_id) r disk f v = record_heartbeat_success-IsValid runtime_id r v
step-IsValid (resolving io k h kind) r disk f v = resolve-IsValid io k h kind r disk v

-- From a registry in which health is exact (healthy means: the process and its dependencies are
-- up, the circuit is closed and fewer than three heartbeats are missed), three failures have opened
-- the circuit, all entries of a runtime agree, and a lease is held only by a runtime whose entries
-- are all healthy, every sequence of operations that registers runtimes under fresh names reaches
-- a registry of which the same holds.
pub run-IsValid :
    (ops : List Op) (r : Registry) (disk : Disk)
    → AllFresh ops (r, disk)
    → IsValid r
    → IsValid (run ops (r, disk)).0
unfolding run
run-IsValid [] r disk f v = v
run-IsValid (op ∷ ops) r disk f v =
    let (r', disk') = step op (r, disk) in
    run-IsValid ops r' disk' f.1 (step-IsValid op r disk f.0 v)

pub new-IsValid : IsValid new
unfolding lookup
new-IsValid = record {
  flags = λ x. record {
    failure_count = 0;
    heartbeat_failures = 0;
    process_healthy = true;
    dependencies_healthy = true;
    circuit_open = false;
  };
  sound = record { at_key = λ k ps e. cc };
  writer = λ ak l e. cc;
}
