-- ===== src/Kernel/Registry/Tests.antt =====
-- Runs of the registry, and its theorems at them: two plugins that serve one stateful capability.
use agent_native_os.Prelude.Text.{str_lt}
use mathlib.Core.List.{Memᴰ}
use agent_native_os.Prelude.{
  ℕ, ◌≤◌, String, true, false, ◌≡◌, ◌≢◌, str_eq_iff, refl, List, [], ◌∷◌, arith,
}
use agent_native_os.Prelude.Map.{lookup, insert, map_values, values}
use agent_native_os.Prelude.Result.{ok}
use agent_native_os.Kernel.Protocol.{command}
use agent_native_os.Kernel.Manifest.{Manifest, Capability}
use agent_native_os.Kernel.Registry.State.{Provider, Key, AuthorityKey, Registry, new}
use agent_native_os.Kernel.Registry.Health.{
  mark_health, recompute_health, clear_writer, touch, flagged,
}
use agent_native_os.Kernel.Registry.Runtimes.{
  register_runtime, check_storage, reserve, add_providers, stable_sort, before, providers_at,
  provider_of,
}
use agent_native_os.Kernel.Registry.Fence.{Disk, fence_base}
use agent_native_os.Kernel.Registry.Resolve.{
  Hints, resolve_for_kind, resolve_among, resolve_stateful, resolve_writer, promote,
  infer_authority, active_writer, lease_of,
}
use agent_native_os.Kernel.Registry.Available.{IsServing, resolve-IsServing}
use agent_native_os.Kernel.Registry.Validity.{IsValid}
use agent_native_os.Kernel.Registry.Routing.{IsServed, IsFenced, resolve-IsServed, resolve-IsFenced}
use agent_native_os.Kernel.Registry.Trace.{
  Op, registering, marking, resolving, step, run, run-IsValid, new-IsValid,
}
use agent_native_os.Kernel.Registry.Leases.{Grant, grant, grants}
use agent_native_os.Kernel.Registry.SingleWriter.{IsBounded, single_writer, epochs_grow}

abbrev capability : Capability
capability = record {
  name = "work.create";
  major = 1;
  contract = "work.create@1";
  mode = "stateful";
  service = "work";
  authority = "main";
  priority = 0;
}

abbrev plugin_named : String → Manifest
plugin_named id = record {
  manifest_version = 1;
  plugin = record { id = id; version = "1" };
  runtime = record {
    protocol = "vibe-plugin/1";
    executable = "run";
    args = [];
    isolation = "";
    data_namespace = "work";
  };
  exports = capability ∷ [];
  consumes = record { required = []; optional = [] };
  publishes = [];
  subscribes = [];
  permissions = [];
  restart = record { mode = ""; max_attempts = 0; cooldown_ms = 0 };
  resources = record { memory_mb = 0; cpu_weight = 0 };
}

abbrev key : Key
key = record { name = "work.create"; major = 1 }

abbrev no_hints : Hints
no_hints = record { provider = ""; service = ""; authority = "" }

abbrev main : AuthorityKey
main = record { service = "work"; authority = "main" }

-- A configured registry with nothing in it.
abbrev start : Registry
start = record new { fence_root = "/fences" }

abbrev ask : Op
ask = resolving true key no_hints command

-- `a` serves, fails, and `b` takes over.
abbrev takeover : List Op
takeover =
    registering (plugin_named "p") "a"
    ∷ registering (plugin_named "q") "b"
    ∷ ask
    ∷ ask
    ∷ marking "a" false
    ∷ ask
    ∷ []

abbrev grant_to : String → ℕ → Grant
grant_to runtime_id epoch = record { authority = main; runtime_id = runtime_id; epoch = epoch }

abbrev serving : Registry × Disk
serving = run (registering (plugin_named "p") "a" ∷ []) (start, [])

-- The definitions that a run of the registry computes with.
everything : Unit {0}
unfolding run grants grant step register_runtime check_storage reserve add_providers stable_sort
    before str_lt resolve_for_kind resolve_among resolve_stateful resolve_writer promote
    infer_authority active_writer lease_of mark_health recompute_health clear_writer touch flagged
    lookup insert map_values values fence_base
everything = tt

grants-takeover :
    grants takeover (start, []) [] ≡ grant_to "b" 2 ∷ grant_to "a" 1 ∷ grant_to "a" 1 ∷ []
unfolding everything
grants-takeover = refl

start-IsBounded : IsBounded 6 start
unfolding lease_of lookup
start-IsBounded ak = omega arith

single_writer_example : (grant_to "a" 1).runtime_id ≡ (grant_to "a" 1).runtime_id
single_writer_example =
    single_writer takeover start [] start-IsBounded (grant_to "a" 1) (grant_to "a" 1)
      (rw grants-takeover (Memᴰ.tail (Memᴰ.head refl)))
      (rw grants-takeover (Memᴰ.tail (Memᴰ.tail (Memᴰ.head refl)))) refl refl

epochs_grow_example :
    (lease_of main start).epoch ≤ (lease_of main (run takeover (start, [])).0).epoch
epochs_grow_example = epochs_grow takeover start [] main start-IsBounded

epoch-takeover : (lease_of main (run takeover (start, [])).0).epoch ≡ 2
unfolding everything
epoch-takeover = refl

abbrev served : ℕ → Provider
served epoch = record (provider_of (plugin_named "p") "a" capability) { writer_epoch = epoch }

resolve_for_kind-serving :
    (resolve_for_kind true key no_hints command serving.0 serving.1).0 ≡ ok (served 1)
unfolding everything
resolve_for_kind-serving = refl

resolve-IsServed_example : IsServed "" (providers_at key serving.0.providers) (served 1)
unfolding everything
resolve-IsServed_example =
    resolve-IsServed true key no_hints command serving.0 serving.1 (served 1)
      resolve_for_kind-serving

resolve-IsFenced_example :
    IsFenced main serving.0 serving.1
      (served 1)
      (resolve_for_kind true key no_hints command serving.0 serving.1).1
      (resolve_for_kind true key no_hints command serving.0 serving.1).2
resolve-IsFenced_example =
    resolve-IsFenced true key no_hints serving.0 serving.1 (served 1) (unfold everything in refl)
      resolve_for_kind-serving

start-IsValid : IsValid start
unfolding lookup
start-IsValid = record {
  flags = new-IsValid.flags;
  sound = record { at_key = λ k ps e. cc };
  writer = λ ak l e. cc;
}

run-IsValid_example :
    IsValid (run (registering (plugin_named "p") "a" ∷ ask ∷ marking "a" false ∷ []) (start, [])).0
run-IsValid_example =
    run-IsValid (registering (plugin_named "p") "a" ∷ ask ∷ marking "a" false ∷ []) start []
      (record { at_key = λ k ps e. unfold lookup in cc }, (tt, (tt, tt))) start-IsValid

abbrev main_hints : Hints
main_hints = record { provider = ""; service = "work"; authority = "main" }

-- `a` serves and fails, and `b` is there.
abbrev failed_over : Registry × Disk
failed_over =
    run
      (registering (plugin_named "p") "a"
        ∷ registering (plugin_named "q") "b"
        ∷ ask
        ∷ marking "a" false
        ∷ [])
      (start, [])

abbrev standby : Provider
standby = provider_of (plugin_named "q") "b" capability

standby_listed : Memᴰ standby (providers_at key failed_over.0.providers)
unfolding everything
standby_listed = Memᴰ.tail (Memᴰ.head refl)

rooted : failed_over.0.fence_root ≢ ""
unfolding everything
rooted = ground (arith, str_eq_iff "/fences" "")

resolve-IsServing_example :
    IsServing (resolve_for_kind true key main_hints command failed_over.0 failed_over.1)
unfolding everything
resolve-IsServing_example =
    resolve-IsServing failed_over.0 failed_over.1 rooted key main_hints command standby
      standby_listed refl refl
      (ground (arith, str_eq_iff "work" ""), ground (arith, str_eq_iff "main" "")) (refl, refl)
