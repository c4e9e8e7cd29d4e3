-- ===== src/Kernel/Registry/Runtimes.antt =====
-- Bindings, the registration and the removal of a running plugin, and the lookups.
use agent_native_os.Prelude.{
  ℕ, String, Bool, true, false, not, Option, none, some, List, [], ◌∷◌, ◌++◌, ◌==◌, text_comparable,
  any, keep, is_empty, if◌then◌else◌, nat_comparable,
}
use agent_native_os.Prelude.Int64.{slt}
use agent_native_os.Prelude.Map.{Map, lookup, insert, erase}
use agent_native_os.Prelude.Result.{Result, ok, err, ◌>>◌, fail_if}
use agent_native_os.Prelude.Text.{str_lt}
use agent_native_os.Kernel.Manifest.{Manifest, Capability, has_capability}
use agent_native_os.Kernel.Registry.State.{
  Provider, Key, Key-Comparable, Binding, AuthorityKey, AuthorityKey-Comparable, Registry,
}
use agent_native_os.Kernel.Registry.Health.{clear_writer}

unfoldable pub set_binding : String → ℕ → Binding → Registry → Registry
set_binding name major b r = record r {
  bindings = insert (record { name = name; major = major }) b r.bindings;
}

-- The empty mode stands for "stateless".
abbrev pub mode_of : Capability → String
mode_of c = if c.mode == "" then "stateless" else c.mode

abbrev pub is_stateful : Capability → Bool
is_stateful c = mode_of c == "stateful"

abbrev pub authority_of : Capability → AuthorityKey
authority_of c = record { service = c.service; authority = c.authority }

-- Another data namespace is already stored for the authority.
abbrev pub conflicts : Map AuthorityKey String → AuthorityKey → String → Bool
conflicts storage ak ns = elim (lookup ak storage) [
  | none ↦ false
  | some existing ↦ not (existing == ns)
]

pub data RegisterError : Type 0 where
  storage_conflict : Capability → RegisterError

unfoldable pub check_storage :
    Map AuthorityKey String → String → List Capability → Result RegisterError (Unit {0})
check_storage storage ns [] = ok tt
check_storage storage ns (c ∷ cs) =
    let rest = check_storage storage ns cs in
    if is_stateful c
    then (do fail_if (conflicts storage (authority_of c) ns) (storage_conflict c); rest)
    else rest

unfoldable pub reserve :
    String → List Capability → Map AuthorityKey String → Map AuthorityKey String
reserve ns [] storage = storage
reserve ns (c ∷ cs) storage =
    reserve ns cs (if is_stateful c then insert (authority_of c) ns storage else storage)

-- The order of the stable sort: a greater priority first, then the plugin's name.
unfoldable pub before : Provider → Provider → Bool
before a b =
    if a.export.priority == b.export.priority
    then str_lt a.plugin_id b.plugin_id
    else slt b.export.priority a.export.priority

unfoldable pub insert_sorted : Provider → List Provider → List Provider
insert_sorted p [] = p ∷ []
insert_sorted p (q ∷ qs) = if before q p then q ∷ insert_sorted p qs else p ∷ q ∷ qs

-- sort.SliceStable: an element stays in front of its equals.
unfoldable pub stable_sort : List Provider → List Provider
unfolding insert_sorted
stable_sort [] = []
stable_sort (p ∷ ps) = insert_sorted p (stable_sort ps)

abbrev pub provider_of : Manifest → String → Capability → Provider
provider_of m runtime_id c = record {
  plugin_id = m.plugin.id;
  runtime_id = runtime_id;
  writer_epoch = 0;
  failure_count = 0;
  heartbeat_failures = 0;
  process_healthy = true;
  dependencies_healthy = true;
  circuit_open = false;
  healthy = true;
  manifest = m;
  export = record c { mode = mode_of c };
}

abbrev pub providers_at : Key → Map Key (List Provider) → List Provider
providers_at k m = elim (lookup k m) [ none ↦ [] | some ps ↦ ps ]

unfoldable pub add_providers :
    Manifest → String → List Capability → Map Key (List Provider) → Map Key (List Provider)
add_providers m runtime_id [] all = all
add_providers m runtime_id (c ∷ cs) all =
    let k : Key = record { name = c.name; major = c.major } in
    add_providers m runtime_id cs
      (insert k (stable_sort (providers_at k all ++ provider_of m runtime_id c ∷ [])) all)

unfoldable pub register_runtime :
    Manifest → String → Registry → Result RegisterError (Unit {0}) × Registry
register_runtime m runtime_id r =
    elim (check_storage r.authority_storage m.runtime.data_namespace m.exports) [
      | err e ↦ (err e, r)
      | ok _ ↦ (
        ok tt,
        record r {
          authority_storage = reserve m.runtime.data_namespace m.exports r.authority_storage;
          providers = add_providers m runtime_id m.exports r.providers;
        },
      )
    ]

-- A key whose last provider goes is deleted.
unfoldable pub drop_runtime : String → Map Key (List Provider) → Map Key (List Provider)
drop_runtime runtime_id [] = []
drop_runtime runtime_id ((k, ps) ∷ m) =
    let rest = drop_runtime runtime_id m in
    let kept = keep (λ p. not (p.runtime_id == runtime_id)) ps in
    if is_empty kept then erase k rest else (k, kept) ∷ rest

unfoldable pub remove_runtime : String → Registry → Registry
remove_runtime runtime_id r =
    clear_writer runtime_id (record r { providers = drop_runtime runtime_id r.providers })

-- Manifest(pluginID)
unfoldable pub manifest : String → Registry → Option Manifest
manifest plugin_id r = lookup plugin_id r.by_plugin

abbrev has_healthy : Registry → Capability → Bool
has_healthy r need =
    any (λ p. p.healthy)
      (providers_at (record { name = need.name; major = need.major }) r.providers)

unfoldable pub missing_healthy_required : Manifest → Registry → List Capability
missing_healthy_required m r = keep (λ need. not (has_healthy r need)) m.consumes.required

unfoldable pub missing_healthy_optional : Manifest → Registry → List Capability
missing_healthy_optional m r = keep (λ need. not (has_healthy r need)) m.consumes.optional

-- MissingRequired: by declaration, not by health.
unfoldable pub missing_required : Manifest → List Manifest → List Capability
unfolding has_capability
missing_required m installed =
    keep
      (λ need.
        not (any (λ candidate. has_capability candidate.exports need.name need.major) installed))
      m.consumes.required
