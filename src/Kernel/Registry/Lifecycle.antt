-- ===== src/Kernel/Registry/Lifecycle.antt =====
-- The registration and removal of runtimes, admission and resolution keep the invariant.
use mathlib.Core.Option
use agent_native_os.Prelude.{
  String, true, false, not, ◌≡◌, ◌≢◌, refl, sym, inl, inr, Option, none, some, List, [], ◌∷◌, ◌++◌,
  ◌==◌, text_comparable, str_eq_iff, All, arith, if◌then◌else◌, Bool-cases, subst, ap, All-append,
  All-keep, All-imp, keep, is_empty, Option-cases, All-and,
}
use agent_native_os.Prelude.Map.{
  Map, lookup, insert, lookup-insert, lookup-erase, lookup-map_values,
}
use agent_native_os.Prelude.Result.{Result-cases}
use agent_native_os.Kernel.Manifest.{Manifest, Capability}
use agent_native_os.Kernel.Registry.State.{
  Provider, Key, Key-Comparable, AuthorityKey, AuthorityKey-Comparable, WriterLease, Registry,
  AllProviders,
}
use agent_native_os.Kernel.Registry.Health.{clear_writer, clear_lease}
use agent_native_os.Kernel.Registry.Runtimes.{
  providers_at, provider_of, before, insert_sorted, stable_sort, add_providers, register_runtime,
  drop_runtime, remove_runtime, check_storage,
}
use agent_native_os.Kernel.Registry.Validity.{Flags, IsSound, Holds, IsValid}

module _ (P : Provider → Type 0) where
  All-insert_sorted :
      (p : Provider) (ps : List Provider) → P p → All P ps → All P (insert_sorted p ps)
  unfolding insert_sorted
  All-insert_sorted p [] h hs = (h, tt)
  All-insert_sorted p (q ∷ qs) h hs = elim (Bool-cases (before q p)) [
    | inl e ↦ rw e (hs.0, All-insert_sorted p qs h hs.1)
    | inr e ↦ rw e (h, hs)
  ]

  All-stable_sort : (ps : List Provider) → All P ps → All P (stable_sort ps)
  unfolding stable_sort
  All-stable_sort [] h = tt
  All-stable_sort (p ∷ ps) h = All-insert_sorted p (stable_sort ps) h.0 (All-stable_sort ps h.1)

-- The same over a map of providers.
abbrev pub AllAt : (Provider → Type 0) → Map Key (List Provider) → Type 0
AllAt P m = (k : Key) (ps : List Provider) → lookup k m ≡ some ps → All P ps

AllAt-insert :
    (P : Provider → Type 0) (k : Key) (ps : List Provider) (m : Map Key (List Provider))
    → All P ps
    → AllAt P m
    → AllAt P (insert k ps m)
AllAt-insert P k ps m h hs j qs e = elim (Bool-cases (k == j)) [
  | inl hit ↦ let same : ps ≡ qs = cc (rw (lookup-insert, hit) at e) in subst (All P) same h
  | inr miss ↦ hs j qs (rw (lookup-insert, miss) at e)
]

pub All-providers_at :
    (P : Provider → Type 0) (k : Key) (m : Map Key (List Provider))
    → AllAt P m
    → All P (providers_at k m)
All-providers_at P k m h = elim (Option-cases (lookup k m)) [
  | inl missing ↦ rw (missing, All) tt
  | inr (ps, found) ↦ rw (found, All) (h k ps found)
]

AllAt-add_providers :
    (P : Provider → Type 0) (m : Manifest) (runtime_id : String) (cs : List Capability)
    (all : Map Key (List Provider))
    → ((c : Capability) → P (provider_of m runtime_id c))
    → AllAt P all
    → AllAt P (add_providers m runtime_id cs all)
unfolding add_providers
AllAt-add_providers P m runtime_id [] all fresh h = h
AllAt-add_providers P m runtime_id (c ∷ cs) all fresh h =
    let k : Key = record { name = c.name; major = c.major } in
    let ps = providers_at k all ++ provider_of m runtime_id c ∷ [] in
    AllAt-add_providers P m runtime_id cs (insert k (stable_sort ps) all) fresh (
      AllAt-insert P k (stable_sort ps) all
        (All-stable_sort P ps
          (All-append P (providers_at k all) _ (All-providers_at P k all h) (fresh c, tt)))
        h)

abbrev survivors : String → List Provider → List Provider
survivors runtime_id ps = keep (λ p. not (p.runtime_id == runtime_id)) ps

abbrev pruned : String → Option (List Provider) → Option (List Provider)
pruned runtime_id none = none
pruned runtime_id (some ps) =
    if is_empty (survivors runtime_id ps) then none else some (survivors runtime_id ps)

-- What is left under a key when a runtime is dropped.
pub lookup-drop_runtime :
    (runtime_id : String) (k : Key) (m : Map Key (List Provider))
    → lookup k (drop_runtime runtime_id m) ≡ pruned runtime_id (lookup k m)
unfolding drop_runtime lookup
lookup-drop_runtime runtime_id k [] = refl
lookup-drop_runtime runtime_id k ((j, ps) ∷ m) =
    ground (arith, lookup-erase j k (drop_runtime runtime_id m), lookup-drop_runtime runtime_id k m)

AllAt-drop_runtime :
    (P : Provider → Type 0) (runtime_id : String) (m : Map Key (List Provider))
    → AllAt P m
    → AllAt P (drop_runtime runtime_id m)
AllAt-drop_runtime P runtime_id m h k ps e = go (lookup k m) refl (rw lookup-drop_runtime at e)
  where
    go :
        (found : Option (List Provider))
        → lookup k m ≡ found
        → pruned runtime_id found ≡ some ps
        → All P ps
    go none q w = cc
    go (some old) q w = elim (Bool-cases (is_empty (survivors runtime_id old))) [
      | inl gone ↦ cc (rw gone at w)
      | inr left ↦
          let same : survivors runtime_id old ≡ ps = cc (rw left at w) in
          subst (All P) same (All-keep P _ old (h k old q))
    ]

-- A new runtime: its entries are all fresh, and its name is not in use.
abbrev fresh_flags : Flags
fresh_flags = record {
  failure_count = 0;
  heartbeat_failures = 0;
  process_healthy = true;
  dependencies_healthy = true;
  circuit_open = false;
}

abbrev pub IsUnused : String → Registry → Type 0
IsUnused runtime_id r = AllProviders (λ p. p.runtime_id ≢ runtime_id) r

abbrev with_fresh : String → (String → Flags) → String → Flags
with_fresh runtime_id flags x = if x == runtime_id then fresh_flags else flags x

provider_of-IsSound :
    (m : Manifest) (runtime_id : String) (flags : String → Flags) (c : Capability)
    → IsSound (with_fresh runtime_id flags) (provider_of m runtime_id c)
provider_of-IsSound m runtime_id flags c = record {
  tracked = rw ((str_eq_iff runtime_id runtime_id).1 refl);
  exact = refl;
  tripped = λ e. cc;
}

kept-IsSound :
    (runtime_id : String) (flags : String → Flags) (p : Provider)
    → IsSound flags p
    → p.runtime_id ≢ runtime_id
    → IsSound (with_fresh runtime_id flags) p
kept-IsSound runtime_id flags p s other = record {
  tracked = ground (arith, s.tracked, str_eq_iff p.runtime_id runtime_id);
  exact = s.exact;
  tripped = s.tripped;
}

pub register_runtime-IsValid :
    (m : Manifest) (runtime_id : String) (r : Registry)
    → IsUnused runtime_id r
    → IsValid r
    → IsValid (register_runtime m runtime_id r).1
unfolding register_runtime
register_runtime-IsValid m runtime_id r unused v =
    elim (Result-cases (check_storage r.authority_storage m.runtime.data_namespace m.exports)) [
      | inr (e, failed) ↦ rw (failed, register_runtime) v
      | inl (done, passed) ↦
          rw (passed, register_runtime)
            (record {
              flags = with_fresh runtime_id v.flags;
              sound = record {
                at_key =
                    AllAt-add_providers (IsSound (with_fresh runtime_id v.flags)) m runtime_id
                      m.exports r.providers (provider_of-IsSound m runtime_id v.flags)
                      (λ k ps q.
                        All-imp _ ps (λ p h. kept-IsSound runtime_id v.flags p h.0 h.1)
                          (All-and _ _ ps (v.sound.at_key k ps q) (unused.at_key k ps q)));
              };
              writer = λ ak l q held. record {
                at_key =
                    AllAt-add_providers (λ p. p.runtime_id ≡ l.runtime_id → p.healthy ≡ true) m
                      runtime_id m.exports r.providers (λ c same. refl)
                      (v.writer ak l q held).at_key;
              };
            })
    ]

pub remove_runtime-IsValid :
    (runtime_id : String) (r : Registry) → IsValid r → IsValid (remove_runtime runtime_id r)
unfolding remove_runtime clear_writer
remove_runtime-IsValid runtime_id r v = record {
  flags = v.flags;
  sound = record { at_key = AllAt-drop_runtime _ runtime_id r.providers v.sound.at_key };
  writer = λ ak l e held. record {
    at_key =
        AllAt-drop_runtime _ runtime_id r.providers
          (kept_lease ak l (lookup ak r.writers) refl (rw lookup-map_values at e) held).at_key;
  };
}
  where
    kept_lease :
        (ak : AuthorityKey) (l : WriterLease) (found : Option WriterLease)
        → lookup ak r.writers ≡ found
        → Option.map (clear_lease runtime_id) found ≡ some l
        → Holds l r
    kept_lease ak l none q w held = cc
    kept_lease ak l (some old) q w held = elim (Bool-cases (old.runtime_id == runtime_id)) [
      | inl same ↦
          let cleared : record old { runtime_id = "" } ≡ l = cc (rw same at w) in
          absurd (held (sym (ap (λ x. x.runtime_id) cleared)))
      | inr differ ↦
          let kept : old ≡ l = cc (rw differ at w) in
          subst (λ x. Holds x r) kept (v.writer ak old q) held
    ]
