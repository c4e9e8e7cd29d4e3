-- ===== src/Kernel/Manifest/Soundness.antt =====
-- What a manifest has when it is accepted.
use agent_native_os.Prelude.{
  ℕ, ◌≤◌, ◌<◌, ◌^◌, String, Bool, true, false, not, ◌&&◌, ◌||◌, ◌≡◌, ◌≢◌, refl, ◌⊎◌, inl, inr, some,
  List, [], ◌∷◌, ◌==◌, text_comparable, nat_comparable, str_eq_iff, eq_of_==, arith, any, All,
  Bool-cases,
}
use agent_native_os.Prelude.Int64.{sle, slt}
use agent_native_os.Prelude.Text.{canonical}
use agent_native_os.Prelude.Result.{Result, ok, err, ◌>>◌, fail_if}
use agent_native_os.Kernel.Manifest.{Capability, Manifest, ResourcePolicy}
use agent_native_os.Kernel.Manifest.Path.{
  split_path, clean_from, starts_above, walk, walk-clean_from, Names,
}
use agent_native_os.Kernel.Manifest.Validate.{
  bad_version, missing_plugin, missing_runtime, bad_protocol, bad_namespace, bad_export,
  bad_contract, bad_mode, missing_authority, missing_namespace, bad_memory, bad_cpu, is_absolute,
  is_bad_namespace, export_key, check_export, check_exports, validate,
}

-- A step of the checks: what it asks holds, and the rest is accepted.
passes :
    {E : Type 0} (bad : Bool) (e : E) (rest : Result E (Unit {0}))
    → (fail_if bad e >> rest) ≡ ok tt
    → (bad ≡ false) × (rest ≡ ok tt)
passes true e rest h = cc
passes false e rest h = (refl, h)

then_ok :
    {E : Type 0} (m rest : Result E (Unit {0})) → (m >> rest) ≡ ok tt → (m ≡ ok tt) × (rest ≡ ok tt)
then_ok (ok tt) rest h = (refl, h)
then_ok (err e) rest h = cc

-- An export is at a positive version, names its own contract, and if it is stateful, the authority
-- over its state.
pub record IsExport (c : Capability) : Type 0 where
  pub named : c.name ≢ ""
  pub positive : sle c.major 0 ≡ false
  pub own_contract : c.contract ≡ canonical c.name c.major
  pub owned : c.mode ≡ "stateful" → (c.service ≢ "") × (c.authority ≢ "")

check_export-IsExport :
    (seen : List String) (c : Capability) → check_export seen c ≡ ok tt → IsExport c
check_export-IsExport seen c h =
    let (major, h1) = passes (c.name == "" || sle c.major 0) bad_export _ h in
    let (contract, h2) = passes (not (c.contract == canonical c.name c.major)) bad_contract _ h1 in
    let (_, h3) =
      passes (not (c.mode == "" || c.mode == "stateless") && not (c.mode == "stateful")) bad_mode _
        h2 in
    let (authority, _) =
      passes (c.mode == "stateful" && (c.service == "" || c.authority == "")) missing_authority _
        h3 in
    record {
      named = ground (arith, major, str_eq_iff c.name "");
      positive = ground (arith, major);
      own_contract = ground (arith, contract, str_eq_iff c.contract (canonical c.name c.major));
      owned = λ stateful. (
        ground (arith, authority, stateful, str_eq_iff c.mode "stateful", str_eq_iff c.service ""),
        ground
            (arith, authority, stateful, str_eq_iff c.mode "stateful", str_eq_iff c.authority ""),
      );
    }

check_exports-IsExport :
    (seen : List String) (cs : List Capability) → check_exports seen cs ≡ ok tt → All IsExport cs
unfolding check_exports
check_exports-IsExport seen [] h = tt
check_exports-IsExport seen (c ∷ cs) h =
    let (now, later) = then_ok (check_export seen c) (check_exports (export_key c ∷ seen) cs) h in
    (check_export-IsExport seen c now, check_exports-IsExport (export_key c ∷ seen) cs later)

-- The numbers of a manifest are words of 64 bits.
pub record IsWords (r : ResourcePolicy) : Type 0 where
  pub memory_word : r.memory_mb < 2 ^ 64
  pub cpu_word : r.cpu_weight < 2 ^ 64

pub record IsSound (m : Manifest) : Type 0 where
  pub exports_sound : All IsExport m.exports
  pub inside :
      (m.runtime.data_namespace ≡ "")
      ⊎ ((is_absolute (split_path m.runtime.data_namespace) ≡ false)
          × ((depth : ℕ) × (walk 0 (split_path m.runtime.data_namespace) ≡ some depth)))
  pub memory : m.resources.memory_mb < 2 ^ 63
  pub cpu : m.resources.cpu_weight ≤ 100

namespace_inside :
    (ns : String)
    → is_bad_namespace ns ≡ false
    → (ns ≡ "")
      ⊎ ((is_absolute (split_path ns) ≡ false)
          × ((depth : ℕ) × (walk 0 (split_path ns) ≡ some depth)))
unfolding is_bad_namespace Names
namespace_inside ns h = elim (Bool-cases (ns == "")) [
  | inl none_given ↦ inl (eq_of_== ns "" none_given)
  | inr given ↦
      let (relative, low) : (is_absolute (split_path ns) ≡ false)
          × (starts_above (clean_from [] (split_path ns)) ≡ false) =
        (ground (arith, h, given), ground (arith, h, given)) in
      inr (relative, (walk-clean_from [] (split_path ns) tt).0 low)
]

-- An accepted manifest whose numbers are words: each export has a name, a positive version, the
-- contract of its own name and version, and an authority if it is stateful; a data namespace that is
-- given is a relative path, and a walk along it is never above the directory where it starts;
-- the memory is not negative, and the weight is at most one hundred.
pub validate-IsSound : (m : Manifest) → IsWords m.resources → validate m ≡ ok tt → IsSound m
unfolding validate
validate-IsSound m words h =
    let (_, h1) = passes (not (m.manifest_version == 1)) bad_version _ h in
    let (_, h2) = passes (m.plugin.id == "" || m.plugin.version == "") missing_plugin _ h1 in
    let (_, h3) =
      passes (m.runtime.protocol == "" || m.runtime.executable == "") missing_runtime _ h2 in
    let (_, h4) = passes (not (m.runtime.protocol == "vibe-plugin/1")) bad_protocol _ h3 in
    let (namespace, h5) = passes (is_bad_namespace m.runtime.data_namespace) bad_namespace _ h4 in
    let (exports, h6) = then_ok (check_exports [] m.exports) _ h5 in
    let (_, h7) =
      passes (any (λ c. c.mode == "stateful") m.exports && m.runtime.data_namespace == "")
        missing_namespace _ h6 in
    let (memory, h8) = passes (slt m.resources.memory_mb 0) bad_memory _ h7 in
    let (cpu, _) =
      passes (slt m.resources.cpu_weight 0 || slt 100 m.resources.cpu_weight) bad_cpu _ h8 in
    record {
      exports_sound = check_exports-IsExport [] m.exports exports;
      inside = namespace_inside m.runtime.data_namespace namespace;
      memory = ground (arith, memory, words.memory_word);
      cpu = ground (arith, cpu, words.cpu_word);
    }
