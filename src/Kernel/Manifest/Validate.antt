-- ===== src/Kernel/Manifest/Validate.antt =====
-- Validate of kernel/internal/manifest/manifest.go.
use Prim.Native.String
use agent_native_os.Prelude.{
  String, Bool, true, false, not, ◌&&◌, ◌||◌, List, [], ◌∷◌, ◌==◌, text_comparable, nat_comparable,
  if◌then◌else◌, any,
}
use agent_native_os.Prelude.Int64.{sle, slt}
use agent_native_os.Prelude.Text.{canonical, str_lt}
use agent_native_os.Prelude.Result.{Result, ok, ◌>>◌, fail_if}
use agent_native_os.Kernel.Manifest.{Capability, Manifest}
use agent_native_os.Kernel.Manifest.Path.{split_path, clean_from, starts_above}

pub data ManifestError : Type 0 where
  bad_version missing_plugin missing_runtime bad_protocol bad_namespace : ManifestError
  bad_export bad_contract bad_mode missing_authority duplicate_export : ManifestError
  missing_namespace bad_memory bad_cpu bad_declaration duplicate_permission : ManifestError

-- filepath.IsAbs: a text that starts with a slash has an empty first component and another one.
abbrev pub is_absolute : List String → Bool
is_absolute [] = false
is_absolute (part ∷ []) = false
is_absolute (part ∷ next ∷ parts) = part == ""

unfoldable pub is_bad_namespace : String → Bool
is_bad_namespace ns =
    not (ns == "") && (is_absolute (split_path ns) || starts_above (clean_from [] (split_path ns)))

abbrev pub export_key : Capability → String
export_key c =
    String.◌++◌ (canonical c.name c.major)
      (String.◌++◌ "/" (String.◌++◌ c.service (String.◌++◌ "/" c.authority)))

-- The empty mode stands for stateless.
abbrev pub check_export : List String → Capability → Result ManifestError (Unit {0})
check_export seen c = do
  fail_if (c.name == "" || sle c.major 0) bad_export
  fail_if (not (c.contract == canonical c.name c.major)) bad_contract
  fail_if (not (c.mode == "" || c.mode == "stateless") && not (c.mode == "stateful")) bad_mode
  fail_if (c.mode == "stateful" && (c.service == "" || c.authority == "")) missing_authority
  fail_if (any (λ key. key == export_key c) seen) duplicate_export

unfoldable pub check_exports : List String → List Capability → Result ManifestError (Unit {0})
check_exports seen [] = ok tt
check_exports seen (c ∷ cs) = check_export seen c >> check_exports (export_key c ∷ seen) cs

abbrev is_declared : Capability → Bool
is_declared c = not (c.name == "" || sle c.major 0 || not (c.contract == canonical c.name c.major))

unfoldable pub check_declared : List Capability → Result ManifestError (Unit {0})
check_declared [] = ok tt
check_declared (c ∷ cs) = fail_if (not (is_declared c)) bad_declaration >> check_declared cs

-- sort.Strings
unfoldable pub insert_text : String → List String → List String
insert_text x [] = x ∷ []
insert_text x (y ∷ ys) = let rest = insert_text x ys in if str_lt y x then y ∷ rest else x ∷ y ∷ ys

unfoldable pub sort_texts : List String → List String
sort_texts [] = []
sort_texts (x ∷ xs) = insert_text x (sort_texts xs)

unfoldable pub has_repeat : List String → Bool
has_repeat [] = false
has_repeat (x ∷ []) = false
has_repeat (x ∷ y ∷ ys) = let rest = has_repeat (y ∷ ys) in if y == x then true else rest

unfoldable pub validate : Manifest → Result ManifestError (Unit {0})
unfolding is_bad_namespace check_exports check_declared sort_texts insert_text has_repeat
validate m = do
  fail_if (not (m.manifest_version == 1)) bad_version
  fail_if (m.plugin.id == "" || m.plugin.version == "") missing_plugin
  fail_if (m.runtime.protocol == "" || m.runtime.executable == "") missing_runtime
  fail_if (not (m.runtime.protocol == "vibe-plugin/1")) bad_protocol
  fail_if (is_bad_namespace m.runtime.data_namespace) bad_namespace
  check_exports [] m.exports
  fail_if (any (λ c. c.mode == "stateful") m.exports && m.runtime.data_namespace == "")
      missing_namespace
  fail_if (slt m.resources.memory_mb 0) bad_memory
  fail_if (slt m.resources.cpu_weight 0 || slt 100 m.resources.cpu_weight) bad_cpu
  check_declared m.consumes.required
  check_declared m.consumes.optional
  check_declared m.publishes
  check_declared m.subscribes
  fail_if (has_repeat (sort_texts m.permissions)) duplicate_permission
