-- ===== src/Kernel/Registry/Fence.antt =====
-- The fence files: what the registry writes for each authority's writer, and reads at a start.
use Prim.Native.Char.{Char, code}
use Prim.Native.String
use agent_native_os.Prelude.{
  ℕ, String, Bool, ◌&&◌, ◌||◌, not, Option, none, some, List, [], ◌∷◌, eqb, ◌==◌, text_comparable,
  if◌then◌else◌,
}
use agent_native_os.Prelude.Map.{Map, insert}
use agent_native_os.Prelude.Result.{Result, ok, err}
use agent_native_os.Kernel.Registry.State.{
  AuthorityKey, AuthorityKey-Comparable, WriterLease, Registry,
}

-- The JSON object of a fence file.
pub record FenceFile : Type 0 where
  pub service : String
  pub authority : String
  pub runtime_id : String
  pub epoch : ℕ

-- The fence files under one root, by the part of their names before ".json".
abbrev pub Disk : Type 0
Disk = Map String FenceFile

-- strings.NewReplacer("/", "_", "\\", "_", ":", "_")
abbrev safe_char : Char → Char
safe_char c =
    let underscore : Char = "_" in
    if eqb (code c) b'/' || eqb (code c) 0x5c || eqb (code c) b':' then underscore else c

unfoldable pub fence_safe : String → String
fence_safe String.[] = ""
fence_safe (String.◌∷◌ c s) = String.◌∷◌ (safe_char c) (fence_safe s)

unfoldable pub fence_base : AuthorityKey → String
unfolding fence_safe
fence_base ak = String.◌++◌ (fence_safe ak.service) (String.◌++◌ "--" (fence_safe ak.authority))

pub data FenceError : Type 0 where
  not_configured io_error malformed_fence : FenceError

abbrev pub fence_file : AuthorityKey → WriterLease → FenceFile
fence_file ak l = record {
  service = ak.service;
  authority = ak.authority;
  runtime_id = l.runtime_id;
  epoch = l.epoch;
}

-- `io` says whether the calls of the operating system succeed. The rename comes last, so a failure
-- leaves the old file.
unfoldable pub persist_fence :
    Bool → AuthorityKey → WriterLease → Registry → Disk → Result FenceError Disk
persist_fence io ak l r disk =
    if r.fence_root == ""
    then err not_configured
    else if io
    then ok (insert (fence_base ak) (fence_file ak l) disk)
    else err io_error

-- What reading one file of the directory gives.
pub data FenceRead : Type 0 where
  unreadable malformed : FenceRead
  contents : FenceFile → FenceRead

abbrev adopt : FenceFile → Registry → Registry
adopt v r =
    let ak : AuthorityKey = record { service = v.service; authority = v.authority } in
    let l : WriterLease = record { runtime_id = ""; epoch = v.epoch } in
    if not (v.service == "") && not (v.authority == "")
    then record r { writers = insert ak l r.writers }
    else r

unfoldable pub load_fences : List FenceRead → Registry → Result FenceError (Unit {0}) × Registry
load_fences [] r = (ok tt, r)
load_fences (unreadable ∷ rest) r = (err io_error, r)
load_fences (malformed ∷ rest) r = (err malformed_fence, r)
load_fences (contents v ∷ rest) r = load_fences rest (adopt v r)

-- SetFenceRoot. `listing` is what the directory holds, in the order of the listing; `none` if the
-- directory cannot be made or listed.
unfoldable pub set_fence_root :
    String → Option (List FenceRead) → Registry → Result FenceError (Unit {0}) × Registry
unfolding load_fences
set_fence_root root listing r =
    let r' = record r { fence_root = root } in
    elim listing [ none ↦ (err io_error, r') | some files ↦ load_fences files r' ]
