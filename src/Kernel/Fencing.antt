-- ===== src/Kernel/Fencing.antt =====
-- kernel/sdk/go/fencing/fencing.go: the fence around every write of a stateful plugin.
pub mod Stale
mod Tests
use Prim.Native.Char.{Char, code}
use Prim.Native.String
use agent_native_os.Prelude.{
  ℕ, String, Bool, true, false, not, ◌||◌, eqb, ◌==◌, text_comparable, nat_comparable,
  if◌then◌else◌,
}
use agent_native_os.Prelude.Int64.{sle}
use agent_native_os.Prelude.Result.{Result, ok, err}
use agent_native_os.Kernel.Protocol.{Envelope}
use agent_native_os.Kernel.Registry.Fence.{FenceFile, FenceRead, unreadable, malformed, contents}

abbrev pub replaced : Char → Char
replaced c =
    let underscore : Char = "_" in
    if eqb (code c) b'/' || eqb (code c) 0x5c || eqb (code c) b':' then underscore else c

unfoldable pub safe : String → String
safe String.[] = ""
safe (String.◌∷◌ c s) = String.◌∷◌ (replaced c) (safe s)

-- The name of the lease's file, before ".json".
unfoldable pub lease_name : String → String → String
unfolding safe
lease_name service authority = String.◌++◌ (safe service) (String.◌++◌ "--" (safe authority))

-- What a plugin's process finds: its environment, whether the calls that make and lock the
-- directory succeed, and what reading a lease's file gives.
pub record FenceEnv : Type 0 where
  pub root : String
  pub runtime_id : String
  pub io : Bool
  pub read : String → FenceRead

pub data FenceFault (E : Type 0) : Type 0 where
  missing_metadata no_root lock_failed unreadable_lease malformed_lease stale_writer : FenceFault E
  inner : E → FenceFault E

abbrev lift : {E A W : Type 0} → Result E A × W → Result (FenceFault E) A × W
lift (ok a, w) = (ok a, w)
lift (err e, w) = (err (inner e), w)

module _ {E A W : Type 0} where
  -- The comparison of the lease with the request, and the write.
  unfoldable pub write_if_current :
      FenceEnv → Envelope → FenceRead → (W → Result E A × W) → W → Result (FenceFault E) A × W
  write_if_current env e unreadable fn w = (err unreadable_lease, w)
  write_if_current env e malformed fn w = (err malformed_lease, w)
  write_if_current env e (contents l) fn w =
      if not (l.runtime_id == env.runtime_id) || not (l.epoch == e.fencing_epoch)
      then (err stale_writer, w)
      else lift (fn w)

  unfoldable pub with_write_fence :
      FenceEnv → Envelope → (W → Result E A × W) → W → Result (FenceFault E) A × W
  with_write_fence env e fn w =
      if sle e.fencing_epoch 0 || e.service == "" || e.authority == ""
      then (err missing_metadata, w)
      else if env.root == ""
      then (err no_root, w)
      else if env.io
      then write_if_current env e (env.read (lease_name e.service e.authority)) fn w
      else (err lock_failed, w)
