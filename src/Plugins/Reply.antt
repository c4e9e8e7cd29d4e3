-- ===== src/Plugins/Reply.antt =====
-- kernel/sdk/go/pluginhost: what a plugin's handler gives back to its host.
use agent_native_os.Prelude.{String, true, false}
use agent_native_os.Kernel.Protocol.{Error}

-- A handler's answer. `crashed` is a panic, which ends the process.
pub data Reply (A : Type 0) : Type 0 where
  answered : A → Reply A
  rejected : Error → Reply A
  crashed : Reply A

abbrev pub rejection : {A : Type 0} → String → Reply A
rejection code = rejected (record { code = code; retryable = false })

abbrev pub io_rejection : {A : Type 0} → Reply A
io_rejection = rejected (record { code = "IO"; retryable = true })
