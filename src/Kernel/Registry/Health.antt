-- ===== src/Kernel/Registry/Health.antt =====
-- Health, the circuit breaker and heartbeats.
use agent_native_os.Prelude.{
  String, Bool, true, false, not, ◌&&◌, List, [], ◌∷◌, ◌++◌, map, ◌==◌, any, if◌then◌else◌,
  text_comparable,
}
use agent_native_os.Prelude.Int64.{incr, slt, sle}
use agent_native_os.Prelude.Map.{map_values, values}
use agent_native_os.Kernel.Registry.State.{Provider, WriterLease, Registry}

abbrev pub is_healthy : Provider → Bool
is_healthy p =
    p.process_healthy && p.dependencies_healthy && not p.circuit_open && slt p.heartbeat_failures 3

unfoldable pub recompute_health : Provider → Provider
recompute_health p = record p { healthy = is_healthy p }

abbrev pub clear_lease : String → WriterLease → WriterLease
clear_lease runtime_id l = if l.runtime_id == runtime_id then record l { runtime_id = "" } else l

-- clearWriterIfUnhealthyLocked: the epoch stays.
unfoldable pub clear_writer : String → Registry → Registry
clear_writer runtime_id r = record r { writers = map_values (clear_lease runtime_id) r.writers }

abbrev pub on_runtime : String → (Provider → Provider) → Provider → Provider
on_runtime runtime_id f p = if p.runtime_id == runtime_id then f p else p

-- The loops `for k, ps := range r.providers { for i := range ps { if … == runtimeID { … } } }`.
unfoldable pub touch : String → (Provider → Provider) → Registry → Registry
touch runtime_id f r = record r {
  providers = map_values (map (on_runtime runtime_id f)) r.providers;
}

unfoldable pub flatten : List (List Provider) → List Provider
flatten [] = []
flatten (ps ∷ rest) = ps ++ flatten rest

-- The flag that such a loop sets: some provider of the runtime passes a test, before the update.
unfoldable pub flagged : String → (Provider → Bool) → Registry → Bool
unfolding flatten
flagged runtime_id test r =
    any (λ p. p.runtime_id == runtime_id && test p) (flatten (values r.providers))

abbrev pub set_process : Bool → Provider → Provider
set_process healthy p = recompute_health (record p { process_healthy = healthy })

unfoldable pub mark_health : String → Bool → Registry → Registry
mark_health runtime_id healthy r =
    let became_unhealthy = flagged runtime_id (λ p. not (set_process healthy p).healthy) r in
    let r' = touch runtime_id (set_process healthy) r in
    if became_unhealthy then clear_writer runtime_id r' else r'

abbrev pub set_dependencies : Bool → Provider → Provider
set_dependencies healthy p = recompute_health (record p { dependencies_healthy = healthy })

abbrev differs : Bool → Bool → Bool
differs true b = not b
differs false b = b

-- The second component is the source's result, `changed`.
unfoldable pub mark_dependency_health : String → Bool → Registry → Registry × Bool
mark_dependency_health runtime_id healthy r =
    let changed = flagged runtime_id (λ p. differs p.dependencies_healthy healthy) r in
    let became_unhealthy =
      flagged runtime_id (λ p. p.healthy && not (set_dependencies healthy p).healthy) r in
    let r' = touch runtime_id (set_dependencies healthy) r in
    (if became_unhealthy then clear_writer runtime_id r' else r', changed)

unfoldable pub runtime_healthy : String → Registry → Bool
runtime_healthy runtime_id r =
    flagged runtime_id (λ p. true) r && not (flagged runtime_id (λ p. not p.healthy) r)

abbrev pub fail_once : Provider → Provider
fail_once p =
    let count = incr p.failure_count in
    recompute_health (record p {
      failure_count = count;
      circuit_open = if sle 3 count then true else p.circuit_open;
    })

unfoldable pub record_failure : String → Registry → Registry
record_failure runtime_id r =
    let opened = flagged runtime_id (λ p. not (fail_once p).healthy) r in
    let r' = touch runtime_id fail_once r in if opened then clear_writer runtime_id r' else r'

abbrev pub succeed : Provider → Provider
succeed p = recompute_health (record p { failure_count = 0; circuit_open = false })

unfoldable pub record_success : String → Registry → Registry
record_success runtime_id r = touch runtime_id succeed r

abbrev pub miss_heartbeat : Provider → Provider
miss_heartbeat p = recompute_health (record p { heartbeat_failures = incr p.heartbeat_failures })

unfoldable pub record_heartbeat_failure : String → Registry → Registry
record_heartbeat_failure runtime_id r =
    let unhealthy = flagged runtime_id (λ p. not (miss_heartbeat p).healthy) r in
    let r' = touch runtime_id miss_heartbeat r in
    if unhealthy then clear_writer runtime_id r' else r'

abbrev pub beat : Provider → Provider
beat p = recompute_health (record p { heartbeat_failures = 0 })

unfoldable pub record_heartbeat_success : String → Registry → Registry
record_heartbeat_success runtime_id r = touch runtime_id beat r
