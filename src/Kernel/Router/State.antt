-- ===== src/Kernel/Router/State.antt =====
-- The router's state, and the equality of its map keys.
use Prim.Native.String
use agent_native_os.Prelude.{
  String, Bool, true, ◌&&◌, ◌≡◌, ◌↔◌, List, [], arith, Comparable, ◌==◌, text_comparable,
  str_eq_iff,
}
use agent_native_os.Prelude.Map.{Map}
use agent_native_os.Kernel.Registry.State.{Registry}
use agent_native_os.Kernel.Registry.Fence.{Disk}
use agent_native_os.Kernel.Protocol.{Envelope}

-- delegationContext
pub record Delegation : Type 0 where
  pub principal : String
  pub actor_chain : List String
  pub runtime_id : String
  pub scope : List String

-- `external` says that the route has a channel to a client of the gateway.
pub record StreamRoute : Type 0 where
  pub stream_id : String
  pub consumer_runtime : String
  pub external_identity : String
  pub provider_runtime : String
  pub request_id : String
  pub external : Bool

pub record InflightKey : Type 0 where
  pub consumer : String
  pub request_id : String

pub record InflightRoute : Type 0 where
  pub provider_runtime : String
  pub provider_request_id : String

-- A client of a process is its runtime, the key, and its plugin.
pub record Router : Type 0 where
  pub clients : Map String String
  pub streams : Map String StreamRoute
  pub delegations : Map String Delegation
  pub inflight : Map InflightKey InflightRoute

abbrev pub new : Router
new = record { clients = []; streams = []; delegations = []; inflight = [] }

-- The router with the registry and its fence files.
pub record Host : Type 0 where
  pub router : Router
  pub registry : Registry
  pub disk : Disk

-- Where a message is sent: to a process, or into the channel of a client's stream.
pub data Target : Type 0 where
  process channel : String → Target

pub record Sent : Type 0 where
  pub target : Target
  pub envelope : Envelope

abbrev inflight_eq : InflightKey → InflightKey → Bool
inflight_eq a b = a.consumer == b.consumer && a.request_id == b.request_id

pub inflight_eq_iff : (a b : InflightKey) → (inflight_eq a b ≡ true) ↔ (a ≡ b)
inflight_eq_iff a b =
    ground (arith, str_eq_iff a.consumer b.consumer, str_eq_iff a.request_id b.request_id)

instance abbrev pub InflightKey-Comparable : Comparable InflightKey
InflightKey-Comparable = record { same_value = inflight_eq; same_value_iff = inflight_eq_iff }

unfoldable pub runtime_consumer_key : String → String
runtime_consumer_key runtime_id = String.◌++◌ "runtime:" runtime_id

unfoldable pub external_consumer_key : String → String
external_consumer_key identity = String.◌++◌ "external:" identity
