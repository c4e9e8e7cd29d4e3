-- ===== src/Kernel/Registry/State.antt =====
-- The registry's state, and the equality of its map keys.
use agent_native_os.Prelude.{
  ℕ, String, Bool, true, ◌&&◌, ◌≡◌, ◌↔◌, Option, none, some, List, [], arith, Comparable, ◌==◌,
  str_eq_iff, eqb_iff, All, text_comparable, nat_comparable,
}
use agent_native_os.Prelude.Map.{Map, lookup}
use agent_native_os.Kernel.Manifest.{Manifest, Capability}
use agent_native_os.Kernel.Contracts.{Catalog}

pub record Provider : Type 0 where
  pub plugin_id : String
  pub runtime_id : String
  pub writer_epoch : ℕ
  pub failure_count : ℕ
  pub heartbeat_failures : ℕ
  pub process_healthy : Bool
  pub dependencies_healthy : Bool
  pub circuit_open : Bool
  pub healthy : Bool
  pub manifest : Manifest
  pub export : Capability

-- The source's `key`.
pub record Key : Type 0 where
  pub name : String
  pub major : ℕ

pub record Binding : Type 0 where
  pub service : String
  pub authority : String
  pub provider : String

pub record AuthorityKey : Type 0 where
  pub service : String
  pub authority : String

pub record WriterLease : Type 0 where
  pub runtime_id : String
  pub epoch : ℕ

pub record Registry : Type 0 where
  pub providers : Map Key (List Provider)
  pub by_plugin : Map String Manifest
  pub bindings : Map Key Binding
  pub authority_storage : Map AuthorityKey String
  pub contracts : Option Catalog
  pub writers : Map AuthorityKey WriterLease
  pub fence_root : String

abbrev pub new : Registry
new = record {
  providers = [];
  by_plugin = [];
  bindings = [];
  authority_storage = [];
  contracts = none;
  writers = [];
  fence_root = "";
}

abbrev key_eq : Key → Key → Bool
key_eq a b = a.name == b.name && a.major == b.major

pub key_eq_iff : (a b : Key) → (key_eq a b ≡ true) ↔ (a ≡ b)
key_eq_iff a b = ground (arith, str_eq_iff a.name b.name, eqb_iff a.major b.major)

instance abbrev pub Key-Comparable : Comparable Key
Key-Comparable = record { same_value = key_eq; same_value_iff = key_eq_iff }

abbrev authority_eq : AuthorityKey → AuthorityKey → Bool
authority_eq a b = a.service == b.service && a.authority == b.authority

pub authority_eq_iff : (a b : AuthorityKey) → (authority_eq a b ≡ true) ↔ (a ≡ b)
authority_eq_iff a b =
    ground (arith, str_eq_iff a.service b.service, str_eq_iff a.authority b.authority)

instance abbrev pub AuthorityKey-Comparable : Comparable AuthorityKey
AuthorityKey-Comparable = record { same_value = authority_eq; same_value_iff = authority_eq_iff }

-- Every provider that is listed under any key satisfies `P`.
pub record AllProviders {ℓ} (P : Provider → Type ℓ) (r : Registry) : Type ℓ where
  pub at_key : (k : Key) (ps : List Provider) → lookup k r.providers ≡ some ps → All P ps
