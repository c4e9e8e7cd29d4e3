-- ===== src/Kernel/Manifest.antt =====
-- kernel/internal/manifest/manifest.go: the manifest of a plugin.
pub mod Path
pub mod Validate
pub mod Soundness
mod Tests
use agent_native_os.Prelude.{
  ℕ, String, Bool, ◌&&◌, Option, List, ◌==◌, any, first, text_comparable, nat_comparable,
}

pub record Capability : Type 0 where
  pub name : String
  pub major : ℕ
  pub contract : String
  pub mode : String
  pub service : String
  pub authority : String
  pub priority : ℕ

pub record Runtime : Type 0 where
  pub protocol : String
  pub executable : String
  pub args : List String
  pub isolation : String
  pub data_namespace : String

pub record RestartPolicy : Type 0 where
  pub mode : String
  pub max_attempts : ℕ
  pub cooldown_ms : ℕ

pub record ResourcePolicy : Type 0 where
  pub memory_mb : ℕ
  pub cpu_weight : ℕ

pub record Plugin : Type 0 where
  pub id : String
  pub version : String

pub record Consumes : Type 0 where
  pub required : List Capability
  pub optional : List Capability

pub record Manifest : Type 0 where
  pub manifest_version : ℕ
  pub plugin : Plugin
  pub runtime : Runtime
  pub exports : List Capability
  pub consumes : Consumes
  pub publishes : List Capability
  pub subscribes : List Capability
  pub permissions : List String
  pub restart : RestartPolicy
  pub resources : ResourcePolicy

abbrev pub is_capability : String → ℕ → Capability → Bool
is_capability name major c = c.name == name && c.major == major

unfoldable pub has_capability : List Capability → String → ℕ → Bool
has_capability list name major = any (is_capability name major) list

unfoldable pub find_capability : List Capability → String → ℕ → Option Capability
find_capability list name major = first (is_capability name major) list
