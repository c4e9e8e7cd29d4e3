-- ===== src/Kernel/Contracts.antt =====
-- kernel/internal/contractmeta/catalog.go: the metadata of the contracts.
use agent_native_os.Prelude.{String, Option, none, some, text_comparable}
use agent_native_os.Prelude.Map.{Map, lookup}
use agent_native_os.Kernel.Protocol.{Kind}

pub record Metadata : Type 0 where
  pub contract : String
  pub version : String
  pub kind : Kind

pub record Catalog : Type 0 where
  pub by_capability : Map String Metadata
  pub by_contract : Map String Metadata

-- The receiver may be nil.
unfoldable pub metadata : Option Catalog → String → Option Metadata
metadata none contract = none
metadata (some c) contract = lookup contract c.by_contract
