-- ===== src/Kernel/Authz/Engine.antt =====
-- The grants of kernel/internal/authz/authz.go.
use agent_native_os.Prelude.{
  ℕ, String, Bool, false, ◌&&◌, ◌||◌, none, some, List, [], ◌∷◌, ◌++◌, text_comparable,
  if◌then◌else◌, any,
}
use agent_native_os.Prelude.Map.{Map, lookup, insert}
use agent_native_os.Prelude.Text.{canonical}
use agent_native_os.Kernel.Manifest.{Manifest, has_capability}
use agent_native_os.Kernel.Authz.Pattern.{matches}

pub record Grant : Type 0 where
  pub capabilities : List String
  pub publishes : List String
  pub subscribes : List String
  pub host_permissions : List String
  pub service_authority : Bool
  -- patterns of a root capability, and those that may be called for it
  pub delegations : Map String (List String)

-- The engine is its map of grants.
abbrev pub Engine : Type 0
Engine = Map String Grant

unfoldable pub set_grant : String → Grant → Engine → Engine
set_grant identity g e = insert identity g e

abbrev pub match_any : List String → String → Bool
match_any patterns value = any (λ p. matches p value) patterns

-- matchList, and ScopeAllows, which is the same loop.
unfoldable pub match_list : List String → String → ℕ → Bool
match_list patterns name major = match_any patterns (canonical name major)

unfoldable pub scope_allows : List String → String → ℕ → Bool
scope_allows scope capability major = match_any scope (canonical capability major)

unfoldable pub granted : String → String → ℕ → Engine → Bool
granted identity capability major e = elim (lookup identity e) [
  | none ↦ false
  | some g ↦ match_any g.capabilities (canonical capability major)
]

-- The errors of the tests are left out: true is nil.
unfoldable pub can_consume : Manifest → String → ℕ → Engine → Bool
can_consume caller capability major e =
    (has_capability caller.consumes.required capability major
      || has_capability caller.consumes.optional capability major)
    && granted caller.plugin.id capability major e

unfoldable pub can_external : String → String → ℕ → Engine → Bool
can_external identity capability major e = granted identity capability major e

unfoldable pub can_publish : Manifest → String → ℕ → Engine → Bool
can_publish caller event major e =
    has_capability caller.publishes event major && (elim (lookup caller.plugin.id e) [
      | none ↦ false
      | some g ↦ match_list g.publishes event major
    ])

unfoldable pub can_subscribe : Manifest → String → ℕ → Engine → Bool
can_subscribe caller event major e =
    has_capability caller.subscribes event major && (elim (lookup caller.plugin.id e) [
      | none ↦ false
      | some g ↦ match_list g.subscribes event major
    ])

-- The loop over the delegations. The order of a Go map is any: only which patterns are in the scope
-- is read.
unfoldable pub collect_scope : Map String (List String) → String → List String
collect_scope [] root = []
collect_scope ((trigger, scope) ∷ rest) root =
    let more = collect_scope rest root in if matches trigger root then scope ++ more else more

unfoldable pub delegation_scope : String → String → ℕ → Engine → List String
unfolding collect_scope
delegation_scope identity capability major e = elim (lookup identity e) [
  | none ↦ []
  | some g ↦ collect_scope g.delegations (canonical capability major)
]

unfoldable pub can_invoke_as_service : String → Engine → Bool
can_invoke_as_service identity e = elim (lookup identity e) [
  | none ↦ false
  | some g ↦ g.service_authority
]

unfoldable pub has_host_permission : String → String → Engine → Bool
has_host_permission identity permission e = elim (lookup identity e) [
  | none ↦ false
  | some g ↦ match_any g.host_permissions permission
]
