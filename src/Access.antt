-- ===== src/Access.antt =====
-- app/auth/dependencies.py: which roles pass which endpoint. What app/auth/jwt.py decodes from a
-- token is a parameter.
pub mod Decides
use project_b_multi_agent.Gateway.{dict_get}
use project_b_multi_agent.Prelude.{
  Bool, List, Option, String, [], false, if◌then◌else◌, mem_text, none, not, some, ℕ, ◌||◌, ◌∷◌,
}

-- a set, as the list of its elements
abbrev pub Roles : Type 0
Roles = List String

abbrev pub role_hierarchy : List (String × Roles)
role_hierarchy =
    ("admin", "admin" ∷ "operator" ∷ "viewer" ∷ "auditor" ∷ [])
    ∷ ("operator", "operator" ∷ "viewer" ∷ [])
    ∷ ("auditor", "auditor" ∷ "viewer" ∷ [])
    ∷ ("viewer", "viewer" ∷ [])
    ∷ []

abbrev pub anyone : Roles
anyone = "admin" ∷ "operator" ∷ "viewer" ∷ "auditor" ∷ []

abbrev pub operators : Roles
operators = "admin" ∷ "operator" ∷ []

abbrev pub auditors : Roles
auditors = "admin" ∷ "auditor" ∷ []

abbrev pub endpoint_permissions : List (String × Roles)
endpoint_permissions =
    ("tasks:create", operators)
    ∷ ("tasks:read", anyone)
    ∷ ("approvals:decide", operators)
    ∷ ("approvals:read", anyone)
    ∷ ("audit:read", auditors)
    ∷ ("audit:export", auditors)
    ∷ ("metrics:read", anyone)
    ∷ ("tools:call", operators)
    ∷ ("tools:read", anyone)
    ∷ ("eval:run", operators)
    ∷ ("eval:read", anyone)
    ∷ ("memory:read", anyone)
    ∷ ("memory:manage", operators)
    ∷ ("nl2sql:run", operators)
    ∷ ("reflection:run", operators)
    ∷ ("skills:read", anyone)
    ∷ ("snapshot:read", anyone)
    ∷ ("snapshot:manage", "admin" ∷ [])
    ∷ []

abbrev pub or_else : Option Roles → Roles → Roles
or_else none default = default
or_else (some roles) default = roles

-- `expanded` of one role
abbrev pub expand : String → Roles
expand role = or_else (dict_get role role_hierarchy) (role ∷ [])

abbrev pub meets : Roles → Roles → Bool
meets [] allowed_roles = false
meets (role ∷ roles) allowed_roles = mem_text role allowed_roles || meets roles allowed_roles

-- `expanded & allowed_roles` is not empty
abbrev pub any_expanded : Roles → Roles → Bool
any_expanded [] allowed_roles = false
any_expanded (role ∷ roles) allowed_roles =
    meets (expand role) allowed_roles || any_expanded roles allowed_roles

pub data User : Type 0 where
  dev_user : User
  token_user : Roles → User

-- what a checker does: it returns the user or raises with a status
pub data Access : Type 0 where
  granted : User → Access
  denied : ℕ → Access

abbrev pub check_roles : Bool → Roles → User → Access
check_roles rbac_enabled allowed_roles dev_user = granted dev_user
check_roles rbac_enabled allowed_roles (token_user roles) =
    if not rbac_enabled
    then granted (token_user roles)
    else if not (any_expanded roles allowed_roles)
    then denied 403
    else granted (token_user roles)

-- `require_roles`
pub require_roles : Bool → Roles → User → Access
require_roles rbac_enabled required_roles user = check_roles rbac_enabled required_roles user

-- `require_permission`
unfoldable pub require_permission : Bool → String → User → Access
require_permission rbac_enabled permission user =
    check_roles rbac_enabled (or_else (dict_get permission endpoint_permissions) ("admin" ∷ []))
      user

-- `get_current_user`; `decode` is the roles of a token, or none if it does not decode
pub get_current_user : (String → Option Roles) → Bool → Option String → Access
get_current_user decode auth_enabled none = if auth_enabled then denied 401 else granted dev_user
get_current_user decode auth_enabled (some token) =
    if not auth_enabled
    then granted dev_user
    else elim (decode token) [ none ↦ denied 401 | some roles ↦ granted (token_user roles) ]
