-- ===== src/Access/Decides.antt =====
-- Who may decide an approval (app/auth/dependencies.py).
use project_b_multi_agent.Access.{
  Roles, any_expanded, denied, expand, granted, meets, operators, require_permission, token_user,
}
use project_b_multi_agent.Gateway.{dict_get}
use project_b_multi_agent.Prelude.{
  String, [], arith, eq_iff, if◌then◌else◌, mem_text, refl, true, ◌==◌, ◌||◌, ◌∷◌, ◌≡◌,
}

operators-expand :
    (role : String) → meets (expand role) operators ≡ (role == "admin" || role == "operator")
unfolding dict_get
operators-expand role = ground (
  arith,
  eq_iff "admin" role,
  eq_iff "operator" role,
  eq_iff "auditor" role,
  eq_iff "viewer" role,
  eq_iff role "admin",
  eq_iff role "operator",
)

operators-any :
    (roles : Roles)
    → any_expanded roles operators ≡ (mem_text "admin" roles || mem_text "operator" roles)
operators-any [] = refl
operators-any (role ∷ roles) = ground (arith, operators-expand role, operators-any roles)

-- With role checks on, a user with a token may decide an approval exactly if one of the user's
-- roles is admin or operator; auditors, viewers and unknown roles get status 403.
pub decides_lem :
    (roles : Roles)
    → require_permission true "approvals:decide" (token_user roles) ≡ (
        if mem_text "admin" roles || mem_text "operator" roles
        then granted (token_user roles)
        else denied 403)
unfolding require_permission dict_get
decides_lem roles = ground (arith, operators-any roles)
