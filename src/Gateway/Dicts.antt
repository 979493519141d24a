-- ===== src/Gateway/Dicts.antt =====
-- A Python dict under assignment, as app/harness/gateway/tool_gateway.py and others use it.
use project_b_multi_agent.Gateway.{dict_get, dict_put}
use project_b_multi_agent.Prelude.{
  List, String, [], arith, eq_iff, if◌then◌else◌, refl, some, ◌==◌, ◌∷◌, ◌≡◌,
}

pub dict_get-dict_put :
    {V : Type 0} (k j : String) (v : V) (d : List (String × V))
    → dict_get j (dict_put k v d) ≡ (if k == j then some v else dict_get j d)
unfolding dict_get dict_put
dict_get-dict_put k j v [] = refl
dict_get-dict_put k j v ((i, old) ∷ d) =
    ground (arith, eq_iff k j, eq_iff i k, eq_iff i j, dict_get-dict_put k j v d)
