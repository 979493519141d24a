-- ===== src/Json/Laws.antt =====
-- Laws of `dict` operations.
use project_b_multi_agent.Json.{Fields, Value, end, field, get, merge, put}
use project_b_multi_agent.Prelude.{
  Option, String, arith, eq_iff, if◌then◌else◌, refl, some, ◌==◌, ◌≡◌,
}

pub get-put :
    (k j : String) (v : Value) (d : Fields)
    → get j (put k v d) ≡ (if k == j then some v else get j d)
unfolding get put
get-put k j v end = refl
get-put k j v (field i w d) = ground (arith, eq_iff k j, eq_iff i k, eq_iff i j, get-put k j v d)

-- the value that an update gives to a key, if it names the key
abbrev last : String → Fields → Option Value → Option Value
last k end old = old
last k (field j v e) old = last k e (if j == k then some v else old)

pub get-merge : (k : String) (d e : Fields) → get k (merge d e) ≡ last k e (get k d)
unfolding merge
get-merge k d end = refl
get-merge k d (field j v e) = rw (get-merge k (put j v d) e, get-put j k v d)
