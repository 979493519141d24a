-- ===== src/Json/Same.antt =====
-- Python's `==` on JSON values: a Boolean is a number, and a dict has no order.
use project_b_multi_agent.Json.{
  Fields, Items, Value, arr, cons, end, field, flag, get, nil, null, num, obj, text,
}
use project_b_multi_agent.Prelude.{
  Bool, eqb, false, if◌then◌else◌, none, some, suc, true, ℕ, ◌&&◌, ◌==◌,
}

abbrev number_of : Bool → ℕ
number_of b = if b then 1 else 0

unfoldable pub count_keys : Fields → ℕ
count_keys end = 0
count_keys (field k v d) = suc (count_keys d)

unfoldable mutual
  pub same_value : Value → Value → Bool
  same_value null null = true
  same_value (flag b) (flag c) = eqb (number_of b) (number_of c)
  same_value (flag b) (num n) = eqb (number_of b) n
  same_value (num n) (flag b) = eqb n (number_of b)
  same_value (num n) (num m) = eqb n m
  same_value (text s) (text t) = s == t
  same_value (arr xs) (arr ys) = same_items xs ys
  same_value (obj d) (obj e) = eqb (count_keys d) (count_keys e) && is_within d e
  same_value _ _ = false

  pub same_items : Items → Items → Bool
  same_items nil nil = true
  same_items (cons v xs) (cons w ys) = same_value v w && same_items xs ys
  same_items _ _ = false

  -- every key of the one dict has its value in the other
  pub is_within : Fields → Fields → Bool
  is_within end e = true
  is_within (field k v d) e =
      elim (get k e) [ none ↦ false | some w ↦ same_value v w ] && is_within d e
