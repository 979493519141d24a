-- ===== src/Json/Occurs.antt =====
-- Where a text stands in a JSON value.
use project_b_multi_agent.Json.{Fields, Items, Value, arr, cons, field, obj, text}
use project_b_multi_agent.Prelude.{String}

-- the text occurs in the value, at whatever depth
mutual
  pub data OccursIn (s : String) : Value → Type 0 where
    itself : OccursIn s (text s)
    in_arr : {xs : Items} → OccursInItems s xs → OccursIn s (arr xs)
    in_obj : {d : Fields} → OccursInFields s d → OccursIn s (obj d)

  pub data OccursInItems (s : String) : Items → Type 0 where
    in_head : {v : Value} {xs : Items} → OccursIn s v → OccursInItems s (cons v xs)
    in_tail : {v : Value} {xs : Items} → OccursInItems s xs → OccursInItems s (cons v xs)

  pub data OccursInFields (s : String) : Fields → Type 0 where
    in_value : {k : String} {v : Value} {d : Fields} → OccursIn s v → OccursInFields s (field k v d)
    in_rest :
        {k : String} {v : Value} {d : Fields} → OccursInFields s d → OccursInFields s (field k v d)
