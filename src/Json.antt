-- ===== src/Json.antt =====
-- JSON values as the services pass them: payloads of approvals, plans, tool arguments and results
-- (app/services/approval_resume.py, app/storage/approval_store.py). A Python `dict` keeps its
-- order of insertion, and an assignment to an old key keeps the key's place. Numbers are the
-- natural ones: no code of the model computes with another.
pub mod Laws
pub mod Same
pub mod Occurs
use Prim.Native.String.{◌++◌ as text_append}
use mathlib.Core.Option
use project_b_multi_agent.Prelude.{
  Bool, List, Option, String, [], eqb, false, if◌then◌else◌, none, not, some, true, ℕ, ◌==◌, ◌∷◌,
}

mutual
  pub data Value : Type 0 where
    null : Value
    flag : Bool → Value
    num : ℕ → Value
    text : String → Value
    arr : Items → Value
    obj : Fields → Value

  pub data Fields : Type 0 where
    end : Fields
    field : String → Value → Fields → Fields

  pub data Items : Type 0 where
    nil : Items
    cons : Value → Items → Items

-- `d.get(k)`; a key that is absent is `none`
unfoldable pub get : String → Fields → Option Value
get k end = none
get k (field j v fs) = if j == k then some v else get k fs

-- `d[k] = v`
unfoldable pub put : String → Value → Fields → Fields
put k v end = field k v end
put k v (field j w fs) = if j == k then field j v fs else field j w (put k v fs)

-- `d.update(e)`
unfoldable pub merge : Fields → Fields → Fields
merge d end = d
merge d (field k v e) = merge (put k v d) e

-- a dict display `{k: v, …}` with distinct keys
abbrev pub dict : List (String × Value) → Fields
dict [] = end
dict ((k, v) ∷ kvs) = field k v (dict kvs)

-- `bool(v)`
abbrev pub truthy : Value → Bool
truthy null = false
truthy (flag b) = b
truthy (num n) = not (eqb n 0)
truthy (text s) = not (s == "")
truthy (arr nil) = false
truthy (arr (cons _ _)) = true
truthy (obj end) = false
truthy (obj (field _ _ _)) = true

-- `bool(d.get(k))`
abbrev pub is_set : String → Fields → Bool
is_set k d = elim (get k d) [ none ↦ false | some v ↦ truthy v ]

-- `d.get(k, "")` where the program puts a text there; another value is read as no text
abbrev pub as_text : Option Value → String
as_text (some (text s)) = s
as_text _ = ""

abbrev pub get_text : String → Fields → String
get_text k d = as_text (get k d)

-- `d.get(k) or {}`
abbrev pub as_fields : Option Value → Fields
as_fields (some (obj fs)) = fs
as_fields _ = end

abbrev pub get_fields : String → Fields → Fields
get_fields k d = as_fields (get k d)

abbrev pub as_items : Option Value → Items
as_items (some (arr xs)) = xs
as_items _ = nil

abbrev pub as_num : Option Value → ℕ
as_num (some (num n)) = n
as_num _ = 0

-- a text or `None`
abbrev pub maybe_text : Option String → Value
maybe_text none = null
maybe_text (some s) = text s

-- the text of an f-string, part by part
abbrev pub join_text : List String → String
join_text [] = ""
join_text (s ∷ ss) = text_append s (join_text ss)

-- `str(v)`: a text is itself
abbrev pub shown : (Value → String) → Value → String
shown str_of (text s) = s
shown str_of v = str_of v

-- a value of a dict, or `None`
abbrev pub or_null : Option Value → Value
or_null none = null
or_null (some v) = v
