-- ===== src/Resolve/Laws.antt =====
-- What the resolution of placeholders does (app/services/approval_resume.py,
-- app/services/multitool_pipeline.py).
use Prim.Native.Char.{Char, code}
use project_b_multi_agent.Json.{
  Fields, Items, Value, arr, cons, end, field, flag, nil, null, num, obj, text,
}
use project_b_multi_agent.Json.Occurs.{
  OccursIn, OccursInFields, OccursInItems, in_arr, in_head, in_obj, in_rest, in_tail, in_value,
  itself,
}
use project_b_multi_agent.Prelude.{
  Bool, Bool-cases, Option, String, ap, arith, eqb, false, if_no, if_yes, inl, inr, none, refl,
  some, sym, true, ◌&&◌, ◌∙◌, ◌≡◌, ◌⊎◌,
}
use project_b_multi_agent.Resolve.{
  Resolved, arr_of, cons_of, field_of, found_or, obj_of, placeholder, resolve_fields, resolve_items,
  resolve_text, resolve_value, resolved, unresolved,
}

-- no text in the value is a placeholder
unfoldable mutual
  pub is_plain : Value → Bool
  is_plain null = true
  is_plain (flag b) = true
  is_plain (num n) = true
  is_plain (text s) = elim (placeholder s) [ none ↦ true | some p ↦ false ]
  is_plain (arr xs) = is_plain_items xs
  is_plain (obj d) = is_plain_fields d

  pub is_plain_items : Items → Bool
  is_plain_items nil = true
  is_plain_items (cons v xs) = is_plain v && is_plain_items xs

  pub is_plain_fields : Fields → Bool
  is_plain_fields end = true
  is_plain_fields (field k v d) = is_plain v && is_plain_fields d

module _ (variable : String → Option Value) where
  mutual
    unfolding resolve_value is_plain

    plain_value : (v : Value) → is_plain v ≡ true → resolve_value variable v ≡ resolved v
    plain_value null h = refl
    plain_value (flag b) h = refl
    plain_value (num n) h = refl
    plain_value (text s) h = ground arith
    plain_value (arr xs) h = ground (arith, plain_items xs h)
    plain_value (obj d) h = ground (arith, plain_fields d h)

    plain_items : (xs : Items) → is_plain_items xs ≡ true → resolve_items variable xs ≡ resolved xs
    plain_items nil h = refl
    plain_items (cons v xs) h = ground (arith, plain_value v, plain_items xs)

    plain_fields : (d : Fields) → is_plain_fields d ≡ true → resolve_fields variable d ≡ resolved d
    plain_fields end h = refl
    plain_fields (field k v d) h = ground (arith, plain_value v, plain_fields d)

  -- Arguments with no placeholder are passed on as they are, nested lists and dicts included.
  resolve_fields-plain :
      (d : Fields) → is_plain_fields d ≡ true → resolve_fields variable d ≡ resolved d
  resolve_fields-plain d h = plain_fields d h

-- the text `$p`: a character 36, and `p`
abbrev pub IsDollar : String → String → Type 0
IsDollar s p = (c : Char) × (code c ≡ 36) × (s ≡ String.◌∷◌ c p)

abbrev pub Unresolvable : (String → Option Value) → (String → Type 0) → String → Type 0
Unresolvable variable Occurs p = (s : String) × Occurs s × IsDollar s p × (variable p ≡ none)

module _ (variable : String → Option Value) where
  found_or-unresolved :
      (found : Option Value) (q p : String)
      → found_or found q ≡ unresolved p
      → (q ≡ p) × (found ≡ none)
  found_or-unresolved none q p h = (cc h, refl)
  found_or-unresolved (some v) q p h = cc

  failed_text :
      (s p : String)
      → resolve_text variable s (placeholder s) ≡ unresolved p
      → IsDollar s p × (variable p ≡ none)
  failed_text String.[] p h = cc
  failed_text (String.◌∷◌ c q) p h = elim (Bool-cases (eqb (code c) b'$')) [
    | inl e ↦
        (let parts =
            found_or-unresolved (variable q) q p
              (sym (ap (resolve_text variable (String.◌∷◌ c q)) (if_yes _ _ _ e)) ∙ h) in
          (
            (c, ground (arith, e), ap (λ r. String.◌∷◌ c r) parts.0),
            ap variable (sym parts.0) ∙ parts.1,
          ))
    | inr e ↦ cc (sym (ap (resolve_text variable (String.◌∷◌ c q)) (if_no _ _ _ e)) ∙ h)
  ]

  arr_of-unresolved : (r : Resolved Items) (p : String) → arr_of r ≡ unresolved p → r ≡ unresolved p
  arr_of-unresolved (resolved xs) p h = cc
  arr_of-unresolved (unresolved q) p h = cc h

  obj_of-unresolved :
      (r : Resolved Fields) (p : String) → obj_of r ≡ unresolved p → r ≡ unresolved p
  obj_of-unresolved (resolved d) p h = cc
  obj_of-unresolved (unresolved q) p h = cc h

  cons_of-unresolved :
      (r : Resolved Value) (rs : Resolved Items) (p : String)
      → cons_of r rs ≡ unresolved p
      → (r ≡ unresolved p) ⊎ (rs ≡ unresolved p)
  cons_of-unresolved (unresolved q) rs p h = inl (cc h)
  cons_of-unresolved (resolved v) (unresolved q) p h = inr (cc h)
  cons_of-unresolved (resolved v) (resolved xs) p h = cc

  field_of-unresolved :
      (k : String) (r : Resolved Value) (rs : Resolved Fields) (p : String)
      → field_of k r rs ≡ unresolved p
      → (r ≡ unresolved p) ⊎ (rs ≡ unresolved p)
  field_of-unresolved k (unresolved q) rs p h = inl (cc h)
  field_of-unresolved k (resolved v) (unresolved q) p h = inr (cc h)
  field_of-unresolved k (resolved v) (resolved d) p h = cc

  mutual
    unfolding resolve_value

    failed_value :
        (v : Value) (p : String)
        → resolve_value variable v ≡ unresolved p
        → Unresolvable variable (λ s. OccursIn s v) p
    failed_value null p h = cc
    failed_value (flag b) p h = cc
    failed_value (num n) p h = cc
    failed_value (text s) p h = let parts = failed_text s p h in (s, itself, parts.0, parts.1)
    failed_value (arr xs) p h =
        let (s, at_s, dollar, unset_p) = failed_items xs p (arr_of-unresolved _ p h) in
        (s, in_arr at_s, dollar, unset_p)
    failed_value (obj d) p h =
        let (s, at_s, dollar, unset_p) = failed_fields d p (obj_of-unresolved _ p h) in
        (s, in_obj at_s, dollar, unset_p)

    failed_items :
        (xs : Items) (p : String)
        → resolve_items variable xs ≡ unresolved p
        → Unresolvable variable (λ s. OccursInItems s xs) p
    failed_items nil p h = cc
    failed_items (cons v xs) p h =
        elim (cons_of-unresolved (resolve_value variable v) (resolve_items variable xs) p h) [
          | inl e ↦
              (let (s, at_s, dollar, unset_p) = failed_value v p e in
                (s, in_head at_s, dollar, unset_p))
          | inr e ↦
              (let (s, at_s, dollar, unset_p) = failed_items xs p e in
                (s, in_tail at_s, dollar, unset_p))
        ]

    failed_fields :
        (d : Fields) (p : String)
        → resolve_fields variable d ≡ unresolved p
        → Unresolvable variable (λ s. OccursInFields s d) p
    failed_fields end p h = cc
    failed_fields (field k v d) p h =
        elim (field_of-unresolved k (resolve_value variable v) (resolve_fields variable d) p h) [
          | inl e ↦
              (let (s, at_s, dollar, unset_p) = failed_value v p e in
                (s, in_value at_s, dollar, unset_p))
          | inr e ↦
              (let (s, at_s, dollar, unset_p) = failed_fields d p e in
                (s, in_rest at_s, dollar, unset_p))
        ]

  -- A resolution that fails with a path fails at a text of the arguments, at whatever depth, that is
  -- `$` and that path, and whose variable has no value.
  pub resolve_fields-unresolved :
      (d : Fields) (p : String)
      → resolve_fields variable d ≡ unresolved p
      → (s : String) × OccursInFields s d × IsDollar s p × (variable p ≡ none)
  resolve_fields-unresolved d p h = failed_fields d p h
