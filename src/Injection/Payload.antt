-- ===== src/Injection/Payload.antt =====
-- When a payload is blocked (`check_payload` of app/harness/security/injection_guard.py).
use project_b_multi_agent.Injection.{
  Finding, Search, after_high, after_medium, after_warn, check_payload, check_text, collect_fields,
  collect_items, collect_strings, is_block, is_high_risk, or_no_finding, worse_of, worst_of,
}
use project_b_multi_agent.Json.{
  Fields, Items, Value, arr, cons, end, field, flag, nil, null, num, obj, text,
}
use project_b_multi_agent.Json.Occurs.{
  OccursIn, OccursInFields, OccursInItems, in_arr, in_head, in_obj, in_rest, in_tail, in_value,
  itself,
}
use project_b_multi_agent.Prelude.{
  Bool, Bool-cases, List, Option, String, [], ap, arith, eq_iff, false, if_both, if_no, if_yes,
  if◌then◌else◌, inl, inr, none, not, refl, some, sym, true, ◌&&◌, ◌++◌, ◌==◌, ◌||◌, ◌↔◌, ◌∙◌, ◌∷◌,
  ◌≡◌, ◌⊎◌,
}

-- some text of the list is blocked
unfoldable pub any_blocked : Search → List String → Bool
any_blocked finds [] = false
any_blocked finds (s ∷ ss) = is_block (check_text finds s).action || any_blocked finds ss

abbrev blocks : Option Finding → Bool
blocks none = false
blocks (some f) = is_block f.action

-- a finding of high severity blocks, and no finding does not
unfoldable IsSound : Finding → Type 0
IsSound f =
    (is_high_risk f.severity && not (is_block f.action) ≡ false)
    × (is_block f.action && not f.detected ≡ false)

after_warn-IsSound : (matched : List String) → IsSound (after_warn matched)
unfolding IsSound
after_warn-IsSound [] = (refl, refl)
after_warn-IsSound (s ∷ ss) = (refl, refl)

after_medium-IsSound :
    (finds : Search) (prompt : String) (matched : List String)
    → IsSound (after_medium finds prompt matched)
unfolding IsSound
after_medium-IsSound finds prompt [] = after_warn-IsSound _
after_medium-IsSound finds prompt (s ∷ ss) = (refl, refl)

after_high-IsSound :
    (finds : Search) (prompt : String) (matched : List String)
    → IsSound (after_high finds prompt matched)
unfolding IsSound
after_high-IsSound finds prompt [] = after_medium-IsSound finds prompt _
after_high-IsSound finds prompt (s ∷ ss) = (refl, refl)

check_text-IsSound : (finds : Search) (prompt : String) → IsSound (check_text finds prompt)
unfolding check_text IsSound
check_text-IsSound finds prompt =
    if_both IsSound (prompt == "") (refl, refl) (after_high-IsSound finds prompt _)

-- the worse of two findings blocks if one of them does
blocks-worse_of :
    (detected : Bool) (finding : Finding) (worst : Option Finding)
    → (is_high_risk finding.severity && not (is_block finding.action) ≡ false)
    → (is_block finding.action && not detected ≡ false)
    → blocks (if detected then worse_of finding worst else worst)
      ≡ (blocks worst || is_block finding.action)
blocks-worse_of true finding none h k = refl
blocks-worse_of true finding (some worst) h k = ground arith
blocks-worse_of false finding worst h k = ground arith

or_assoc : (a b c : Bool) → ((a || b) || c) ≡ (a || (b || c))
or_assoc true b c = refl
or_assoc false b c = refl

blocks-worst_of :
    (finds : Search) (texts : List String) (worst : Option Finding)
    → blocks (worst_of finds texts worst) ≡ (blocks worst || any_blocked finds texts)
unfolding worst_of any_blocked IsSound
blocks-worst_of finds [] worst = ground arith
blocks-worst_of finds (s ∷ ss) worst =
    let finding = check_text finds s in
    let (blocks_high, is_found) = check_text-IsSound finds s in
    let step = blocks-worse_of finding.detected finding worst blocks_high is_found in
    blocks-worst_of finds ss (if finding.detected then worse_of finding worst else worst)
    ∙ ap (λ b. b || any_blocked finds ss) step
    ∙ or_assoc (blocks worst) (is_block finding.action) (any_blocked finds ss)

blocks-or_no_finding : (f : Option Finding) → is_block (or_no_finding f).action ≡ blocks f
blocks-or_no_finding none = refl
blocks-or_no_finding (some f) = refl

check_payload-any_blocked :
    (finds : Search) (payload : Fields)
    → is_block (check_payload finds payload).action ≡ any_blocked finds (collect_fields payload)
unfolding check_payload
check_payload-any_blocked finds payload =
    blocks-or_no_finding (worst_of finds (collect_fields payload) none)
    ∙ blocks-worst_of finds (collect_fields payload) none

module _ (finds : Search) where
  -- some text that occurs is blocked by itself
  abbrev Blocked : (String → Type 0) → Type 0
  Blocked Occurs = (s : String) × Occurs s × (is_block (check_text finds s).action ≡ true)

  any_blocked-append :
      (xs ys : List String)
      → any_blocked finds (xs ++ ys) ≡ (any_blocked finds xs || any_blocked finds ys)
  unfolding any_blocked
  any_blocked-append [] ys = refl
  any_blocked-append (x ∷ xs) ys =
      ap (λ b. is_block (check_text finds x).action || b) (any_blocked-append xs ys)
      ∙ sym (
          or_assoc (is_block (check_text finds x).action) (any_blocked finds xs)
            (any_blocked finds ys))

  or_cases : (a b : Bool) → (a || b) ≡ true → (a ≡ true) ⊎ (b ≡ true)
  or_cases true b h = inl refl
  or_cases false b h = inr h

  or_of : (a b : Bool) → (a ≡ true) ⊎ (b ≡ true) → (a || b) ≡ true
  or_of true b h = refl
  or_of false b (inl h) = cc h
  or_of false b (inr h) = h

  check_text-empty : is_block (check_text finds "").action ≡ false
  unfolding check_text
  check_text-empty = refl

  collected_text :
      (s : String)
      → any_blocked finds (if s == "" then [] else s ∷ []) ≡ is_block (check_text finds s).action
  unfolding any_blocked
  collected_text s = elim (Bool-cases (s == "")) [
    | inl e ↦
        ap (any_blocked finds) (if_yes _ _ _ e)
        ∙ sym
            (ap (λ t. is_block (check_text finds t).action) ((eq_iff s "").0 e) ∙ check_text-empty)
    | inr e ↦
        ap (any_blocked finds) (if_no _ _ _ e)
        ∙ ground (arith, is_block (check_text finds s).action)
  ]

  mutual
    unfolding collect_fields any_blocked

    blocked_value :
        (v : Value) → any_blocked finds (collect_strings v) ≡ true → Blocked (λ s. OccursIn s v)
    blocked_value null h = cc
    blocked_value (flag b) h = cc
    blocked_value (num n) h = cc
    blocked_value (text s) h = (s, itself, sym (collected_text s) ∙ h)
    blocked_value (arr xs) h = let (s, at_s, e) = blocked_items xs h in (s, in_arr at_s, e)
    blocked_value (obj d) h = let (s, at_s, e) = blocked_fields d h in (s, in_obj at_s, e)

    blocked_items :
        (xs : Items)
        → any_blocked finds (collect_items xs) ≡ true
        → Blocked (λ s. OccursInItems s xs)
    blocked_items nil h = cc
    blocked_items (cons v xs) h =
        elim (or_cases _ _ (sym (any_blocked-append (collect_strings v) (collect_items xs)) ∙ h)) [
          | inl k ↦ (let (s, at_s, e) = blocked_value v k in (s, in_head at_s, e))
          | inr k ↦ (let (s, at_s, e) = blocked_items xs k in (s, in_tail at_s, e))
        ]

    blocked_fields :
        (d : Fields)
        → any_blocked finds (collect_fields d) ≡ true
        → Blocked (λ s. OccursInFields s d)
    blocked_fields end h = cc
    blocked_fields (field k v d) h =
        elim (or_cases _ _ (sym (any_blocked-append (collect_strings v) (collect_fields d)) ∙ h)) [
          | inl e ↦ (let (s, at_s, found) = blocked_value v e in (s, in_value at_s, found))
          | inr e ↦ (let (s, at_s, found) = blocked_fields d e in (s, in_rest at_s, found))
        ]

  module _ (s : String) (h : is_block (check_text finds s).action ≡ true) where
    mutual
      unfolding collect_fields any_blocked

      value_blocked : (v : Value) → OccursIn s v → any_blocked finds (collect_strings v) ≡ true
      value_blocked null o = elim o [ ]
      value_blocked (flag b) o = elim o [ ]
      value_blocked (num n) o = elim o [ ]
      value_blocked (text t) itself = collected_text s ∙ h
      value_blocked (arr xs) (in_arr o) = items_blocked xs o
      value_blocked (obj d) (in_obj o) = fields_blocked d o

      items_blocked :
          (xs : Items) → OccursInItems s xs → any_blocked finds (collect_items xs) ≡ true
      items_blocked nil o = elim o [ ]
      items_blocked (cons v xs) (in_head o) =
          any_blocked-append (collect_strings v) (collect_items xs)
          ∙ or_of _ _ (inl (value_blocked v o))
      items_blocked (cons v xs) (in_tail o) =
          any_blocked-append (collect_strings v) (collect_items xs)
          ∙ or_of _ _ (inr (items_blocked xs o))

      fields_blocked :
          (d : Fields) → OccursInFields s d → any_blocked finds (collect_fields d) ≡ true
      fields_blocked end o = elim o [ ]
      fields_blocked (field k v d) (in_value o) =
          any_blocked-append (collect_strings v) (collect_fields d)
          ∙ or_of _ _ (inl (value_blocked v o))
      fields_blocked (field k v d) (in_rest o) =
          any_blocked-append (collect_strings v) (collect_fields d)
          ∙ or_of _ _ (inr (fields_blocked d o))

  -- A payload is blocked exactly when some text in it, at whatever depth and in whatever place, is
  -- blocked by itself: no other finding hides it.
  pub check_payload_lem :
      (payload : Fields)
      → (is_block (check_payload finds payload).action ≡ true)
        ↔ ((s : String) × OccursInFields s payload × (is_block (check_text finds s).action ≡ true))
  check_payload_lem payload =
      let collected = check_payload-any_blocked finds payload in
      (
        λ h. blocked_fields payload (sym collected ∙ h),
        λ (s, at_s, h). collected ∙ fields_blocked s h payload at_s,
      )
