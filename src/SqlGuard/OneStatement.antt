-- ===== src/SqlGuard/OneStatement.antt =====
-- A text that `SQLGuard.check` allows is one statement (app/agent/nl2sql/sql_guard.py).
use Prim.Native.Char.{code}
use Prim.Native.String.{◌++◌ as text_append}
use package.text.Mathlib.TextLemmas.{cons-append, nil-append}
use project_b_multi_agent.Prelude.{
  Bool, Bool-cases, String, and_true, ap, false, if_both, if_no, if_yes, inl, inr, not, or_right,
  refl, sym, true, ◌||◌, ◌∙◌, ◌≡◌,
}
use project_b_multi_agent.PyText.{is_space, lstrip, rstrip, strip}
use project_b_multi_agent.SqlGuard.{
  SqlGuardResult, Unicode, check_sql, codes, ensure_limit, fold_case, has_word, is_multi_statement,
  rstrip_semicolons,
}
use project_b_multi_agent.SqlGuard.Branches.{check_sql-both}
use project_b_multi_agent.SqlGuard.Words.{
  contains_semicolon, has_semicolon, has_semicolon-cons, is_one_statement, is_semicolon, only_tail,
  only_tail-one_statement, or_false, or_neither, rstrip-cons, rstrip_empty, rstrip_semicolons-cons,
  stripped_empty, trim, trim-cases,
}

-- the text without its trailing white space and semicolons has no semicolon
stripped-one_statement :
    (s : String) → has_semicolon (rstrip_semicolons (rstrip s)) ≡ false → is_one_statement s ≡ true
unfolding is_one_statement only_tail
stripped-one_statement String.[] h = refl
stripped-one_statement (String.◌∷◌ c s) h = elim (trim-cases (is_space (code c)) c (rstrip s)) [
  | inl e ↦
      only_tail-one_statement (String.◌∷◌ c s)
        (and_true (or_right (is_semicolon c) _ e.2) (rstrip_empty s e.1))
  | inr e ↦
      (let kept =
          ap rstrip_semicolons (rstrip-cons c s ∙ e) ∙ rstrip_semicolons-cons c (rstrip s) in
        elim (trim-cases (is_semicolon c) c (rstrip_semicolons (rstrip s))) [
          | inl d ↦ if_yes _ _ _ d.2 ∙ stripped_empty s d.1
          | inr d ↦
              (let parts =
                  or_false (is_semicolon c) _
                    (sym (has_semicolon-cons c _) ∙ sym (ap has_semicolon (kept ∙ d)) ∙ h) in
                if_no _ _ _ parts.0 ∙ stripped-one_statement s parts.1)
        ])
]

rstrip-rstrip : (s : String) → rstrip (rstrip s) ≡ rstrip s
unfolding rstrip
rstrip-rstrip String.[] = refl
rstrip-rstrip (String.◌∷◌ c s) = elim (trim-cases (is_space (code c)) c (rstrip s)) [
  | inl e ↦ (let none_left = rstrip-cons c s ∙ e.0 in ap rstrip none_left ∙ sym none_left)
  | inr e ↦
      (let kept = rstrip-cons c s ∙ e in
        ap rstrip kept
        ∙ rstrip-cons c (rstrip s)
        ∙ ap (trim (is_space (code c)) c) (rstrip-rstrip s)
        ∙ e
        ∙ sym kept)
]

rstrip-free : (s : String) → has_semicolon s ≡ false → has_semicolon (rstrip s) ≡ false
unfolding has_semicolon rstrip
rstrip-free String.[] h = refl
rstrip-free (String.◌∷◌ c s) h =
    let parts = or_false (is_semicolon c) _ (sym (has_semicolon-cons c s) ∙ h) in
    elim (trim-cases (is_space (code c)) c (rstrip s)) [
      | inl e ↦ ap has_semicolon (rstrip-cons c s ∙ e.0)
      | inr e ↦
          ap has_semicolon (rstrip-cons c s ∙ e)
          ∙ has_semicolon-cons c (rstrip s)
          ∙ or_neither _ _ parts.0 (rstrip-free s parts.1)
    ]

lstrip-free : (s : String) → has_semicolon s ≡ false → has_semicolon (lstrip s) ≡ false
unfolding has_semicolon lstrip
lstrip-free String.[] h = refl
lstrip-free (String.◌∷◌ c s) h =
    let parts = or_false (is_semicolon c) _ (sym (has_semicolon-cons c s) ∙ h) in
    elim (Bool-cases (is_space (code c))) [
      | inl e ↦ ap has_semicolon (if_yes _ _ _ e) ∙ lstrip-free s parts.1
      | inr e ↦ ap has_semicolon (if_no _ _ _ e) ∙ h
    ]

append-one_statement :
    (s t : String)
    → has_semicolon s ≡ false
    → is_one_statement t ≡ true
    → is_one_statement (text_append s t) ≡ true
unfolding is_one_statement
append-one_statement String.[] t h k = ap is_one_statement (nil-append t) ∙ k
append-one_statement (String.◌∷◌ c s) t h k =
    let parts = or_false (is_semicolon c) _ (sym (has_semicolon-cons c s) ∙ h) in
    ap is_one_statement (cons-append c s t)
    ∙ if_no _ _ _ parts.0
    ∙ append-one_statement s t parts.1 k

limit-one_statement : is_one_statement " LIMIT 100;" ≡ true
unfolding is_one_statement only_tail
limit-one_statement = refl

-- what `_ensure_limit` returns for a text that `_check_multi_statement` lets pass
ensure_limit-one_statement :
    (u : Unicode) (s : String)
    → is_multi_statement (strip s) ≡ false
    → is_one_statement (ensure_limit u (strip s)) ≡ true
unfolding is_multi_statement ensure_limit strip
ensure_limit-one_statement u s h =
    let free = sym (contains_semicolon (rstrip_semicolons (rstrip (strip s)))) ∙ h in
    let bare =
      sym (ap (λ t. has_semicolon (rstrip_semicolons t)) (rstrip-rstrip (lstrip s))) ∙ free in
    if_both (λ t. is_one_statement t ≡ true)
      (has_word u (codes "LIMIT") false (fold_case u (codes (strip s))))
      (stripped-one_statement (strip s) free)
      (append-one_statement (strip (rstrip_semicolons (strip s))) " LIMIT 100;"
        (rstrip-free _ (lstrip-free _ bare)) limit-one_statement)

unfoldable pub allows_one_statement : SqlGuardResult → Bool
unfolding is_one_statement
allows_one_statement r = not r.allowed || is_one_statement r.sql

-- An allowed text, as the guard returns it with its limit, has after its first semicolon nothing but
-- semicolons and white space, whatever text was checked.
pub check_sql-one_statement :
    (u : Unicode) (sql : String) → allows_one_statement (check_sql u sql) ≡ true
unfolding allows_one_statement
check_sql-one_statement u sql =
    check_sql-both u sql (λ r. allows_one_statement r ≡ true) (λ s r. refl)
      (λ h free. ensure_limit-one_statement u sql h)
