-- ===== src/SqlGuard/Returned.antt =====
-- The text that SQLGuard returns has no blocked keyword (app/agent/nl2sql/sql_guard.py).
use Prim.Native.Char.{Char, code}
use Prim.Native.String.{◌++◌ as text_append}
use project_b_multi_agent.Prelude.{
  Bool, Bool-cases, String, ap, false, if_both, if_no, if_yes, inl, inr, none, not, refl, subst,
  sym, true, ℕ, ◌∙◌, ◌≡◌,
}
use project_b_multi_agent.PyText.{is_space, lstrip, rstrip, strip}
use project_b_multi_agent.SqlGuard.{
  Unicode, blocked_keywords, check_sql, codes, ensure_limit, first_blocked, fold_case, has_word,
  rstrip_semicolons, upper,
}
use project_b_multi_agent.SqlGuard.Boundaries.{not-false}
use project_b_multi_agent.SqlGuard.Branches.{check_sql-both}
use project_b_multi_agent.SqlGuard.Keywords.{
  IsOutside, Tail, codes-append, first_blocked-continued, first_blocked-cut, keywords_all_words,
  limit_is_quiet, rstrip-Tail, rstrip_semicolons-Tail, upper-append,
}
use project_b_multi_agent.SqlGuard.Words.{is_semicolon, trim, trim-cases}

-- the text does not start with white space
starts_plain : String → Bool
starts_plain String.[] = true
starts_plain (String.◌∷◌ c s) = not (is_space (code c))

lstrip-starts_plain : (s : String) → starts_plain (lstrip s) ≡ true
unfolding lstrip starts_plain
lstrip-starts_plain String.[] = refl
lstrip-starts_plain (String.◌∷◌ c s) = elim (Bool-cases (is_space (code c))) [
  | inl e ↦ ap starts_plain (if_yes _ _ _ e) ∙ lstrip-starts_plain s
  | inr e ↦ ap starts_plain (if_no _ _ _ e) ∙ ap not e
]

trim-starts_plain :
    (b : Bool) (c : Char) (s rest : String)
    → starts_plain (String.◌∷◌ c s) ≡ true
    → starts_plain (trim b c rest) ≡ true
unfolding starts_plain
trim-starts_plain b c s rest h = elim (trim-cases b c rest) [
  | inl e ↦ ap starts_plain e.0
  | inr e ↦ ap starts_plain e ∙ h
]

rstrip-starts_plain : (s : String) → starts_plain s ≡ true → starts_plain (rstrip s) ≡ true
unfolding rstrip
rstrip-starts_plain String.[] h = h
rstrip-starts_plain (String.◌∷◌ c s) h = trim-starts_plain (is_space (code c)) c s (rstrip s) h

rstrip_semicolons-starts_plain :
    (s : String) → starts_plain s ≡ true → starts_plain (rstrip_semicolons s) ≡ true
unfolding rstrip_semicolons
rstrip_semicolons-starts_plain String.[] h = h
rstrip_semicolons-starts_plain (String.◌∷◌ c s) h =
    trim-starts_plain (is_semicolon c) c s (rstrip_semicolons s) h

lstrip_plain : (s : String) → starts_plain s ≡ true → lstrip s ≡ s
unfolding lstrip starts_plain
lstrip_plain String.[] h = refl
lstrip_plain (String.◌∷◌ c s) h = if_no _ _ _ (not-false _ h)

module _ (u : Unicode) (spaces : (c : ℕ) → is_space c ≡ true → IsOutside u c) where
  -- no blocked keyword is a word of the text in upper case
  abbrev IsFree : String → Type 0
  IsFree s = first_blocked u blocked_keywords (upper u (codes s)) ≡ none

  Tail-IsFree : (s rest : String) → Tail u s rest → IsFree s → IsFree rest
  Tail-IsFree s rest (ys, same, is_outside) h =
      first_blocked-cut u blocked_keywords (upper u (codes rest)) ys (keywords_all_words u)
        is_outside (sym (ap (first_blocked u blocked_keywords) same) ∙ h)

  limit-IsFree : (s : String) → IsFree s → IsFree (text_append s " LIMIT 100;")
  limit-IsFree s h =
      ap (first_blocked u blocked_keywords) (
        ap (upper u) (codes-append s " LIMIT 100;")
        ∙ upper-append u (codes s) (codes " LIMIT 100;"))
      ∙ first_blocked-continued u blocked_keywords (upper u (codes s))
          (upper u (codes " LIMIT 100;")) (keywords_all_words u) (limit_is_quiet u) refl h

  ensure_limit-IsFree : (sql : String) → IsFree (strip sql) → IsFree (ensure_limit u (strip sql))
  unfolding ensure_limit strip
  ensure_limit-IsFree sql h =
      let stripped = rstrip (lstrip sql) in
      let bare = rstrip_semicolons stripped in
      let plain =
        rstrip_semicolons-starts_plain _ (rstrip-starts_plain _ (lstrip-starts_plain sql)) in
      let free =
        Tail-IsFree bare (rstrip bare) (rstrip-Tail u spaces bare)
          (Tail-IsFree stripped bare (rstrip_semicolons-Tail u stripped) h) in
      if_both IsFree (has_word u (codes "LIMIT") false (fold_case u (codes stripped))) h (
        limit-IsFree (strip bare)
          (subst (λ t. IsFree (rstrip t)) (sym (lstrip_plain bare plain)) free))

  -- Where white space is no word character and stays as it is in upper case, the text that an allowed
  -- result carries, with its limit, has none of the blocked keywords as a word in upper case.
  pub check_sql-keywords :
      (sql : String)
      → (check_sql u sql).allowed ≡ true
      → first_blocked u blocked_keywords (upper u (codes (check_sql u sql).sql)) ≡ none
  check_sql-keywords sql =
      check_sql-both u sql (λ r. r.allowed ≡ true → IsFree r.sql) (λ s r h. cc)
        (λ e free h. ensure_limit-IsFree sql free)
