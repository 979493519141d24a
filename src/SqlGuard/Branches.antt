-- ===== src/SqlGuard/Branches.antt =====
-- The branches of `SQLGuard.check` (app/agent/nl2sql/sql_guard.py).
use project_b_multi_agent.Prelude.{
  List, Option, String, false, if_both, if_split, none, not, refl, some, true, ℕ, ◌&&◌, ◌==◌, ◌≡◌,
}
use project_b_multi_agent.PyText.{strip}
use project_b_multi_agent.SqlGuard.{
  Reason, SqlGuardResult, Unicode, blocked_keywords, by_comments, by_first_word, by_keywords,
  check_sql, codes, ensure_limit, first_blocked, first_word, has_codes, is_multi_statement,
  no_reason, refuse, same_codes, upper,
}

abbrev pub allow_sql : String → SqlGuardResult
allow_sql sql = record { allowed = true; sql = sql; reason = no_reason }

-- A property of every refusal and of the text that is allowed holds of the result.
module _ (u : Unicode) (sql : String) (Q : SqlGuardResult → Type 0)
    (refused : (s : String) (r : Reason) → Q (refuse s r)) where
  by_first_word-both :
      (stripped : String) (normalized : List ℕ)
      → Q (allow_sql (ensure_limit u stripped))
      → Q (by_first_word u sql stripped normalized)
  by_first_word-both stripped normalized h =
      let w = first_word normalized in
      if_both Q (not (same_codes w (codes "SELECT")) && not (same_codes w (codes "WITH")))
        (refused _ _)
        (if_both Q (same_codes w (codes "WITH") && not (has_codes (codes "SELECT") normalized))
          (refused _ _) h)

  by_keywords-both :
      (stripped : String) (normalized : List ℕ) (found : Option String)
      → (found ≡ none → Q (allow_sql (ensure_limit u stripped)))
      → Q (by_keywords u sql stripped normalized found)
  by_keywords-both stripped normalized none h = by_first_word-both stripped normalized (h refl)
  by_keywords-both stripped normalized (some kw) h = refused _ _

  by_comments-both :
      (stripped : String) (found : Option String)
      → (first_blocked u blocked_keywords (upper u (codes stripped)) ≡ none
          → Q (allow_sql (ensure_limit u stripped)))
      → Q (by_comments u sql stripped found)
  by_comments-both stripped none h = by_keywords-both stripped (upper u (codes stripped)) _ h
  by_comments-both stripped (some kw) h = refused _ _

  pub check_sql-both :
      (is_multi_statement (strip sql) ≡ false
        → first_blocked u blocked_keywords (upper u (codes (strip sql))) ≡ none
        → Q (allow_sql (ensure_limit u (strip sql))))
      → Q (check_sql u sql)
  unfolding check_sql
  check_sql-both h = if_both Q (strip sql == "") (refused _ _) (
      if_split Q (is_multi_statement (strip sql)) (λ e. refused _ _)
        (λ e. by_comments-both (strip sql) _ (h e)))
