-- ===== src/Tests/SqlTexts.antt =====
-- The theorems on the guard of SQL texts, at small texts.
use project_b_multi_agent.Prelude.{[], arith, false, none, refl, true, ℕ, ◌∷◌, ◌≡◌}
use project_b_multi_agent.PyText.{contains, is_space, split, strip}
use project_b_multi_agent.SqlGuard.{
  Unicode, blocked_keywords, check_sql, codes, comment_keyword, first_blocked, has_word,
  multi_statement, no_reason, rstrip_semicolons, upper,
}
use project_b_multi_agent.SqlGuard.Keywords.{IsOutside}
use project_b_multi_agent.SqlGuard.OneStatement.{allows_one_statement, check_sql-one_statement}
use project_b_multi_agent.SqlGuard.Returned.{check_sql-keywords}

abbrev plain_unicode : Unicode
plain_unicode = record { word = λ c. false; upper_case = λ c. c ∷ []; fold = λ c. c }

two_refused :
    check_sql plain_unicode " select 1; ; "
    ≡ record { allowed = false; sql = "select 1; ;"; reason = multi_statement }
unfolding check_sql strip contains rstrip_semicolons
two_refused = refl

limit_added :
    check_sql plain_unicode " select 1;; "
    ≡ record { allowed = true; sql = "select 1 LIMIT 100;"; reason = no_reason }
unfolding check_sql strip contains rstrip_semicolons has_word split
limit_added = refl

limit_in_comment :
    check_sql plain_unicode "SELECT 1 -- x"
    ≡ record { allowed = true; sql = "SELECT 1 -- x LIMIT 100;"; reason = no_reason }
unfolding check_sql strip contains rstrip_semicolons has_word split
limit_in_comment = refl

limit_by_name : (check_sql plain_unicode "SELECT 'limit' FROM t").sql ≡ "SELECT 'limit' FROM t"
unfolding check_sql strip contains rstrip_semicolons has_word split
limit_by_name = refl

delete_refused :
    check_sql plain_unicode "SELECT 1 /* Drop it */"
    ≡ record { allowed = false; sql = "SELECT 1 /* Drop it */"; reason = comment_keyword "DROP" }
unfolding check_sql strip contains rstrip_semicolons has_word split
delete_refused = refl

check_sql-one_statement_example :
    allows_one_statement (check_sql plain_unicode " select 1;; ") ≡ true
check_sql-one_statement_example = check_sql-one_statement plain_unicode " select 1;; "

white_space-IsOutside : (c : ℕ) → is_space c ≡ true → IsOutside plain_unicode c
white_space-IsOutside c h = (ground arith, ground arith)

select_allowed : (check_sql plain_unicode " select 1;; ").allowed ≡ true
unfolding check_sql strip contains rstrip_semicolons has_word split
select_allowed = refl

check_sql-keywords_example :
    first_blocked plain_unicode blocked_keywords
      (upper plain_unicode (codes (check_sql plain_unicode " select 1;; ").sql))
    ≡ none
check_sql-keywords_example =
    check_sql-keywords plain_unicode white_space-IsOutside " select 1;; " select_allowed
