-- ===== src/SqlGuard.antt =====
-- app/agent/nl2sql/sql_guard.py: what SQL may run.
--
-- `str.upper`, `\w` and the folding of `re.IGNORECASE` are written out for ASCII; a `Unicode` says
-- what they are for the other characters. A text that is only searched is a list of code points.
pub mod Words
pub mod Branches
pub mod OneStatement
pub mod Boundaries
pub mod Keywords
pub mod Returned
use Prim.Native.Char.{Char, code}
use Prim.Native.String.{◌++◌ as text_append}
use project_b_multi_agent.Json.{join_text}
use project_b_multi_agent.MultiAgent.Coordinator.{drop_text}
use project_b_multi_agent.Prelude.{
  Bool, List, Option, String, [], eqb, false, if◌then◌else◌, leb, ltb, none, not, some, true, ℕ,
  ◌&&◌, ◌++◌, ◌-◌, ◌==◌, ◌||◌, ◌∷◌,
}
use project_b_multi_agent.PyText.{contains, is_space, rstrip, split, starts_with, strip}

pub record Unicode : Type 0 where
  pub word : ℕ → Bool
  pub upper_case : ℕ → List ℕ
  pub fold : ℕ → ℕ

abbrev pub codes : String → List ℕ
codes String.[] = []
codes (String.◌∷◌ c s) = code c ∷ codes s

abbrev is_lower : ℕ → Bool
is_lower c = leb b'a' c && leb c b'z'

-- `\w`
abbrev pub is_word : Unicode → ℕ → Bool
is_word u c =
    if ltb c 128
    then is_lower c || (leb b'A' c && leb c b'Z') || (leb b'0' c && leb c b'9') || eqb c b'_'
    else u.word c

-- `str.upper` of one character, and of a text
abbrev pub upper_char : Unicode → ℕ → List ℕ
upper_char u c = if ltb c 128 then (if is_lower c then c - 32 else c) ∷ [] else u.upper_case c

abbrev pub upper : Unicode → List ℕ → List ℕ
upper u [] = []
upper u (c ∷ cs) = upper_char u c ++ upper u cs

abbrev pub fold_case : Unicode → List ℕ → List ℕ
fold_case u [] = []
fold_case u (c ∷ cs) =
    (if ltb c 128 then if is_lower c then c - 32 else c else u.fold c) ∷ fold_case u cs

-- what is left of `cs` after the text `p` at its head
unfoldable pub after_prefix : List ℕ → List ℕ → Option (List ℕ)
after_prefix [] cs = some cs
after_prefix (p ∷ ps) [] = none
after_prefix (p ∷ ps) (c ∷ cs) = if eqb p c then after_prefix ps cs else none

abbrev pub starts_outside : Unicode → List ℕ → Bool
starts_outside u [] = true
starts_outside u (c ∷ cs) = not (is_word u c)

abbrev pub ends_word : Unicode → Option (List ℕ) → Bool
ends_word u none = false
ends_word u (some cs) = starts_outside u cs

-- `re.search(r'\b' + keyword + r'\b', text)` for a keyword of word characters; `inside` says that
-- the character before is one
unfoldable pub has_word : Unicode → List ℕ → Bool → List ℕ → Bool
unfolding after_prefix
has_word u keyword inside [] = false
has_word u keyword inside (c ∷ cs) =
    (not inside && ends_word u (after_prefix keyword (c ∷ cs)))
    || has_word u keyword (is_word u c) cs

abbrev pub blocked_keywords : List String
blocked_keywords =
    "DELETE" ∷ "UPDATE" ∷ "INSERT" ∷ "DROP" ∷ "TRUNCATE" ∷ "ALTER" ∷ "CREATE" ∷ "PRAGMA" ∷ []

-- the first of the keywords that the text has as a word
unfoldable pub first_blocked : Unicode → List String → List ℕ → Option String
first_blocked u [] cs = none
first_blocked u (kw ∷ kws) cs =
    let rest = first_blocked u kws cs in if has_word u (codes kw) false cs then some kw else rest

-- `s.rstrip(";")`
unfoldable pub rstrip_semicolons : String → String
rstrip_semicolons String.[] = ""
rstrip_semicolons (String.◌∷◌ c s) =
    let rest = rstrip_semicolons s in
    if rest == "" && eqb (code c) b';' then "" else String.◌∷◌ c rest

-- the reasons of a refusal, each with what its text names
pub data Reason : Type 0 where
  no_reason empty_sql multi_statement cte_without_select : Reason
  comment_keyword sql_keyword : String → Reason
  other_first_word : List ℕ → Reason

pub record SqlGuardResult : Type 0 where
  pub allowed : Bool
  pub sql : String
  pub reason : Reason

abbrev pub refuse : String → Reason → SqlGuardResult
refuse sql reason = record { allowed = false; sql = sql; reason = reason }

-- `_check_multi_statement`
unfoldable pub is_multi_statement : String → Bool
is_multi_statement sql = contains (rstrip_semicolons (rstrip sql)) ";"

-- the part of a line after its first "--"
unfoldable pub after_dashes : String → Option String
after_dashes String.[] = none
after_dashes (String.◌∷◌ c s) =
    let rest = after_dashes s in
    if starts_with (String.◌∷◌ c s) "--" then some (drop_text 1 s) else rest

abbrev line_comments : List String → List String
line_comments [] = []
line_comments (line ∷ lines) =
    let rest = line_comments lines in
    elim (after_dashes line) [ none ↦ rest | some part ↦ part ∷ rest ]

-- where the search for `/\*(.*?)\*/` stands: before a comment, between the two characters that
-- open it, in it with the text read so far, between the two that close it
pub data Place : Type 0 where
  outside opening closing : Place
  within : String → Place

abbrev step_place : Place → String → Char → Place
step_place outside rest c = if starts_with rest "/*" then opening else outside
step_place opening rest c = within ""
step_place closing rest c = outside
step_place (within body) rest c =
    if starts_with rest "*/" then closing else within (text_append body (String.◌∷◌ c ""))

abbrev closed_body : Place → String → List String
closed_body (within body) rest = if starts_with rest "*/" then body ∷ [] else []
closed_body _ rest = []

unfoldable pub block_comments : Place → String → List String
block_comments place String.[] = []
block_comments place (String.◌∷◌ c s) =
    closed_body place (String.◌∷◌ c s) ++ block_comments (step_place place (String.◌∷◌ c s) c) s

-- `" ".join(parts)`
abbrev pub join_spaced : List String → String
join_spaced [] = ""
join_spaced (p ∷ []) = p
join_spaced (p ∷ q ∷ ps) = join_text (p ∷ " " ∷ join_spaced (q ∷ ps) ∷ [])

unfoldable pub extract_comment_text : String → String
unfolding after_dashes block_comments
extract_comment_text sql =
    join_spaced (line_comments (split b'\n' sql) ++ block_comments outside sql)

-- `_check_comments`; an empty text has no word
unfoldable pub check_comments : Unicode → String → Option String
unfolding extract_comment_text first_blocked
check_comments u sql = first_blocked u blocked_keywords (upper u (codes (extract_comment_text sql)))

-- `normalized.split()[0] if normalized.split() else ""`
abbrev take_word : List ℕ → List ℕ
take_word [] = []
take_word (c ∷ cs) = if is_space c then [] else c ∷ take_word cs

unfoldable pub first_word : List ℕ → List ℕ
first_word [] = []
first_word (c ∷ cs) = let rest = first_word cs in if is_space c then rest else take_word (c ∷ cs)

abbrev pub same_codes : List ℕ → List ℕ → Bool
same_codes [] [] = true
same_codes (a ∷ rest) (b ∷ bs) = eqb a b && same_codes rest bs
same_codes _ _ = false

abbrev is_there : Option (List ℕ) → Bool
is_there none = false
is_there (some cs) = true

-- `p in text`
unfoldable pub has_codes : List ℕ → List ℕ → Bool
unfolding after_prefix
has_codes p [] = is_there (after_prefix p [])
has_codes p (c ∷ cs) = is_there (after_prefix p (c ∷ cs)) || has_codes p cs

-- `_ensure_limit`
unfoldable pub ensure_limit : Unicode → String → String
ensure_limit u sql =
    if has_word u (codes "LIMIT") false (fold_case u (codes sql))
    then sql
    else text_append (strip (rstrip_semicolons sql)) " LIMIT 100;"

abbrev pub by_first_word : Unicode → String → String → List ℕ → SqlGuardResult
by_first_word u sql stripped normalized =
    let w = first_word normalized in
    if not (same_codes w (codes "SELECT")) && not (same_codes w (codes "WITH"))
    then refuse sql (other_first_word w)
    else if same_codes w (codes "WITH") && not (has_codes (codes "SELECT") normalized)
    then refuse stripped cte_without_select
    else record { allowed = true; sql = ensure_limit u stripped; reason = no_reason }

abbrev pub by_keywords : Unicode → String → String → List ℕ → Option String → SqlGuardResult
by_keywords u sql stripped normalized (some kw) = refuse sql (sql_keyword kw)
by_keywords u sql stripped normalized none = by_first_word u sql stripped normalized

abbrev pub by_comments : Unicode → String → String → Option String → SqlGuardResult
by_comments u sql stripped (some kw) = refuse stripped (comment_keyword kw)
by_comments u sql stripped none =
    let normalized = upper u (codes stripped) in
    by_keywords u sql stripped normalized (first_blocked u blocked_keywords normalized)

unfoldable pub check_sql : Unicode → String → SqlGuardResult
unfolding is_multi_statement check_comments first_blocked first_word has_codes ensure_limit
check_sql u sql =
    let stripped = strip sql in
    if stripped == ""
    then refuse sql empty_sql
    else if is_multi_statement stripped
    then refuse stripped multi_statement
    else by_comments u sql stripped (check_comments u stripped)
