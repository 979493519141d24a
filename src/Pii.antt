-- ===== src/Pii.antt =====
-- app/harness/security/pii_guard.py: personal data in a text, found and masked.
--
-- `finditer` of the compiled patterns and `str.lower` are parameters.
pub mod Overlap
pub mod Masked
use Prim.Native.String.{◌++◌ as text_append}
use project_b_multi_agent.Json.{join_text}
use project_b_multi_agent.Memory.{take_text}
use project_b_multi_agent.MultiAgent.Coordinator.{drop_text}
use project_b_multi_agent.Prelude.{
  Bool, List, String, [], eqb, if◌then◌else◌, leb, length, ltb, map, suc, zero, ℕ, ◌&&◌, ◌++◌, ◌+◌,
  ◌-◌, ◌==◌, ◌||◌, ◌∷◌,
}
use project_b_multi_agent.PyText.{starts_with}
use project_b_multi_agent.SqlGuard.{codes}

pub record PiiFinding : Type 0 where
  pub kind : String
  pub value : String
  pub masked_value : String
  pub risk_level : String
  pub start : ℕ
  pub stop : ℕ

pub data Pattern : Type 0 where
  email cn_mobile cn_id bank_card sk_key bearer long_secret : Pattern

-- a match: `group(i)`, `start(i)` and `end(i)`
pub record Match : Type 0 where
  pub group : ℕ → String
  pub start_of : ℕ → ℕ
  pub stop_of : ℕ → ℕ

abbrev pub Finditer : Type 0
Finditer = Pattern → String → List Match

-- `len(s)`, `s[:n]`, `s[-n:]`, `"*" * n`
abbrev pub text_length : String → ℕ
text_length s = length (codes s)

abbrev pub last_text : ℕ → String → String
last_text n s = drop_text (text_length s - n) s

unfoldable pub stars : ℕ → String
stars zero = ""
stars (suc n) = text_append "*" (stars n)

-- the value with stars for all but its first `front` and last `back` characters
abbrev pub mask : ℕ → ℕ → String → String
mask front back full =
    join_text
      (take_text front full ∷ stars (text_length full - (front + back)) ∷ last_text back full ∷ [])

abbrev pub mask_secret : String → String
mask_secret value = if leb (text_length value) 8 then stars (text_length value) else mask 4 4 value

abbrev pub finding_at : String → String → ℕ → (String → String) → Match → PiiFinding
finding_at kind risk_level i masked m = record {
  kind = kind;
  value = m.group i;
  masked_value = masked (m.group i);
  risk_level = risk_level;
  start = m.start_of i;
  stop = m.stop_of i;
}

abbrev pub find_email : Finditer → String → List PiiFinding
find_email finditer s =
    map
      (λ m.
        finding_at "email" "medium" 0 (λ full. join_text (m.group 1 ∷ "***@" ∷ m.group 3 ∷ [])) m)
      (finditer email s)

abbrev mask_mobile : String → String
mask_mobile full = join_text (take_text 3 full ∷ "****" ∷ last_text 4 full ∷ [])

abbrev pub find_mobile : Finditer → String → List PiiFinding
find_mobile finditer s = map (finding_at "mobile_cn" "high" 1 mask_mobile) (finditer cn_mobile s)

abbrev pub find_cn_id : Finditer → String → List PiiFinding
find_cn_id finditer s = map (finding_at "id_cn" "high" 1 (mask 3 2)) (finditer cn_id s)

-- the findings of the matches whose first group `skip` does not hold of
abbrev pub found_unless : (String → Bool) → (Match → PiiFinding) → List Match → List PiiFinding
found_unless skip f [] = []
found_unless skip f (m ∷ ms) =
    let rest = found_unless skip f ms in if skip (m.group 1) then rest else f m ∷ rest

abbrev pub find_bank_card : Finditer → String → List PiiFinding
find_bank_card finditer s =
    found_unless (λ full. starts_with full "1" && eqb (text_length full) 18)
      (finding_at "bank_card" "high" 1 (mask 4 4)) (finditer bank_card s)

abbrev pub is_ordinary : String → Bool
is_ordinary full =
    starts_with full "http"
    || starts_with full "select"
    || starts_with full "insert"
    || starts_with full "delete"
    || starts_with full "update"

abbrev pub find_token_like : Finditer → (String → String) → String → List PiiFinding
find_token_like finditer lower s =
    map (finding_at "api_key" "high" 1 mask_secret) (finditer sk_key s)
    ++ map (finding_at "bearer_token" "high" 1 mask_secret) (finditer bearer s)
    ++ found_unless (λ full. is_ordinary (lower full))
        (finding_at "secret_like" "medium" 1 mask_secret) (finditer long_secret s)

-- `sort` by `(start, end)`, which is stable
abbrev pub comes_first : PiiFinding → PiiFinding → Bool
comes_first f g = ltb f.start g.start || (eqb f.start g.start && leb f.stop g.stop)

unfoldable pub insert_sorted : PiiFinding → List PiiFinding → List PiiFinding
insert_sorted f [] = f ∷ []
insert_sorted f (g ∷ gs) =
    let rest = insert_sorted f gs in if comes_first f g then f ∷ g ∷ gs else g ∷ rest

unfoldable pub sort_findings : List PiiFinding → List PiiFinding
unfolding insert_sorted
sort_findings [] = []
sort_findings (f ∷ fs) = insert_sorted f (sort_findings fs)

abbrev pub all_findings : Finditer → (String → String) → String → List PiiFinding
all_findings finditer lower s =
    find_email finditer s
    ++ find_mobile finditer s
    ++ find_cn_id finditer s
    ++ find_bank_card finditer s
    ++ find_token_like finditer lower s

unfoldable pub detect : Finditer → (String → String) → String → List PiiFinding
unfolding sort_findings
detect finditer lower s = if s == "" then [] else sort_findings (all_findings finditer lower s)

-- `_dedup_overlap`; `last_end` starts below every position, as 0 does
unfoldable pub dedup_overlap : ℕ → List PiiFinding → List PiiFinding
dedup_overlap last_end [] = []
dedup_overlap last_end (f ∷ fs) =
    let skipped = dedup_overlap last_end fs in
    let kept = dedup_overlap f.stop fs in if ltb f.start last_end then skipped else f ∷ kept

-- the loop of `redact` over the findings, and what follows the last of them
abbrev pub pieces : String → ℕ → List PiiFinding → List String
pieces s cursor [] = if ltb cursor (text_length s) then drop_text cursor s ∷ [] else []
pieces s cursor (f ∷ fs) =
    (if ltb cursor f.start then take_text (f.start - cursor) (drop_text cursor s) ∷ [] else [])
    ++ f.masked_value ∷ pieces s f.stop fs

abbrev pub redacted : String → List PiiFinding → String × List PiiFinding
redacted s [] = (s, [])
redacted s (f ∷ fs) =
    let filtered = dedup_overlap 0 (f ∷ fs) in (join_text (pieces s 0 filtered), filtered)

unfoldable pub redact : Finditer → (String → String) → String → String × List PiiFinding
unfolding detect dedup_overlap
redact finditer lower s = redacted s (detect finditer lower s)
