-- ===== src/SqlGuard/Keywords.antt =====
-- The blocked keywords of SQLGuard in the text that it returns (app/agent/nl2sql/sql_guard.py).
use Prim.Native.Char.{Char, code}
use Prim.Native.String.{◌++◌ as text_append}
use package.text.Mathlib.TextLemmas.{cons-append, nil-append}
use project_b_multi_agent.Prelude.{
  Bool, Bool-cases, List, String, [], ap, arith, both_true, false, if_no, if_yes, inl, inr, none,
  not, refl, subst, sym, true, ℕ, ◌&&◌, ◌++◌, ◌∙◌, ◌∷◌, ◌≡◌,
}
use project_b_multi_agent.PyText.{is_space, rstrip}
use project_b_multi_agent.SqlGuard.{
  Unicode, blocked_keywords, codes, first_blocked, has_word, is_word, rstrip_semicolons,
  starts_outside, upper, upper_char,
}
use project_b_multi_agent.SqlGuard.Boundaries.{
  all_word, has_word-continued, has_word-cut, not-false,
}
use project_b_multi_agent.SqlGuard.Words.{is_semicolon, trim, trim-cases}

append_assoc : (xs ys zs : List ℕ) → (xs ++ ys) ++ zs ≡ xs ++ (ys ++ zs)
append_assoc [] ys zs = refl
append_assoc (x ∷ xs) ys zs = ap (◌∷◌ x) (append_assoc xs ys zs)

pub codes-append : (s t : String) → codes (text_append s t) ≡ codes s ++ codes t
codes-append String.[] t = ap codes (nil-append t)
codes-append (String.◌∷◌ c s) t =
    ap codes (cons-append c s t) ∙ ap (◌∷◌ (code c)) (codes-append s t)

pub upper-append : (u : Unicode) (xs ys : List ℕ) → upper u (xs ++ ys) ≡ upper u xs ++ upper u ys
upper-append u [] ys = refl
upper-append u (x ∷ xs) ys =
    ap (λ zs. upper_char u x ++ zs) (upper-append u xs ys)
    ∙ sym (append_assoc (upper_char u x) (upper u xs) (upper u ys))

-- the keywords are words, and the text has none of them whatever character precedes it
unfoldable pub all_words : Unicode → List String → Bool
unfolding all_word
all_words u [] = true
all_words u (kw ∷ kws) = all_word u (codes kw) && all_words u kws

unfoldable pub is_quiet : Unicode → List String → List ℕ → Bool
unfolding has_word
is_quiet u [] ys = true
is_quiet u (kw ∷ kws) ys =
    not (has_word u (codes kw) true ys)
    && (not (has_word u (codes kw) false ys) && is_quiet u kws ys)

first_blocked-none :
    (u : Unicode) (kw : String) (kws : List String) (xs : List ℕ)
    → first_blocked u (kw ∷ kws) xs ≡ none
    → (has_word u (codes kw) false xs ≡ false) × (first_blocked u kws xs ≡ none)
unfolding first_blocked
first_blocked-none u kw kws xs h = elim (Bool-cases (has_word u (codes kw) false xs)) [
  | inl e ↦ cc (sym (if_yes _ _ _ e) ∙ h)
  | inr e ↦ (e, sym (if_no _ _ _ e) ∙ h)
]

pub first_blocked-cut :
    (u : Unicode) (kws : List String) (xs ys : List ℕ)
    → all_words u kws ≡ true
    → starts_outside u ys ≡ true
    → first_blocked u kws (xs ++ ys) ≡ none
    → first_blocked u kws xs ≡ none
unfolding first_blocked all_words
first_blocked-cut u [] xs ys w k h = refl
first_blocked-cut u (kw ∷ kws) xs ys w k h =
    let parts = first_blocked-none u kw kws (xs ++ ys) h in
    if_no _ _ _ (has_word-cut u (codes kw) false xs ys (both_true _ _ w).0 k parts.0)
    ∙ first_blocked-cut u kws xs ys (both_true _ _ w).1 k parts.1

not_inside :
    (f : Bool → Bool) → not (f true) ≡ true → not (f false) ≡ true → (b : Bool) → f b ≡ false
not_inside f h k true = not-false _ h
not_inside f h k false = not-false _ k

pub first_blocked-continued :
    (u : Unicode) (kws : List String) (xs ys : List ℕ)
    → all_words u kws ≡ true
    → is_quiet u kws ys ≡ true
    → starts_outside u ys ≡ true
    → first_blocked u kws xs ≡ none
    → first_blocked u kws (xs ++ ys) ≡ none
unfolding first_blocked all_words is_quiet
first_blocked-continued u [] xs ys w q k h = refl
first_blocked-continued u (kw ∷ kws) xs ys w q k h =
    let parts = first_blocked-none u kw kws xs h in
    let (quiet, more) = both_true _ _ q in
    let (quiet_too, rest) = both_true _ _ more in
    if_no _ _ _ (
      has_word-continued u (codes kw) false xs ys (both_true _ _ w).0 k parts.0
        (not_inside (λ b. has_word u (codes kw) b ys) quiet quiet_too))
    ∙ first_blocked-continued u kws xs ys (both_true _ _ w).1 rest k parts.1

pub keywords_all_words : (u : Unicode) → all_words u blocked_keywords ≡ true
unfolding all_words all_word
keywords_all_words u = refl

pub limit_is_quiet :
    (u : Unicode) → is_quiet u blocked_keywords (upper u (codes " LIMIT 100;")) ≡ true
unfolding is_quiet has_word
limit_is_quiet u = refl

-- `s` is `rest` followed by a text that starts outside a word, when both are in upper case
abbrev pub Tail : Unicode → String → String → Type 0
Tail u s rest =
    (ys : List ℕ) × (upper u (codes s) ≡ upper u (codes rest) ++ ys) × (starts_outside u ys ≡ true)

append_nil : (xs : List ℕ) → xs ++ [] ≡ xs
append_nil [] = refl
append_nil (x ∷ xs) = ap (◌∷◌ x) (append_nil xs)

whole-Tail : (u : Unicode) (s : String) → Tail u s s
whole-Tail u s = ([], sym (append_nil _), refl)

cons-Tail :
    (u : Unicode) (c : Char) (s rest : String)
    → Tail u s rest
    → Tail u (String.◌∷◌ c s) (String.◌∷◌ c rest)
cons-Tail u c s rest (ys, same, outside_ys) = (
  ys,
  ap (λ zs. upper_char u (code c) ++ zs) same ∙ sym (append_assoc (upper_char u (code c)) _ ys),
  outside_ys,
)

-- the character stays as it is in upper case and is no word character
abbrev pub IsOutside : Unicode → ℕ → Type 0
IsOutside u c = (upper_char u c ≡ c ∷ []) × (is_word u c ≡ false)

trim-Tail :
    (u : Unicode) (b : Bool) (c : Char) (s rest : String)
    → (b ≡ true → IsOutside u (code c))
    → Tail u s rest
    → Tail u (String.◌∷◌ c s) (trim b c rest)
trim-Tail u b c s rest h tail = elim (trim-cases b c rest) [
  | inl e ↦
      (let (same, is_outside) = h e.2 in
        let whole = ap (λ zs. zs ++ upper u (codes s)) same in
        subst (Tail u (String.◌∷◌ c s)) (sym e.0)
          (code c ∷ upper u (codes s), whole, ap not is_outside))
  | inr e ↦ subst (Tail u (String.◌∷◌ c s)) (sym e) (cons-Tail u c s rest tail)
]

semicolon-IsOutside : (u : Unicode) (c : Char) → is_semicolon c ≡ true → IsOutside u (code c)
semicolon-IsOutside u c h =
    let same : code c ≡ 59 = ground (arith, h) in subst (IsOutside u) (sym same) (refl, refl)

pub rstrip_semicolons-Tail : (u : Unicode) (s : String) → Tail u s (rstrip_semicolons s)
unfolding rstrip_semicolons
rstrip_semicolons-Tail u String.[] = whole-Tail u ""
rstrip_semicolons-Tail u (String.◌∷◌ c s) =
    trim-Tail u (is_semicolon c) c s (rstrip_semicolons s) (semicolon-IsOutside u c)
      (rstrip_semicolons-Tail u s)

pub rstrip-Tail :
    (u : Unicode)
    → ((c : ℕ) → is_space c ≡ true → IsOutside u c)
    → (s : String) → Tail u s (rstrip s)
unfolding rstrip
rstrip-Tail u spaces String.[] = whole-Tail u ""
rstrip-Tail u spaces (String.◌∷◌ c s) =
    trim-Tail u (is_space (code c)) c s (rstrip s) (spaces (code c)) (rstrip-Tail u spaces s)
