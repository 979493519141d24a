-- ===== src/SqlGuard/Boundaries.antt =====
-- What the search for a keyword finds in a text that is cut or continued at a character that is no
-- word character (the patterns of app/agent/nl2sql/sql_guard.py).
use project_b_multi_agent.Prelude.{
  Bool, Bool-cases, List, [], ap, arith, both_true, eqb, false, if_no, if_yes, inl, inr, none, not,
  refl, sym, true, ℕ, ◌&&◌, ◌++◌, ◌∙◌, ◌∷◌, ◌≡◌,
}
use project_b_multi_agent.SqlGuard.{
  Unicode, after_prefix, ends_word, has_word, is_word, starts_outside,
}
use project_b_multi_agent.SqlGuard.Words.{or_false, or_neither}

unfoldable pub all_word : Unicode → List ℕ → Bool
all_word u [] = true
all_word u (c ∷ cs) = is_word u c && all_word u cs

pub not-false : (b : Bool) → not b ≡ true → b ≡ false
not-false true h = cc
not-false false h = refl

pub append-starts_outside :
    (u : Unicode) (xs ys : List ℕ)
    → starts_outside u ys ≡ true
    → starts_outside u (xs ++ ys) ≡ starts_outside u xs
append-starts_outside u [] ys h = h
append-starts_outside u (x ∷ xs) ys h = refl

-- a word character is not the first one of a text that starts outside a word
word-not_first :
    (u : Unicode) (p y : ℕ) → is_word u p ≡ true → is_word u y ≡ false → eqb p y ≡ false
word-not_first u p y h k = elim (Bool-cases (eqb p y)) [
  | inl e ↦ (let same : p ≡ y = ground (arith, e) in cc (sym h ∙ ap (is_word u) same ∙ k))
  | inr e ↦ e
]

after_prefix-outside :
    (u : Unicode) (p : ℕ) (ps ys : List ℕ)
    → is_word u p ≡ true
    → starts_outside u ys ≡ true
    → after_prefix (p ∷ ps) ys ≡ none
unfolding after_prefix
after_prefix-outside u p ps [] h k = refl
after_prefix-outside u p ps (y ∷ ys) h k = if_no _ _ _ (word-not_first u p y h (not-false _ k))

ends_word-append :
    (u : Unicode) (kw xs ys : List ℕ)
    → all_word u kw ≡ true
    → starts_outside u ys ≡ true
    → ends_word u (after_prefix kw (xs ++ ys)) ≡ ends_word u (after_prefix kw xs)
unfolding all_word after_prefix
ends_word-append u [] xs ys h k = append-starts_outside u xs ys k
ends_word-append u (p ∷ ps) [] ys h k =
    ap (ends_word u) (after_prefix-outside u p ps ys (both_true _ _ h).0 k)
ends_word-append u (p ∷ ps) (x ∷ xs) ys h k = elim (Bool-cases (eqb p x)) [
  | inl e ↦
      ap (ends_word u) (if_yes _ _ _ e)
      ∙ ends_word-append u ps xs ys (both_true _ _ h).1 k
      ∙ sym (ap (ends_word u) (if_yes _ _ _ e))
  | inr e ↦ ap (ends_word u) (if_no _ _ _ e) ∙ sym (ap (ends_word u) (if_no _ _ _ e))
]

-- a keyword that is not in a text is not in the part before a boundary
pub has_word-cut :
    (u : Unicode) (kw : List ℕ) (inside : Bool) (xs ys : List ℕ)
    → all_word u kw ≡ true
    → starts_outside u ys ≡ true
    → has_word u kw inside (xs ++ ys) ≡ false
    → has_word u kw inside xs ≡ false
unfolding has_word
has_word-cut u kw inside [] ys h k e = refl
has_word-cut u kw inside (x ∷ xs) ys h k e =
    let parts = or_false _ _ e in
    or_neither _ _
      (ap (λ b. not inside && b) (sym (ends_word-append u kw (x ∷ xs) ys h k)) ∙ parts.0)
      (has_word-cut u kw (is_word u x) xs ys h k parts.1)

-- nor, when the part after the boundary has none, in the whole
pub has_word-continued :
    (u : Unicode) (kw : List ℕ) (inside : Bool) (xs ys : List ℕ)
    → all_word u kw ≡ true
    → starts_outside u ys ≡ true
    → has_word u kw inside xs ≡ false
    → ((before : Bool) → has_word u kw before ys ≡ false)
    → has_word u kw inside (xs ++ ys) ≡ false
unfolding has_word
has_word-continued u kw inside [] ys h k e none_after = none_after inside
has_word-continued u kw inside (x ∷ xs) ys h k e none_after =
    let parts = or_false _ _ e in
    or_neither _ _ (ap (λ b. not inside && b) (ends_word-append u kw (x ∷ xs) ys h k) ∙ parts.0)
      (has_word-continued u kw (is_word u x) xs ys h k parts.1 none_after)
