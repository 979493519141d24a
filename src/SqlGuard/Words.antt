-- ===== src/SqlGuard/Words.antt =====
-- Texts with and without semicolons, and what stripping leaves (app/agent/nl2sql/sql_guard.py).
use Prim.Native.Char.{Char, code}
use project_b_multi_agent.Prelude.{
  Bool, Bool-cases, String, and_true, ap, arith, both_true, eq_iff, eqb, false, if_no, if_yes,
  if◌then◌else◌, inl, inr, or_right, refl, sym, true, ◌&&◌, ◌==◌, ◌||◌, ◌∙◌, ◌≡◌, ◌⊎◌,
}
use project_b_multi_agent.PyText.{contains, is_space, rstrip, starts_with}
use project_b_multi_agent.SqlGuard.{rstrip_semicolons}

abbrev pub is_semicolon : Char → Bool
is_semicolon c = eqb (code c) b';'

-- nothing but semicolons and white space
unfoldable pub only_tail : String → Bool
only_tail String.[] = true
only_tail (String.◌∷◌ c s) = (is_semicolon c || is_space (code c)) && only_tail s

-- After the first semicolon of the text nothing follows but semicolons and white space.
unfoldable pub is_one_statement : String → Bool
unfolding only_tail
is_one_statement String.[] = true
is_one_statement (String.◌∷◌ c s) =
    let rest = is_one_statement s in if is_semicolon c then only_tail s else rest

unfoldable pub has_semicolon : String → Bool
has_semicolon String.[] = false
has_semicolon (String.◌∷◌ c s) = is_semicolon c || has_semicolon s

pub has_semicolon-cons :
    (c : Char) (s : String) → has_semicolon (String.◌∷◌ c s) ≡ (is_semicolon c || has_semicolon s)
unfolding has_semicolon
has_semicolon-cons c s = refl

pub contains_semicolon : (s : String) → contains s ";" ≡ has_semicolon s
unfolding contains starts_with has_semicolon
contains_semicolon String.[] = refl
contains_semicolon (String.◌∷◌ c s) = ground (arith, contains_semicolon s)

cons-ne-empty : (c : Char) (s : String) → (String.◌∷◌ c s == "") ≡ false
cons-ne-empty c s = elim (Bool-cases (String.◌∷◌ c s == "")) [
  | inl e ↦ cc ((eq_iff (String.◌∷◌ c s) "").0 e)
  | inr e ↦ e
]

pub only_tail-one_statement : (s : String) → only_tail s ≡ true → is_one_statement s ≡ true
unfolding only_tail is_one_statement
only_tail-one_statement String.[] h = refl
only_tail-one_statement (String.◌∷◌ c s) h = ground (arith, only_tail-one_statement s)

-- a character before a text that is taken off when it is the last one and `b` holds of it
abbrev pub trim : Bool → Char → String → String
trim b c rest = if rest == "" && b then "" else String.◌∷◌ c rest

pub trim-cases :
    (b : Bool) (c : Char) (rest : String)
    → ((trim b c rest ≡ "") × (rest ≡ "") × (b ≡ true)) ⊎ (trim b c rest ≡ String.◌∷◌ c rest)
trim-cases b c rest = elim (Bool-cases (rest == "" && b)) [
  | inl e ↦
      (let both = both_true (rest == "") b e in
        inl (if_yes _ _ _ e, (eq_iff rest "").0 both.0, both.1))
  | inr e ↦ inr (if_no _ _ _ e)
]

pub trim-empty :
    (b : Bool) (c : Char) (rest : String) → trim b c rest ≡ "" → (rest ≡ "") × (b ≡ true)
trim-empty b c rest h = elim (trim-cases b c rest) [
  | inl e ↦ (e.1, e.2)
  | inr e ↦ ground (arith, cons-ne-empty c rest, (eq_iff (String.◌∷◌ c rest) "").1 (sym e ∙ h))
]

pub rstrip-cons :
    (c : Char) (s : String) → rstrip (String.◌∷◌ c s) ≡ trim (is_space (code c)) c (rstrip s)
unfolding rstrip
rstrip-cons c s = refl

pub rstrip_semicolons-cons :
    (c : Char) (s : String)
    → rstrip_semicolons (String.◌∷◌ c s) ≡ trim (is_semicolon c) c (rstrip_semicolons s)
unfolding rstrip_semicolons
rstrip_semicolons-cons c s = refl

pub or_false : (a b : Bool) → (a || b) ≡ false → (a ≡ false) × (b ≡ false)
or_false true b h = cc
or_false false b h = (refl, h)

pub or_neither : (a b : Bool) → a ≡ false → b ≡ false → (a || b) ≡ false
or_neither true b h k = cc
or_neither false b h k = k

or_left : (a b : Bool) → a ≡ true → (a || b) ≡ true
or_left true b h = refl
or_left false b h = cc

pub rstrip_empty : (s : String) → rstrip s ≡ "" → only_tail s ≡ true
unfolding only_tail
rstrip_empty String.[] h = refl
rstrip_empty (String.◌∷◌ c s) h =
    let parts = trim-empty (is_space (code c)) c (rstrip s) (sym (rstrip-cons c s) ∙ h) in
    and_true (or_right (is_semicolon c) _ parts.1) (rstrip_empty s parts.0)

-- nothing is left of a text of semicolons before white space
pub stripped_empty : (s : String) → rstrip_semicolons (rstrip s) ≡ "" → only_tail s ≡ true
unfolding only_tail
stripped_empty String.[] h = refl
stripped_empty (String.◌∷◌ c s) h = elim (trim-cases (is_space (code c)) c (rstrip s)) [
  | inl e ↦ and_true (or_right (is_semicolon c) _ e.2) (rstrip_empty s e.1)
  | inr e ↦
      (let kept = ap rstrip_semicolons (rstrip-cons c s ∙ e) in
        let parts =
          trim-empty (is_semicolon c) c (rstrip_semicolons (rstrip s))
            (sym (rstrip_semicolons-cons c (rstrip s)) ∙ sym kept ∙ h) in
        and_true (or_left (is_semicolon c) _ parts.1) (stripped_empty s parts.0))
]
