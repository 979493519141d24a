-- ===== src/Pii/Overlap.antt =====
-- What `_dedup_overlap` of app/harness/security/pii_guard.py keeps of the findings.
use project_b_multi_agent.Pii.{
  Finditer, PiiFinding, all_findings, dedup_overlap, detect, insert_sorted, redact, redacted,
  sort_findings,
}
use project_b_multi_agent.Prelude.{
  Bool, List, String, [], ap, arith, eqb, false, if_both, leb, ltb, refl, true, ℕ, ◌&&◌, ◌==◌, ◌||◌,
  ◌∙◌, ◌∷◌, ◌≡◌,
}

unfoldable pub all_from : ℕ → List PiiFinding → Bool
all_from lo [] = true
all_from lo (g ∷ gs) = leb lo g.start && all_from lo gs

unfoldable is_sorted : List PiiFinding → Bool
unfolding all_from
is_sorted [] = true
is_sorted (f ∷ fs) = all_from f.start fs && is_sorted fs

all_from-lower :
    (lo hi : ℕ) (gs : List PiiFinding)
    → leb lo hi ≡ true
    → all_from hi gs ≡ true
    → all_from lo gs ≡ true
unfolding all_from
all_from-lower lo hi [] h k = refl
all_from-lower lo hi (g ∷ gs) h k = ground (arith, all_from-lower lo hi gs)

all_from-insert_sorted :
    (lo : ℕ) (f : PiiFinding) (gs : List PiiFinding)
    → leb lo f.start ≡ true
    → all_from lo gs ≡ true
    → all_from lo (insert_sorted f gs) ≡ true
unfolding all_from insert_sorted
all_from-insert_sorted lo f [] h k = ground arith
all_from-insert_sorted lo f (g ∷ gs) h k = ground (arith, all_from-insert_sorted lo f gs)

insert_sorted-is_sorted :
    (f : PiiFinding) (gs : List PiiFinding)
    → is_sorted gs ≡ true
    → is_sorted (insert_sorted f gs) ≡ true
unfolding is_sorted all_from insert_sorted
insert_sorted-is_sorted f [] h = refl
insert_sorted-is_sorted f (g ∷ gs) h = ground (
  arith,
  insert_sorted-is_sorted f gs,
  all_from-lower f.start g.start gs,
  all_from-insert_sorted g.start f gs,
)

sort_findings-is_sorted : (fs : List PiiFinding) → is_sorted (sort_findings fs) ≡ true
unfolding is_sorted sort_findings
sort_findings-is_sorted [] = refl
sort_findings-is_sorted (f ∷ fs) =
    insert_sorted-is_sorted f (sort_findings fs) (sort_findings-is_sorted fs)

-- the finding `g` is `k` or starts inside it
abbrev pub covers : PiiFinding → PiiFinding → Bool
covers k g = leb k.start g.start && (ltb g.start k.stop || eqb g.start k.start)

unfoldable pub any_covers : List PiiFinding → PiiFinding → Bool
any_covers [] g = false
any_covers (k ∷ ks) g = covers k g || any_covers ks g

-- every finding starts before `last_end` or is covered by one of `ks`
unfoldable pub all_covered : ℕ → List PiiFinding → List PiiFinding → Bool
unfolding any_covers
all_covered last_end ks [] = true
all_covered last_end ks (g ∷ gs) =
    (ltb g.start last_end || any_covers ks g) && all_covered last_end ks gs

-- no finding starts before the end of the one before it
unfoldable pub are_apart : ℕ → List PiiFinding → Bool
are_apart last_end [] = true
are_apart last_end (f ∷ fs) = leb last_end f.start && are_apart f.stop fs

pub dedup_overlap-are_apart :
    (last_end : ℕ) (fs : List PiiFinding) → are_apart last_end (dedup_overlap last_end fs) ≡ true
unfolding are_apart dedup_overlap
dedup_overlap-are_apart last_end [] = refl
dedup_overlap-are_apart last_end (f ∷ fs) =
    ground (arith, dedup_overlap-are_apart last_end fs, dedup_overlap-are_apart f.stop fs)

all_covered-cons :
    (last_end : ℕ) (f : PiiFinding) (ks gs : List PiiFinding)
    → all_from f.start gs ≡ true
    → all_covered f.stop ks gs ≡ true
    → all_covered last_end (f ∷ ks) gs ≡ true
unfolding all_from all_covered any_covers
all_covered-cons last_end f ks [] h k = refl
all_covered-cons last_end f ks (g ∷ gs) h k = ground (arith, all_covered-cons last_end f ks gs)

dedup_overlap-all_covered :
    (last_end : ℕ) (fs : List PiiFinding)
    → is_sorted fs ≡ true
    → all_covered last_end (dedup_overlap last_end fs) fs ≡ true
unfolding is_sorted all_covered dedup_overlap any_covers
dedup_overlap-all_covered last_end [] h = refl
dedup_overlap-all_covered last_end (f ∷ fs) h = ground (
  arith,
  dedup_overlap-all_covered last_end fs,
  dedup_overlap-all_covered f.stop fs,
  all_covered-cons last_end f (dedup_overlap f.stop fs) fs,
)

pub redacted-filtered : (s : String) (fs : List PiiFinding) → (redacted s fs).1 ≡ dedup_overlap 0 fs
unfolding dedup_overlap
redacted-filtered s [] = refl
redacted-filtered s (f ∷ fs) = refl

detect-is_sorted :
    (finditer : Finditer) (lower : String → String) (s : String)
    → is_sorted (detect finditer lower s) ≡ true
unfolding detect is_sorted
detect-is_sorted finditer lower s =
    if_both (λ fs. is_sorted fs ≡ true) (s == "") refl
      (sort_findings-is_sorted (all_findings finditer lower s))

-- Of the findings that `detect` returns, `redact` masks some that do not overlap, and every other one
-- starts inside one that is masked, whatever the patterns match.
pub redact-all_covered :
    (finditer : Finditer) (lower : String → String) (s : String)
    → (are_apart 0 (redact finditer lower s).1 ≡ true)
      × (all_covered 0 (redact finditer lower s).1 (detect finditer lower s) ≡ true)
unfolding redact
redact-all_covered finditer lower s =
    let findings = detect finditer lower s in
    let filtered = redacted-filtered s findings in
    (
      ap (are_apart 0) filtered ∙ dedup_overlap-are_apart 0 findings,
      ap (λ ks. all_covered 0 ks findings) filtered
          ∙ dedup_overlap-all_covered 0 findings (detect-is_sorted finditer lower s),
    )
