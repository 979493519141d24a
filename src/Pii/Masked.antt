-- ===== src/Pii/Masked.antt =====
-- The text that `redact` of app/harness/security/pii_guard.py returns.
use Prim.Native.Char.{Char}
use Prim.Native.String.{◌++◌ as text_append}
use package.text.Mathlib.TextLemmas.{append-nil, cons-append, nil-append}
use project_b_multi_agent.Json.{join_text}
use project_b_multi_agent.Memory.{take_text}
use project_b_multi_agent.MultiAgent.Coordinator.{drop_text}
use project_b_multi_agent.Pii.{
  Finditer, Match, Pattern, PiiFinding, all_findings, bank_card, bearer, cn_id, cn_mobile,
  comes_first, dedup_overlap, detect, email, find_bank_card, find_cn_id, find_email, find_mobile,
  find_token_like, finding_at, found_unless, insert_sorted, is_ordinary, long_secret, mask,
  mask_secret, pieces, redact, redacted, sk_key, sort_findings, text_length,
}
use project_b_multi_agent.Pii.Overlap.{
  all_covered, are_apart, dedup_overlap-are_apart, redact-all_covered, redacted-filtered,
}
use project_b_multi_agent.Prelude.{
  All, Bool, List, String, [], ap, arith, both_true, eqb, if_both, if_split, leb, ltb, map, refl,
  subst, suc, sym, true, zero, ℕ, ◌&&◌, ◌++◌, ◌+◌, ◌-◌, ◌<◌, ◌==◌, ◌∙◌, ◌∷◌, ◌≡◌, ◌≤◌,
}
use project_b_multi_agent.PyText.{starts_with}

-- `Masked i t ks out`: where `t` stands at position `i`, `out` is `t` with each of the findings `ks`
-- replaced by its masked value and everything else as it is
pub data Masked : ℕ → String → List PiiFinding → String → Type 0 where
  at_end : (i : ℕ) (t : String) → Masked i t [] t
  same_char :
      (i : ℕ) (c : Char) (t : String) (k : PiiFinding) (ks : List PiiFinding) (out : String)
      → i < k.start
      → Masked (i + 1) t (k ∷ ks) out
      → Masked i (String.◌∷◌ c t) (k ∷ ks) (String.◌∷◌ c out)
  masked_here :
      (t : String) (k : PiiFinding) (ks : List PiiFinding) (out : String)
      → Masked k.stop (drop_text (k.stop - k.start) t) ks out
      → Masked k.start t (k ∷ ks) (text_append k.masked_value out)

-- the finding stands in the text
abbrev pub IsWithin : String → PiiFinding → Type 0
IsWithin s f = (f.start ≤ f.stop) × (f.stop ≤ text_length s)

drop_text-empty : (n : ℕ) → drop_text n "" ≡ ""
drop_text-empty zero = refl
drop_text-empty (suc n) = refl

drop_text-drop_text : (n m : ℕ) (s : String) → drop_text n (drop_text m s) ≡ drop_text (m + n) s
drop_text-drop_text n zero s = ap (λ j. drop_text j s) (omega arith)
drop_text-drop_text n (suc m) String.[] = drop_text-empty n ∙ sym (drop_text-empty (suc m + n))
drop_text-drop_text n (suc m) (String.◌∷◌ c s) =
    let next : suc m + n ≡ suc (m + n) = omega arith in
    drop_text-drop_text n m s ∙ sym (ap (λ j. drop_text j (String.◌∷◌ c s)) next)

text_length-drop_text :
    (n : ℕ) (s : String) → n ≤ text_length s → text_length (drop_text n s) + n ≡ text_length s
text_length-drop_text zero s h = omega arith
text_length-drop_text (suc n) String.[] h = omega arith
text_length-drop_text (suc n) (String.◌∷◌ c s) h =
    let rest = text_length-drop_text n s (omega arith) in omega arith

drop_text-all : (n : ℕ) (s : String) → text_length s ≤ n → drop_text n s ≡ ""
drop_text-all zero String.[] h = refl
drop_text-all zero (String.◌∷◌ c s) h = (let no : ⊥ = omega arith in absurd no)
drop_text-all (suc n) String.[] h = refl
drop_text-all (suc n) (String.◌∷◌ c s) h = drop_text-all n s (omega arith)

copied :
    (n i : ℕ) (t : String) (k : PiiFinding) (ks : List PiiFinding) (out : String)
    → i + n ≡ k.start
    → n ≤ text_length t
    → Masked k.start (drop_text n t) (k ∷ ks) out
    → Masked i t (k ∷ ks) (text_append (take_text n t) out)
copied zero i t k ks out at_k long m =
    let same : k.start ≡ i = omega arith in
    subst (λ o. Masked i t (k ∷ ks) o) (sym (nil-append out))
      (subst (λ j. Masked j t (k ∷ ks) out) same m)
copied (suc n) i String.[] k ks out at_k long m = (let no : ⊥ = omega arith in absurd no)
copied (suc n) i (String.◌∷◌ c t) k ks out at_k long m =
    subst (λ o. Masked i (String.◌∷◌ c t) (k ∷ ks) o) (sym (cons-append c (take_text n t) out))
      (same_char i c t k ks (text_append (take_text n t) out) (omega arith)
        (copied n (i + 1) t k ks out (omega arith) (omega arith) m))

join-pieces :
    (s : String) (cursor : ℕ) (f : PiiFinding) (fs : List PiiFinding)
    → join_text (pieces s cursor (f ∷ fs))
      ≡ text_append
          (take_text (f.start - cursor) (drop_text cursor s))
          (text_append f.masked_value (join_text (pieces s f.stop fs)))
join-pieces s cursor f fs =
    let rest = f.masked_value ∷ pieces s f.stop fs in
    let gap = take_text (f.start - cursor) (drop_text cursor s) in
    if_split (λ l. join_text (l ++ rest) ≡ text_append gap (join_text rest)) (ltb cursor f.start)
      (λ e. refl)
      (λ e.
        let no_gap : f.start - cursor ≡ 0 = ground (arith, e) in
        sym (
          ap (λ n. text_append (take_text n (drop_text cursor s)) (join_text rest)) no_gap
          ∙ nil-append (join_text rest)))

pieces-Masked :
    (s : String) (cursor : ℕ) (ks : List PiiFinding)
    → cursor ≤ text_length s
    → are_apart cursor ks ≡ true
    → All (IsWithin s) ks
    → Masked cursor (drop_text cursor s) ks (join_text (pieces s cursor ks))
unfolding are_apart
pieces-Masked s cursor [] h apart inside_all =
    let t = drop_text cursor s in
    if_split (λ l. Masked cursor t [] (join_text l)) (ltb cursor (text_length s))
      (λ e. subst (λ o. Masked cursor t [] o) (sym (append-nil t)) (at_end cursor t))
      (λ e.
        subst (λ r. Masked cursor r [] "") (sym (drop_text-all cursor s (ground (arith, e))))
          (at_end cursor ""))
pieces-Masked s cursor (k ∷ ks) h apart ((ordered, inside), inside_all) =
    let parts = both_true (leb cursor k.start) (are_apart k.stop ks) apart in
    let after_out = join_text (pieces s k.stop ks) in
    let out = text_append k.masked_value after_out in
    let gap = k.start - cursor in
    let reached : cursor + gap ≡ k.start = ground (arith, parts.0) in
    let long = text_length-drop_text cursor s h in
    let rest = pieces-Masked s k.stop ks inside parts.1 inside_all in
    let after_gap : drop_text gap (drop_text cursor s) ≡ drop_text k.start s =
      drop_text-drop_text gap cursor s ∙ ap (λ j. drop_text j s) reached in
    let after_k : drop_text (k.stop - k.start) (drop_text k.start s) ≡ drop_text k.stop s =
      drop_text-drop_text (k.stop - k.start) k.start s ∙ ap (λ j. drop_text j s) (omega arith) in
    subst (λ o. Masked cursor (drop_text cursor s) (k ∷ ks) o) (sym (join-pieces s cursor k ks))
      (copied gap cursor (drop_text cursor s) k ks out reached (omega arith) (
        subst (λ t. Masked k.start t (k ∷ ks) out) (sym after_gap)
          (masked_here (drop_text k.start s) k ks after_out
            (subst (λ t. Masked k.stop t ks after_out) (sym after_k) rest))))

-- the list is the other without some of its members
pub data IsPart : List PiiFinding → List PiiFinding → Type 0 where
  nothing : IsPart [] []
  dropped : {f : PiiFinding} {gs fs : List PiiFinding} → IsPart gs fs → IsPart gs (f ∷ fs)
  taken : {f : PiiFinding} {gs fs : List PiiFinding} → IsPart gs fs → IsPart (f ∷ gs) (f ∷ fs)

dedup_overlap-IsPart : (last_end : ℕ) (fs : List PiiFinding) → IsPart (dedup_overlap last_end fs) fs
unfolding dedup_overlap
dedup_overlap-IsPart last_end [] = nothing
dedup_overlap-IsPart last_end (f ∷ fs) =
    if_both (λ gs. IsPart gs (f ∷ fs)) (ltb f.start last_end)
      (dropped (dedup_overlap-IsPart last_end fs)) (taken (dedup_overlap-IsPart f.stop fs))

module _ (P : PiiFinding → Type 0) where
  All-IsPart : (gs fs : List PiiFinding) → IsPart gs fs → All P fs → All P gs
  All-IsPart [] [] nothing h = tt
  All-IsPart (g ∷ gs) [] part h = elim part [ ]
  All-IsPart gs (f ∷ fs) (dropped part) (p, h) = All-IsPart gs fs part h
  All-IsPart (g ∷ gs) (f ∷ fs) (taken part) (p, h) = (p, All-IsPart gs fs part h)

  All-append : (fs gs : List PiiFinding) → All P fs → All P gs → All P (fs ++ gs)
  All-append [] gs h k = k
  All-append (f ∷ fs) gs (p, h) k = (p, All-append fs gs h k)

  All-insert_sorted :
      (f : PiiFinding) (gs : List PiiFinding) → P f → All P gs → All P (insert_sorted f gs)
  unfolding insert_sorted
  All-insert_sorted f [] p h = (p, tt)
  All-insert_sorted f (g ∷ gs) p (q, h) =
      if_both (All P) (comes_first f g) (p, (q, h)) (q, All-insert_sorted f gs p h)

  All-sort_findings : (fs : List PiiFinding) → All P fs → All P (sort_findings fs)
  unfolding sort_findings
  All-sort_findings [] h = tt
  All-sort_findings (f ∷ fs) (p, h) =
      All-insert_sorted f (sort_findings fs) p (All-sort_findings fs h)

  module _ (f : Match → PiiFinding) (Q : Match → Type 0) (sound : (m : Match) → Q m → P (f m)) where
    All-map : (ms : List Match) → All Q ms → All P (map f ms)
    All-map [] h = tt
    All-map (m ∷ ms) (q, h) = (sound m q, All-map ms h)

    All-found_unless :
        (skip : String → Bool) (ms : List Match) → All Q ms → All P (found_unless skip f ms)
    All-found_unless skip [] h = tt
    All-found_unless skip (m ∷ ms) (q, h) =
        if_both (All P) (skip (m.group 1)) (All-found_unless skip ms h)
          (sound m q, All-found_unless skip ms h)

-- every group of the match stands in the text
abbrev pub StandsIn : String → Match → Type 0
StandsIn s m = (i : ℕ) → (m.start_of i ≤ m.stop_of i) × (m.stop_of i ≤ text_length s)

module _ (finditer : Finditer) (lower : String → String) (s : String)
    (stands : (p : Pattern) → All (StandsIn s) (finditer p s)) where
  abbrev W : PiiFinding → Type 0
  W = IsWithin s

  find_token_like-IsWithin : All W (find_token_like finditer lower s)
  find_token_like-IsWithin =
      let api_keys = map (finding_at "api_key" "high" 1 mask_secret) (finditer sk_key s) in
      let bearers = map (finding_at "bearer_token" "high" 1 mask_secret) (finditer bearer s) in
      let secret = finding_at "secret_like" "medium" 1 mask_secret in
      let skip = λ (full : String). is_ordinary (lower full) in
      All-append W (api_keys ++ bearers) (found_unless skip secret (finditer long_secret s))
        (All-append W api_keys bearers
          (All-map W (finding_at "api_key" "high" 1 mask_secret) (StandsIn s) (λ m h. h 1)
            (finditer sk_key s) (stands sk_key))
          (All-map W (finding_at "bearer_token" "high" 1 mask_secret) (StandsIn s) (λ m h. h 1)
            (finditer bearer s) (stands bearer)))
        (All-found_unless W secret (StandsIn s) (λ m h. h 1) skip (finditer long_secret s)
          (stands long_secret))

  find_bank_card-IsWithin : All W (find_bank_card finditer s)
  find_bank_card-IsWithin =
      All-found_unless W (finding_at "bank_card" "high" 1 (mask 4 4)) (StandsIn s) (λ m h. h 1)
        (λ full. starts_with full "1" && eqb (text_length full) 18) (finditer bank_card s)
        (stands bank_card)

  find_email-IsWithin : All W (find_email finditer s)
  find_email-IsWithin = All-map W _ (StandsIn s) (λ m h. h 0) (finditer email s) (stands email)

  find_mobile-IsWithin : All W (find_mobile finditer s)
  find_mobile-IsWithin =
      All-map W _ (StandsIn s) (λ m h. h 1) (finditer cn_mobile s) (stands cn_mobile)

  find_cn_id-IsWithin : All W (find_cn_id finditer s)
  find_cn_id-IsWithin = All-map W _ (StandsIn s) (λ m h. h 1) (finditer cn_id s) (stands cn_id)

  all_findings-IsWithin : All W (all_findings finditer lower s)
  all_findings-IsWithin =
      let a = find_email finditer s in
      let b = find_mobile finditer s in
      let c = find_cn_id finditer s in
      let d = find_bank_card finditer s in
      All-append W (((a ++ b) ++ c) ++ d) (find_token_like finditer lower s)
        (All-append W ((a ++ b) ++ c) d
          (All-append W (a ++ b) c (All-append W a b find_email-IsWithin find_mobile-IsWithin)
            find_cn_id-IsWithin)
          find_bank_card-IsWithin)
        find_token_like-IsWithin

  detect-IsWithin : All W (detect finditer lower s)
  unfolding detect
  detect-IsWithin =
      if_both (All W) (s == "") tt
        (All-sort_findings W (all_findings finditer lower s) all_findings-IsWithin)

  redacted-Masked :
      (fs : List PiiFinding) → All W fs → Masked 0 s (redacted s fs).1 (redacted s fs).0
  unfolding dedup_overlap
  redacted-Masked [] h = at_end 0 s
  redacted-Masked (f ∷ fs) h =
      let kept_findings = dedup_overlap 0 (f ∷ fs) in
      pieces-Masked s 0 kept_findings (omega arith) (dedup_overlap-are_apart 0 (f ∷ fs))
        (All-IsPart W kept_findings (f ∷ fs) (dedup_overlap-IsPart 0 (f ∷ fs)) h)

  -- Where every match stands in the text, `redact` returns the text with some of the findings of
  -- `detect` replaced by their masked values and every other character as it is; and it reports those
  -- findings, which do not overlap. Every other finding of `detect` starts inside one of them.
  pub redact_lem :
      let (out, kept_findings) = redact finditer lower s in
      let findings = detect finditer lower s in
      Masked 0 s kept_findings out
      × IsPart kept_findings findings
      × (are_apart 0 kept_findings ≡ true)
      × (all_covered 0 kept_findings findings ≡ true)
  redact_lem =
      let findings = detect finditer lower s in
      let (apart, covered) = redact-all_covered finditer lower s in
      (
        unfold redact in redacted-Masked findings detect-IsWithin,
        unfold redact in
            subst (λ ks. IsPart ks findings) (sym (redacted-filtered s findings))
              (dedup_overlap-IsPart 0 findings),
        apart,
        covered,
      )
