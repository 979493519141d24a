-- ===== src/Tests/PiiTexts.antt =====
-- The theorem on personal data in a text, where a card number begins a longer secret.
use project_b_multi_agent.Pii.{
  Finditer, Match, Pattern, bank_card, bearer, cn_id, cn_mobile, dedup_overlap, detect, email,
  long_secret, redact, sk_key, sort_findings, stars,
}
use project_b_multi_agent.Pii.Masked.{IsPart, Masked, StandsIn, redact_lem}
use project_b_multi_agent.Pii.Overlap.{all_covered, are_apart}
use project_b_multi_agent.Prelude.{All, String, [], arith, refl, true, ℕ, ◌∷◌, ◌≡◌}
use project_b_multi_agent.PyText.{starts_with}

abbrev match_of : String → ℕ → Match
match_of s stop = record { group = λ i. s; start_of = λ i. 0; stop_of = λ i. stop }

abbrev card_and_secret : Finditer
card_and_secret bank_card s = match_of "1234567890123456" 16 ∷ []
card_and_secret long_secret s = match_of "1234567890123456abcdefgh" 24 ∷ []
card_and_secret _ s = []

-- the secret is dropped, and its end stays in the text
secret_left :
    (redact card_and_secret (λ s. s) "1234567890123456abcdefgh").0 ≡ "1234********3456abcdefgh"
unfolding redact detect sort_findings dedup_overlap stars starts_with
secret_left = refl

abbrev card_text : String
card_text = "1234567890123456abcdefgh"

card_and_secret-StandsIn : (p : Pattern) → All (StandsIn card_text) (card_and_secret p card_text)
card_and_secret-StandsIn email = tt
card_and_secret-StandsIn cn_mobile = tt
card_and_secret-StandsIn cn_id = tt
card_and_secret-StandsIn bank_card = ((λ i. (omega arith, omega arith)), tt)
card_and_secret-StandsIn sk_key = tt
card_and_secret-StandsIn bearer = tt
card_and_secret-StandsIn long_secret = ((λ i. (omega arith, omega arith)), tt)

redact_lem_example :
    let (out, kept_findings) = redact card_and_secret (λ s. s) card_text in
    let findings = detect card_and_secret (λ s. s) card_text in
    Masked 0 card_text kept_findings out
    × IsPart kept_findings findings
    × (are_apart 0 kept_findings ≡ true)
    × (all_covered 0 kept_findings findings ≡ true)
redact_lem_example = redact_lem card_and_secret (λ s. s) card_text card_and_secret-StandsIn
