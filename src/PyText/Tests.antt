-- ===== src/PyText/Tests.antt =====
-- Runs of the text operations.
use project_b_multi_agent.Prelude.{[], refl, true, ◌∷◌, ◌≡◌}
use project_b_multi_agent.PyText.{contains, split, strip}

strip_spaces : strip "  a b " ≡ "a b"
unfolding strip
strip_spaces = refl

split_csv : split b',' "a, b" ≡ "a" ∷ " b" ∷ []
unfolding split
split_csv = refl

contains_middle : contains "今天GMV多少" "GMV" ≡ true
unfolding contains
contains_middle = refl
