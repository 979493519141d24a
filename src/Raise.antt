-- ===== src/Raise.antt =====
-- Code that changes a state and may raise: an exception keeps what was written before it.
use project_b_multi_agent.Pipeline.{run}
use project_b_multi_agent.Prelude.{String}

-- how such code ends
pub data Attempt (A : Type 0) : Type 0 where
  done : A → Attempt A
  failed_with : String → Attempt A

abbrev pub Action : Type 0 → Type 0 → Type 0
Action S A = S → Attempt A × S

module _ {S : Type 0} where
  abbrev pub and_then : {A B : Type 0} → Attempt A × S → (A → Action S B) → Attempt B × S
  and_then (done a, m) f = f a m
  and_then (failed_with e, m) f = (failed_with e, m)

  infixl 5 ◌>>=◌ ◌>>◌
  abbrev pub ◌>>=◌ : {A B : Type 0} → Action S A → (A → Action S B) → Action S B
  ◌>>=◌ run f m = and_then (run m) f

  abbrev pub ◌>>◌ : {B : Type 0} → Action S (Unit {0}) → Action S B → Action S B
  run >> rest = run >>= λ _. rest

  abbrev pub give : {A : Type 0} → A → Action S A
  give a m = (done a, m)

  abbrev pub throw : {A : Type 0} → String → Action S A
  throw e m = (failed_with e, m)

  -- `except Exception as exc`
  abbrev pub recover : {A : Type 0} → Attempt A × S → (String → Action S A) → Attempt A × S
  recover (done a, m) handler = (done a, m)
  recover (failed_with e, m) handler = handler e m
