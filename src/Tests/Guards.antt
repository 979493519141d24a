-- ===== src/Tests/Guards.antt =====
-- The theorems on the rate limiter and on roles, at small data.
use project_b_multi_agent.Access.{denied, granted, require_permission, token_user}
use project_b_multi_agent.Access.Decides.{decides_lem}
use project_b_multi_agent.Gateway.{dict_get, dict_put}
use project_b_multi_agent.Prelude.{
  List, String, [], false, if◌then◌else◌, mem_text, refl, true, ℕ, ◌||◌, ◌∷◌, ◌≡◌,
}
use project_b_multi_agent.RequestGuards.{Limits, allow, recent}
use project_b_multi_agent.RequestGuards.Window.{IsBounded, admitted_log, admitted_log-IsBounded}

abbrev two_per_minute : Limits
two_per_minute = record { max_requests = 1; burst = 1; window_seconds = 60 }

abbrev arrivals : List (String × ℕ)
arrivals = ("a", 10) ∷ ("a", 20) ∷ ("b", 20) ∷ ("a", 30) ∷ ("a", 90) ∷ []

admitted_log-IsBounded_example :
    IsBounded two_per_minute (admitted_log two_per_minute "a" arrivals [] [])
admitted_log-IsBounded_example = admitted_log-IsBounded two_per_minute "a" arrivals refl

-- the third request of "a" is over the limit, and the fourth is not
admitted_of_a : admitted_log two_per_minute "a" arrivals [] [] ≡ 90 ∷ 20 ∷ 10 ∷ []
unfolding admitted_log allow recent dict_get dict_put
admitted_of_a = refl

-- a client that is told at 30 to wait for 40 seconds, and does, is refused again
waits_too_short :
    ((allow two_per_minute "a" 30 (("a", 10 ∷ 20 ∷ []) ∷ [])).2 ≡ 40)
    × ((allow two_per_minute "a" 70 (("a", 10 ∷ 20 ∷ []) ∷ [])).1 ≡ false)
unfolding allow recent dict_get dict_put
waits_too_short = (refl, refl)

decides_lem_example :
    require_permission true "approvals:decide" (token_user ("auditor" ∷ "operator" ∷ [])) ≡ (
      if mem_text "admin" ("auditor" ∷ "operator" ∷ [])
        || mem_text "operator" ("auditor" ∷ "operator" ∷ [])
      then granted (token_user ("auditor" ∷ "operator" ∷ []))
      else denied 403)
decides_lem_example = decides_lem ("auditor" ∷ "operator" ∷ [])
