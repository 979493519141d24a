-- ===== src/RequestGuards.antt =====
-- app/core/request_guards.py: the limits on the size, the rate and the form of requests.
--
-- Times are whole seconds. A request is what the guards read of it: the method in upper case, the
-- path, the client's address, and of the headers only their lengths. Redis is a parameter.
pub mod Window
use project_b_multi_agent.Gateway.{dict_get, dict_put}
use project_b_multi_agent.Json.{join_text}
use project_b_multi_agent.Prelude.{
  Bool, List, Option, String, [], false, if◌then◌else◌, leb, length, ltb, mem_text, none, not, some,
  suc, true, zero, ℕ, ◌++◌, ◌+◌, ◌-◌, ◌==◌, ◌||◌, ◌∷◌,
}

-- the times of the admitted requests, by key, oldest first
abbrev pub Hits : Type 0
Hits = List (String × List ℕ)

pub record Limits : Type 0 where
  pub max_requests : ℕ
  pub burst : ℕ
  pub window_seconds : ℕ

abbrev pub at_least_one : ℕ → ℕ
at_least_one zero = 1
at_least_one (suc n) = suc n

abbrev pub capacity : Limits → ℕ
capacity l = at_least_one (l.max_requests + l.burst)

-- `[ts for ts in times if ts >= min_allowed]`
unfoldable pub recent : ℕ → List ℕ → List ℕ
recent min_allowed [] = []
recent min_allowed (ts ∷ times) =
    let rest = recent min_allowed times in if leb min_allowed ts then ts ∷ rest else rest

abbrev pub or_empty : Option (List ℕ) → List ℕ
or_empty none = []
or_empty (some times) = times

-- `self._requests.get(key, [])`
abbrev pub hits_of : String → Hits → List ℕ
hits_of key s = or_empty (dict_get key s)

abbrev pub oldest : List ℕ → ℕ
oldest [] = 0
oldest (ts ∷ times) = ts

-- what `allow` does with the times of the window; the number is `retry_after`
abbrev pub admit : Limits → String → ℕ → List ℕ → Hits → Hits × Bool × ℕ
admit l key now times s =
    if leb (capacity l) (length times)
    then (dict_put key times s, false, at_least_one (l.window_seconds - (now - oldest times)))
    else (dict_put key (times ++ now ∷ []) s, true, 0)

-- `InMemoryRateLimiter.allow`
unfoldable pub allow : Limits → String → ℕ → Hits → Hits × Bool × ℕ
allow l key now s = admit l key now (recent (now - l.window_seconds) (hits_of key s)) s

-- `RedisRateLimiter.allow`: `incr` is the count that the client returns for the key's bucket, or
-- none if it or `expire` raises or there is no client; `into_window` is `now % window_seconds`
pub allow_redis : (String → Option ℕ) → ℕ → Limits → String → ℕ → Hits → Hits × Bool × ℕ
allow_redis incr into_window l key now s = elim (incr key) [
  | none ↦ allow l key now s
  | some count ↦
      if ltb (capacity l) count
      then (s, false, at_least_one (l.window_seconds - into_window))
      else (s, true, 0)
]

pub record Request : Type 0 where
  pub method : String
  pub path : String
  pub client_host : Option String
  pub content_length : Option (Option ℕ)
  pub path_length : ℕ
  pub header_lengths : List ℕ

pub data Response : Type 0 where
  passed_on : Response
  rejected_with : ℕ → String → Response
  limited : ℕ → Response

abbrev pub host_of : Option String → String
host_of none = "unknown"
host_of (some host) = host

abbrev pub answer_of : Hits × Bool × ℕ → Hits × Response
answer_of (s, true, retry_after) = (s, passed_on)
answer_of (s, false, retry_after) = (s, limited retry_after)

-- what the middleware passes to `allow`, of the settings
abbrev pub effective : Limits → Limits
effective l = record l { max_requests = at_least_one l.max_requests; window_seconds = 60 }

-- `RateLimitMiddleware.dispatch` with the limiter in memory
unfoldable pub rate_limit : Bool → List String → Limits → ℕ → Request → Hits → Hits × Response
rate_limit enabled exempt_paths l now q s =
    if not enabled
    then (s, passed_on)
    else if q.method == "OPTIONS"
    then (s, passed_on)
    else if mem_text q.path exempt_paths
    then (s, passed_on)
    else answer_of
        (allow (effective l) (join_text (host_of q.client_host ∷ ":" ∷ q.path ∷ [])) now s)

-- a size that does not parse counts as -1, which is below every limit
abbrev pub too_large : ℕ → Option (Option ℕ) → Bool
too_large limit none = false
too_large limit (some none) = false
too_large limit (some (some size)) = ltb limit size

-- `RequestSizeLimitMiddleware.dispatch`
pub size_limit : Bool → ℕ → Request → Response
size_limit enabled limit_bytes q =
    if not enabled
    then passed_on
    else if mem_text q.method ("GET" ∷ "HEAD" ∷ "OPTIONS" ∷ [])
    then passed_on
    else if too_large (at_least_one limit_bytes) q.content_length
    then rejected_with 413 "request_too_large"
    else passed_on

abbrev pub any_above : ℕ → List ℕ → Bool
any_above bound [] = false
any_above bound (n ∷ ns) = ltb bound n || any_above bound ns

-- `BasicAbuseGuardMiddleware.dispatch`
pub abuse_guard : Bool → Request → Response
abuse_guard enabled q =
    if not enabled
    then passed_on
    else if q.method == "OPTIONS"
    then passed_on
    else if ltb 2048 q.path_length
    then rejected_with 414 "path_too_long"
    else if ltb 120 (length q.header_lengths)
    then rejected_with 400 "too_many_headers"
    else if any_above 8192 q.header_lengths
    then rejected_with 400 "header_value_too_large"
    else passed_on
