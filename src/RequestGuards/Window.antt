-- ===== src/RequestGuards/Window.antt =====
-- The bound that the rate limiter in memory keeps (app/core/request_guards.py).
use project_b_multi_agent.CheckpointStore.{later}
use project_b_multi_agent.Gateway.{dict_get, dict_put}
use project_b_multi_agent.Gateway.Dicts.{dict_get-dict_put}
use project_b_multi_agent.Prelude.{
  Bool, List, String, [], ap, arith, both_true, eq_iff, false, if_both, if_split, if◌then◌else◌,
  leb, length, refl, sym, true, ℕ, ◌&&◌, ◌++◌, ◌+◌, ◌-◌, ◌==◌, ◌∙◌, ◌∷◌, ◌≡◌, ◌≤◌,
}
use project_b_multi_agent.RequestGuards.{Hits, Limits, admit, allow, capacity, hits_of, recent}

-- how many of the times are not before `m`
abbrev pub count_from : ℕ → List ℕ → ℕ
count_from m [] = 0
count_from m (ts ∷ log) = (if leb m ts then 1 else 0) + count_from m log

count_from-recent :
    (m start : ℕ) (times : List ℕ)
    → start ≤ m
    → count_from m (recent start times) ≡ count_from m times
unfolding recent
count_from-recent m start [] h = refl
count_from-recent m start (ts ∷ times) h = ground (arith, count_from-recent m start times h)

length-recent : (start : ℕ) (times : List ℕ) → length (recent start times) ≡ count_from start times
unfolding recent
length-recent start [] = refl
length-recent start (ts ∷ times) = ground (arith, length-recent start times)

count_from-append :
    (m now : ℕ) (times : List ℕ)
    → count_from m (times ++ now ∷ []) ≡ (if leb m now then 1 else 0) + count_from m times
count_from-append m now [] = refl
count_from-append m now (ts ∷ times) = omega (arith, count_from-append m now times)

-- one request more in the log of `k`, if it is of `k` and was admitted
abbrev pub logged : String → String → ℕ → Bool → List ℕ → List ℕ
logged k key now admitted log = if key == k && admitted then now ∷ log else log

-- the times at which requests of the key `k` are admitted, latest first
unfoldable pub admitted_log : Limits → String → List (String × ℕ) → Hits → List ℕ → List ℕ
admitted_log l k [] s log = log
admitted_log l k ((key, now) ∷ requests) s log =
    let (s', admitted, retry_after) = allow l key now s in
    admitted_log l k requests s' (logged k key now admitted log)

-- the requests come in the order of their times
abbrev pub in_order : ℕ → List (String × ℕ) → Bool
in_order since [] = true
in_order since ((key, now) ∷ requests) = leb since now && in_order now requests

-- of each time in the log and those before it, no more than the capacity lie in its window
abbrev pub IsBounded : Limits → List ℕ → Type 0
IsBounded l [] = Unit
IsBounded l (now ∷ log) =
    (count_from (now - l.window_seconds) (now ∷ log) ≤ capacity l) × IsBounded l log

leb→le : (a b : ℕ) → leb a b ≡ true → a ≤ b
leb→le a b h = ground arith

hits_of-put :
    (key k : String) (times : List ℕ) (s : Hits)
    → hits_of k (dict_put key times s) ≡ (if key == k then times else hits_of k s)
hits_of-put key k times s = ground (arith, dict_get-dict_put key k times s)

module _ (l : Limits) (k : String) where
  -- in the window of `since` and in all later ones, the limiter has the times of the log
  abbrev Agrees : ℕ → Hits → List ℕ → Type 0
  Agrees since s log =
      (m : ℕ) → since - l.window_seconds ≤ m → count_from m (hits_of k s) ≡ count_from m log

  -- the times of the window count as those of the key do
  kept_count :
      (key : String) (since now m : ℕ) (s : Hits) (log : List ℕ)
      → since ≤ now
      → now - l.window_seconds ≤ m
      → Agrees since s log
      → key ≡ k
      → count_from m (recent (now - l.window_seconds) (hits_of key s)) ≡ count_from m log
  kept_count key since now m s log order h agrees same =
      count_from-recent m (now - l.window_seconds) (hits_of key s) h
      ∙ ap (λ j. count_from m (hits_of j s)) same
      ∙ agrees m (omega arith)

  admit-count :
      (key : String) (now m : ℕ) (times : List ℕ) (s : Hits) (log : List ℕ)
      → (key ≡ k → count_from m times ≡ count_from m log)
      → count_from m (hits_of k s) ≡ count_from m log
      → count_from m (hits_of k (admit l key now times s).0)
        ≡ count_from m (logged k key now (admit l key now times s).1 log)
  admit-count key now m times s log kept others =
      if_both {A = Hits × Bool × ℕ}
        (λ o. count_from m (hits_of k o.0) ≡ count_from m (logged k key now o.1 log))
        (leb (capacity l) (length times)) (ground (arith, hits_of-put key k times s, eq_iff key k))
        (ground (
          arith,
          hits_of-put key k (times ++ now ∷ []) s,
          count_from-append m now times,
          eq_iff key k,
        ))

  same_key : (key : String) → (key == k) ≡ true → key ≡ k
  same_key key e = ground (arith, eq_iff key k)

  within_capacity :
      (now : ℕ) (times log : List ℕ)
      → leb (capacity l) (length times) ≡ false
      → length times ≡ count_from (now - l.window_seconds) log
      → count_from (now - l.window_seconds) (now ∷ log) ≤ capacity l
  within_capacity now times log room same = ground arith

  admit-IsBounded :
      (key : String) (now : ℕ) (times : List ℕ) (s : Hits) (log : List ℕ)
      → (key ≡ k → length times ≡ count_from (now - l.window_seconds) log)
      → IsBounded l log
      → IsBounded l (logged k key now (admit l key now times s).1 log)
  admit-IsBounded key now times s log kept bounded =
      if_split {A = Hits × Bool × ℕ} (λ o. IsBounded l (logged k key now o.1 log))
        (leb (capacity l) (length times))
        (λ full.
          if_split (IsBounded l) (key == k && false) (λ e. cc ((both_true (key == k) false e).1))
            (λ no. bounded))
        (λ room.
          if_split (IsBounded l) (key == k && true)
            (λ e. (
              within_capacity now times log room (kept (same_key key (both_true _ _ e).0)),
              bounded,
            ))
            (λ no. bounded))

  allow-Agrees :
      (key : String) (since now : ℕ) (s : Hits) (log : List ℕ)
      → since ≤ now
      → Agrees since s log
      → Agrees now (allow l key now s).0 (logged k key now (allow l key now s).1 log)
  unfolding allow
  allow-Agrees key since now s log order agrees m h =
      admit-count key now m (recent (now - l.window_seconds) (hits_of key s)) s log
        (kept_count key since now m s log order h agrees) (agrees m (omega arith))

  allow-IsBounded :
      (key : String) (since now : ℕ) (s : Hits) (log : List ℕ)
      → since ≤ now
      → Agrees since s log
      → IsBounded l log
      → IsBounded l (logged k key now (allow l key now s).1 log)
  unfolding allow
  allow-IsBounded key since now s log order agrees bounded =
      let start = now - l.window_seconds in
      admit-IsBounded key now (recent start (hits_of key s)) s log
        (λ same.
          length-recent start (hits_of key s)
          ∙ sym (count_from-recent start start (hits_of key s) (omega arith))
          ∙ kept_count key since now start s log order (omega arith) agrees same)
        bounded

  log-IsBounded :
      (since : ℕ) (requests : List (String × ℕ)) (s : Hits) (log : List ℕ)
      → in_order since requests ≡ true
      → Agrees since s log
      → IsBounded l log
      → IsBounded l (admitted_log l k requests s log)
  unfolding admitted_log
  log-IsBounded since [] s log order agrees bounded = bounded
  log-IsBounded since ((key, now) ∷ requests) s log order agrees bounded =
      let (first, later) = both_true (leb since now) (in_order now requests) order in
      let le = leb→le since now first in
      log-IsBounded now requests (allow l key now s).0 (logged k key now (allow l key now s).1 log)
        later (allow-Agrees key since now s log le agrees)
        (allow-IsBounded key since now s log le agrees bounded)

  -- Of the requests of one key that the limiter in memory admits, whatever requests of other keys
  -- come in between, no more than the capacity lie in the window that ends at any admitted one,
  -- if the clock does not go back.
  pub admitted_log-IsBounded :
      (requests : List (String × ℕ))
      → in_order 0 requests ≡ true
      → IsBounded l (admitted_log l k requests [] [])
  unfolding dict_get
  admitted_log-IsBounded requests order = log-IsBounded 0 requests [] [] order (λ m h. refl) tt
