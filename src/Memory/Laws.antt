-- ===== src/Memory/Laws.antt =====
-- What a reader of the short-term memory sees (app/harness/memory/short_term.py).
use project_b_multi_agent.ApprovalStore.{Limit, nat, negative}
use project_b_multi_agent.Gateway.Dicts.{dict_get-dict_put}
use project_b_multi_agent.Json.{Fields}
use project_b_multi_agent.Memory.{
  MemoryMessage, ShortTermMemory, add_message, clamp_messages, get_messages, keep_last, messages_of,
}
use project_b_multi_agent.Prelude.{
  List, Option, String, [], arith, eq_iff, eq_refl, if◌then◌else◌, length, none, refl, some, ℕ,
  ◌++◌, ◌<◌, ◌==◌, ◌∙◌, ◌∷◌, ◌≡◌, ◌≤◌,
}

module _ {A : Type 0} where
  abbrev pub last_of : List A → Option A
  last_of [] = none
  last_of (x ∷ []) = some x
  last_of (x ∷ y ∷ xs) = last_of (y ∷ xs)

  last_of-snoc : (xs : List A) (x : A) → last_of (xs ++ x ∷ []) ≡ some x
  last_of-snoc [] x = refl
  last_of-snoc (y ∷ []) x = refl
  last_of-snoc (y ∷ z ∷ ys) x = last_of-snoc (z ∷ ys) x

  length-keep_last : (n : ℕ) (xs : List A) → length (keep_last n xs) ≤ n
  length-keep_last n [] = omega arith
  length-keep_last n (x ∷ xs) = ground (arith, length-keep_last n xs)

  -- A suffix of at least one message ends with the last one.
  last_of-keep_last : (n : ℕ) (xs : List A) → 0 < n → last_of (keep_last n xs) ≡ last_of xs
  last_of-keep_last n [] h = refl
  last_of-keep_last n (x ∷ []) h = ground arith
  last_of-keep_last n (x ∷ y ∷ xs) h = ground (arith, last_of-keep_last n (y ∷ xs))

clamp_messages-pos : (limit : Limit) → (0 < clamp_messages limit) × (clamp_messages limit ≤ 50)
clamp_messages-pos negative = omega arith
clamp_messages-pos (nat n) = ground arith

abbrev pub message : String → String → Fields → ℕ → MemoryMessage
message role content metadata now = record {
  role = role;
  content = content;
  timestamp = now;
  metadata = metadata;
}

messages_of-add_message :
    (s role content : String) (metadata : Fields) (now : ℕ) (m : ShortTermMemory) (j : String)
    → messages_of j (add_message s role content metadata now m) ≡ (
        if s == j
        then messages_of s m ++ message role content metadata now ∷ []
        else messages_of j m)
unfolding messages_of add_message
messages_of-add_message s role content metadata now m j = ground (
  arith,
  dict_get-dict_put s j (messages_of s m ++ message role content metadata now ∷ []) m,
  eq_iff s j,
)

-- After `add_message` the messages of the session that `get_messages` returns end with the new one,
-- whatever the limit, and those of every other session are as before. It never returns more than 50.
pub get_messages-add_message :
    (s role content : String) (metadata : Fields) (now : ℕ) (limit : Limit) (m : ShortTermMemory)
    (j : String)
    → let m' = add_message s role content metadata now m in
      (last_of (get_messages s limit m') ≡ some (message role content metadata now))
      × (get_messages j limit m'
          ≡ (if s == j then get_messages s limit m' else get_messages j limit m))
      × (length (get_messages j limit m') ≤ 50)
unfolding get_messages
get_messages-add_message s role content metadata now limit m j =
    let (pos, small) = clamp_messages-pos limit in
    (
      last_of-keep_last (clamp_messages limit) _ pos
          ∙ rw (messages_of-add_message, eq_refl s) (last_of-snoc (messages_of s m) _),
      ground (arith, eq_iff s j, messages_of-add_message s role content metadata now m j),
      omega (
        arith,
        length-keep_last (clamp_messages limit)
            (messages_of j (add_message s role content metadata now m)),
        small,
      ),
    )
