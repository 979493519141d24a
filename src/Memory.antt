-- ===== src/Memory.antt =====
-- app/harness/memory/short_term.py: the messages of each session. The time is an argument.
pub mod Laws
use Prim.Native.String.{count}
use project_b_multi_agent.ApprovalStore.{Limit, nat, negative}
use project_b_multi_agent.Gateway.{dict_get, dict_pop, dict_put}
use project_b_multi_agent.Json.{Fields, Items, arr, cons, dict, join_text, nil, num, obj, text}
use project_b_multi_agent.Prelude.{
  List, Option, String, [], if◌then◌else◌, leb, length, ltb, none, some, suc, zero, ℕ, ◌++◌, ◌+◌,
  ◌∷◌,
}

pub record MemoryMessage : Type 0 where
  pub role : String
  pub content : String
  pub timestamp : ℕ
  pub metadata : Fields

abbrev pub message_dict : MemoryMessage → Fields
message_dict m = dict (
    ("role", text m.role)
    ∷ ("content", text m.content)
    ∷ ("timestamp", num m.timestamp)
    ∷ ("metadata", obj m.metadata)
    ∷ [])

abbrev pub ShortTermMemory : Type 0
ShortTermMemory = List (String × List MemoryMessage)

-- `self._sessions.get(session_id, [])`
abbrev pub or_empty : Option (List MemoryMessage) → List MemoryMessage
or_empty none = []
or_empty (some ms) = ms

unfoldable pub messages_of : String → ShortTermMemory → List MemoryMessage
messages_of session_id m = or_empty (dict_get session_id m)

unfoldable pub add_message :
    String → String → String → Fields → ℕ → ShortTermMemory → ShortTermMemory
unfolding messages_of
add_message session_id role content metadata now m =
    let msg : MemoryMessage = record {
      role = role;
      content = content;
      timestamp = now;
      metadata = metadata;
    } in
    dict_put session_id (messages_of session_id m ++ msg ∷ []) m

abbrev pub clamp_messages : Limit → ℕ
clamp_messages negative = 10
clamp_messages (nat n) = if leb n 0 then 10 else if ltb 50 n then 50 else n

-- `xs[-n:]` for n > 0
abbrev pub keep_last : {A : Type 0} → ℕ → List A → List A
keep_last n [] = []
keep_last n (x ∷ xs) = let rest = keep_last n xs in if ltb n (length (x ∷ xs)) then rest else x ∷ xs

unfoldable pub get_messages : String → Limit → ShortTermMemory → List MemoryMessage
unfolding messages_of
get_messages session_id limit m = keep_last (clamp_messages limit) (messages_of session_id m)

abbrev pub join_lines : List MemoryMessage → String
join_lines [] = ""
join_lines (m ∷ []) = join_text ("[" ∷ m.role ∷ "] " ∷ m.content ∷ [])
join_lines (m ∷ n ∷ ms) =
    join_text ("[" ∷ m.role ∷ "] " ∷ m.content ∷ "\n" ∷ join_lines (n ∷ ms) ∷ [])

-- `s[:n]`
abbrev pub take_text : ℕ → String → String
take_text zero s = ""
take_text (suc n) String.[] = ""
take_text (suc n) (String.◌∷◌ c s) = String.◌∷◌ c (take_text n s)

abbrev pub shorten : ℕ → String → String
shorten max_chars full =
    if leb (count full) max_chars then full else join_text (take_text max_chars full ∷ "..." ∷ [])

unfoldable pub summarize : String → ℕ → ShortTermMemory → String
unfolding messages_of
summarize session_id max_chars m = shorten max_chars (join_lines (messages_of session_id m))

unfoldable pub clear : String → ShortTermMemory → ShortTermMemory
clear session_id m = dict_pop session_id m

unfoldable pub get_context : String → ShortTermMemory → Fields
unfolding messages_of summarize
get_context session_id m = dict (
    ("session_id", text session_id)
    ∷ ("message_count", num (length (messages_of session_id m)))
    ∷ ("summary", text (summarize session_id 500 m))
    ∷ [])

unfoldable pub total_messages : ShortTermMemory → ℕ
total_messages [] = 0
total_messages ((sid, ms) ∷ m) = length ms + total_messages m

abbrev session_list : ShortTermMemory → Items
session_list [] = nil
session_list ((sid, ms) ∷ m) =
    cons (obj (dict (("session_id", text sid) ∷ ("message_count", num (length ms)) ∷ [])))
      (session_list m)

unfoldable pub memory_summary : ShortTermMemory → Fields
unfolding total_messages
memory_summary m = dict (
    ("session_count", num (length m))
    ∷ ("message_count", num (total_messages m))
    ∷ ("sessions", arr (session_list m))
    ∷ [])
