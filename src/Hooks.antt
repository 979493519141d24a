-- ===== src/Hooks.antt =====
-- app/harness/hooks/pipeline.py: functions that run at the stages of a task.
--
-- A hook gets the payload, may change the world `W`, and returns a payload or raises. One that
-- raises is taken to leave the payload's dict as it was.
use project_b_multi_agent.Gateway.{dict_get, dict_put}
use project_b_multi_agent.Json.{
  Fields, Items, Value, arr, as_items, cons, dict, get, nil, obj, put, text,
}
use project_b_multi_agent.Prelude.{List, Option, String, [], none, some, ◌++◌, ◌∷◌}
use project_b_multi_agent.Raise.{Action, Attempt, done, failed_with}

abbrev payload_after : Attempt Fields → Fields → Fields
payload_after (done payload') payload = payload'
payload_after (failed_with e) payload = payload

abbrev errors_after : String → Attempt Fields → List Value → List Value
errors_after stage (done payload') errors = errors
errors_after stage (failed_with e) errors =
    errors ++ obj (dict (("stage", text stage) ∷ ("error", text e) ∷ [])) ∷ []

abbrev value_items : List Value → Items
value_items [] = nil
value_items (v ∷ vs) = cons v (value_items vs)

abbrev append_items : Items → List Value → Items
append_items nil errors = value_items errors
append_items (cons v vs) errors = cons v (append_items vs errors)

abbrev pub with_errors : Fields → List Value → Fields
with_errors payload [] = payload
with_errors payload (e ∷ errors) =
    put "hook_errors" (arr (append_items (as_items (get "hook_errors" payload)) (e ∷ errors)))
      payload

module _ (W : Type 0) where
  abbrev pub Hook : Type 0
  Hook = Fields → Action W Fields

  abbrev pub HookPipeline : Type 0
  HookPipeline = List (String × List Hook)

module _ {W : Type 0} where
  abbrev pub no_hooks : HookPipeline W
  no_hooks =
      ("before_task", [])
      ∷ ("before_tool_call", [])
      ∷ ("after_tool_call", [])
      ∷ ("after_task", [])
      ∷ ("on_error", [])
      ∷ []

  -- `self._hooks.get(stage, [])`
  abbrev pub hooks_or_none : Option (List (Hook W)) → List (Hook W)
  hooks_or_none none = []
  hooks_or_none (some hooks) = hooks

  pub register_hook : String → Hook W → HookPipeline W → HookPipeline W
  register_hook stage hook p = dict_put stage (hooks_or_none (dict_get stage p) ++ hook ∷ []) p

  -- the loop over the hooks of a stage
  unfoldable pub run_each :
      String → List (Hook W) → Fields → List Value → W → (Fields × List Value) × W
  run_each stage [] payload errors w = ((payload, errors), w)
  run_each stage (hook ∷ hooks) payload errors w =
      let (r, w') = hook payload w in
      run_each stage hooks (payload_after r payload) (errors_after stage r errors) w'

  unfoldable pub run_hooks : String → Fields → HookPipeline W → W → Fields × W
  unfolding run_each
  run_hooks stage payload p w =
      let ((payload', errors), w') =
        run_each stage (hooks_or_none (dict_get stage p)) payload [] w in
      (with_errors payload' errors, w')
