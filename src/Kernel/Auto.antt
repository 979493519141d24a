-- ===== src/Kernel/Auto.antt =====
-- What mode "auto" of app/agent/graph/kernel.py leaves as the task's result.
use project_b_multi_agent.ApprovalStore.{payload_of}
use project_b_multi_agent.Json.{Fields, arr, end, get, is_set, text}
use project_b_multi_agent.Json.Laws.{get-put}
use project_b_multi_agent.Kernel.{Kernel, KernelState, TaskRun, Work, running}
use project_b_multi_agent.Kernel.Modes.{
  after_multitool, after_nl2sql, auto_dict, close_run, fail_run, fall_back, fallback_dict, run,
  run_auto, run_self_check, touch, try_run,
}
use project_b_multi_agent.Kernel.Stages.{run_stage_hooks}
use project_b_multi_agent.Prelude.{
  Bool, Bool-cases, List, Option, String, [], false, if◌then◌else◌, inl, inr, none, refl, some,
  true, ◌+◌, ◌∷◌, ◌≡◌,
}
use project_b_multi_agent.Raise.{Attempt, and_then, done, failed_with, recover}
use project_b_multi_agent.Resume.Steps.Report.{items_of}

-- a pipeline gave a result that reports success
abbrev pub answered : Attempt Fields → Bool
answered (done d) = is_set "success" d
answered (failed_with e) = false

abbrev pub has_raised : Attempt Fields → Bool
has_raised (done d) = false
has_raised (failed_with e) = true

-- the modes to try, by how the two pipelines end: an exception of the first skips the second
abbrev pub modes_tried : Attempt Fields → Attempt Fields → List String
modes_tried nl2sql multitool =
    if answered nl2sql
    then "nl2sql" ∷ []
    else if has_raised nl2sql
    then "nl2sql" ∷ "keyword" ∷ []
    else if answered multitool
    then "nl2sql" ∷ "multitool" ∷ []
    else "nl2sql" ∷ "multitool" ∷ "keyword" ∷ []

abbrev pub final_mode : List String → String
final_mode [] = ""
final_mode (m ∷ []) = m
final_mode (m ∷ n ∷ ms) = final_mode (n ∷ ms)

-- the result names the mode that gave it, and the modes that were tried up to it
abbrev pub Names : List String → Option Fields → Type 0
Names tried none = ⊥
Names tried (some d) =
    (get "requested_mode" d ≡ some (text "auto"))
    × (get "executed_mode" d ≡ some (text (final_mode tried)))
    × (get "fallback_chain" d ≡ some (arr (items_of tried)))

abbrev pub Ends : {S : Type 0} → (S → Type 0) → Attempt (Unit {0}) × S → Type 0
Ends P (done u, k) = P k
Ends P (failed_with e, k) = ⊥

auto_dict-Names :
    {W : Type 0} (env : Kernel W) (tried : List String) (d : Fields)
    → Names tried (some (auto_dict env (final_mode tried) tried d))
auto_dict-Names env tried d = (simp get-put, simp get-put, simp get-put)

fallback_dict-Names :
    {W : Type 0} (env : Kernel W) (tried : List String) (reason : String) (d : Fields)
    → Names tried (some (fallback_dict env (final_mode tried) tried reason d))
fallback_dict-Names env tried reason d = (simp get-put, simp get-put, simp get-put)

abbrev all_modes : List String
all_modes = "nl2sql" ∷ "multitool" ∷ "keyword" ∷ []

module _ {W : Type 0} (env : Kernel W) where
  close_run-Ends :
      (P : KernelState W → Type 0) (early : Bool) (k : KernelState W)
      (f : Unit {0} → Work W (Unit {0}))
      → ((k' : KernelState W) → Ends P (f tt k'))
      → Ends P (and_then (close_run env early k) f)
  unfolding run_self_check
  close_run-Ends P true k f h = h k
  close_run-Ends P false k f h = h _

  recovered-Ends :
      (P : KernelState W → Type 0) (r : Attempt Bool × KernelState W)
      (f : Unit {0} → Work W (Unit {0}))
      → ((k' : KernelState W) → Ends P (f tt k'))
      → Ends P (and_then (and_then (recover r (fail_run env)) (close_run env)) f)
  unfolding run_stage_hooks
  recovered-Ends P (done early, k) f h = close_run-Ends P early k f h
  recovered-Ends P (failed_with e, k) f h = close_run-Ends P false _ f h

  -- `run` does not raise
  run-Ends :
      (P : KernelState W → Type 0) (graph : Option (Work W Fields)) (sid : Option String)
      (k : KernelState W) (f : Unit {0} → Work W (Unit {0}))
      → ((k' : KernelState W) → Ends P (f tt k'))
      → Ends P (and_then (run env graph sid k) f)
  unfolding run
  run-Ends P graph sid k f h = recovered-Ends P (try_run env graph _ _) f h

  abbrev ResultNames : List String → KernelState W → Type 0
  ResultNames tried k = Names tried k.task.result

  touch-Ends :
      (tried : List String) (r : Attempt (Unit {0}) × KernelState W)
      → Ends (ResultNames tried) r
      → Ends (ResultNames tried) (and_then r λ u. touch env)
  touch-Ends tried (done u, k) h = h
  touch-Ends tried (failed_with e, k) h = h

  fall_back-Names :
      (graph : Option (Work W Fields)) (tried : List String) (reason : String) (k : KernelState W)
      → final_mode tried ≡ "keyword"
      → Ends (ResultNames tried) (fall_back env graph tried reason k)
  fall_back-Names graph tried reason k last' =
      run-Ends (ResultNames tried) graph none k _
        λ k'. rw (← last') (fallback_dict-Names env tried reason (payload_of k'.task.result))

  multitool-Names :
      (graph : Option (Work W Fields)) (r : Attempt Fields × KernelState W)
      → Ends (ResultNames (modes_tried (done end) r.0)) (after_multitool env graph r)
  unfolding get
  multitool-Names graph (failed_with e, k) = fall_back-Names graph all_modes _ k refl
  multitool-Names graph (done d, k) = elim (Bool-cases (is_set "success" d)) [
    | inl yes' ↦ rw yes' (fallback_dict-Names env ("nl2sql" ∷ "multitool" ∷ []) _ d)
    | inr no' ↦ rw no' (fall_back-Names graph all_modes _ k refl)
  ]

  nl2sql-Names :
      (graph : Option (Work W Fields)) (task : TaskRun) (r : Attempt Fields × KernelState W)
      → Ends
          (ResultNames (modes_tried r.0 (env.multitool_pipeline task.query task.task_id r.1).0))
          (after_nl2sql env graph task r)
  unfolding get
  nl2sql-Names graph task (failed_with e, k) =
      fall_back-Names graph ("nl2sql" ∷ "keyword" ∷ []) _ k refl
  nl2sql-Names graph task (done d, k) = elim (Bool-cases (is_set "success" d)) [
    | inl yes' ↦ rw yes' (auto_dict-Names env ("nl2sql" ∷ []) d)
    | inr no' ↦ rw no' (multitool-Names graph (env.multitool_pipeline task.query task.task_id k))
  ]

  -- the state in which mode "auto" calls the first pipeline
  abbrev pub started : KernelState W → KernelState W
  started k = record k {
    task = record k.task { status = running; updated_at = env.now k.reads };
    reads = k.reads + 1;
  }

  -- how the two pipelines of a task end, the second from where the first leaves off
  abbrev pub nl2sql_outcome : KernelState W → Attempt Fields × KernelState W
  nl2sql_outcome k = env.nl2sql_pipeline k.task.query (started k)

  abbrev pub multitool_outcome : KernelState W → Attempt Fields × KernelState W
  multitool_outcome k = env.multitool_pipeline k.task.query k.task.task_id (nl2sql_outcome k).1

  -- Mode "auto" never raises, and the task's result says how it came about: NL2SQL if that succeeds,
  -- the keyword chain at once if NL2SQL raises, else the multitool pipeline if that succeeds, else
  -- the keyword chain. `executed_mode` is the last of the modes in `fallback_chain`.
  pub run_auto-Names :
      (graph : Option (Work W Fields)) (k : KernelState W)
      → Ends
          (ResultNames (modes_tried (nl2sql_outcome k).0 (multitool_outcome k).0))
          (run_auto env graph k)
  unfolding run_auto
  run_auto-Names graph k =
      touch-Ends (modes_tried (nl2sql_outcome k).0 (multitool_outcome k).0)
        (after_nl2sql env graph (started k).task (nl2sql_outcome k))
        (nl2sql-Names graph (started k).task (nl2sql_outcome k))
