-- ===== src/Orchestration/WorkflowEngine.antt =====
-- packages/runtime/src/orchestration/workflow-engine/index.ts: the steps of an intent, one command of
-- the coordinator after another. Each step has its own `Moment`.
pub mod Workflows
mod Examples
use Prim.Native.String.{◌++◌ as join}
use sovr_protocol.Prelude.{
  ℕ, suc, ◌+◌, ◌-◌, String, Bool, true, false, ◌||◌, Option, none, some, List, [], ◌∷◌, ◌++◌, ◌==◌,
  map, length, select, if◌then◌else◌,
}
use sovr_protocol.Prelude.Maps.{Map, insert, lookup}
use sovr_protocol.Prelude.Result.{Result, ok, err}
use sovr_protocol.Orchestration.{
  SovrCommand, ExecutionStep, ExecutionPlan, Intent, WorkflowResult, WorkflowStatus, idle, running,
  completed, failed, compensating,
}
use sovr_protocol.Orchestration.TransactionCoordinator.{Environment, Moment, TransactionCoordinator}
use sovr_protocol.Orchestration.TransactionCoordinator.Transactions

pub record RunningWorkflow : Type 0 where
  pub workflow_id : String
  pub intent : Intent
  pub plan : ExecutionPlan
  pub current_step : ℕ
  pub status : WorkflowStatus
  pub started_at : String
  pub completed_at : Option String
  pub errors : List String

pub record WorkflowEngine : Type 0 where
  pub workflows : Map RunningWorkflow
  pub completed_workflows : List RunningWorkflow
  pub coordinator : TransactionCoordinator

unfoldable pub moves_money : ExecutionStep → Bool
moves_money s = s.domain == "treasury" || s.domain == "payment"

unfoldable pub command_of : Moment → ExecutionStep → Intent → String → SovrCommand
command_of m s intent policy_context = record {
  command_id = join "cmd_" s.step_id;
  command_type = s.command_type;
  actor = intent.actor;
  timestamp = m.started_at;
  intent_id = intent.intent_id;
  policy_context = policy_context;
  payload = s.payload;
  authorization = if moves_money s then "LEDGER_MUTATION_AUTHORIZED" else "READ_ONLY";
  hash = "";
  domain = s.domain;
  correlation_id = some intent.intent_id;
  causation_id = some intent.intent_id;
}

-- How the loop over the steps ends: with the last of them, with a step that failed, or with a throw.
pub data Ending : Type 0 where
  finished : Ending
  stopped : WorkflowResult → Ending
  threw : String → Ending

unfoldable pub execute_step :
    Environment
    → Moment
    → ExecutionStep
    → Intent
    → TransactionCoordinator
    → Result String WorkflowResult × TransactionCoordinator
execute_step env m s intent t = elim (env.json intent.policy_context) [
  | err x ↦ (err x, t)
  | ok text ↦
      let (result, t') = Transactions.execute env m (command_of m s intent text) t in
      (ok result, t')
]

abbrev pub verdict_of : Result String WorkflowResult → Option Ending
verdict_of (err x) = some (threw x)
verdict_of (ok r) = elim r.status [ failed ↦ some (stopped r) | _ ↦ none ]

-- The loop, from the step with the number `i`.
unfoldable pub run_steps :
    Environment
    → (ℕ → Moment)
    → Intent
    → ℕ
    → List ExecutionStep
    → TransactionCoordinator
    → Ending × ℕ × TransactionCoordinator
run_steps env moments intent i [] t = (finished, i, t)
run_steps env moments intent i (s ∷ steps) t =
    let (r, t') = execute_step env (moments i) s intent t in
    let rest = run_steps env moments intent (suc i) steps t' in
    elim (verdict_of r) [ none ↦ rest | some ending ↦ (ending, i, t') ]

unfoldable pub result_with :
    String → Moment → WorkflowStatus → ℕ → ℕ → ℕ → List String → WorkflowResult
result_with id m status commands events mutations errors = record {
  workflow_id = id;
  status = status;
  commands_emitted = commands;
  events_emitted = events;
  ledger_mutations = mutations;
  errors = errors;
  started_at = m.started_at;
  completed_at = some m.completed_at;
}

unfoldable pub result_after : String → Moment → List ExecutionStep → Ending → WorkflowResult
result_after id m steps finished =
    result_with id m completed (length steps) (length steps) (length (select moves_money steps)) []
result_after id m steps (stopped r) = r
result_after id m steps (threw x) = result_with id m failed 0 0 0 (x ∷ [])

unfoldable pub close : Moment → Ending → ℕ → RunningWorkflow → RunningWorkflow
close m finished at w = record w {
  status = completed;
  current_step = at - 1;
  completed_at = some m.completed_at;
}
close m (stopped r) at w = record w {
  status = failed;
  current_step = at;
  errors = w.errors ++ r.errors;
  completed_at = some m.completed_at;
}
close m (threw x) at w = record w {
  status = failed;
  current_step = at;
  errors = w.errors ++ x ∷ [];
  completed_at = some m.completed_at;
}

unfoldable pub begun : Moment → Intent → ExecutionPlan → RunningWorkflow
begun m intent plan = record {
  workflow_id = join "wf_" intent.intent_id;
  intent = intent;
  plan = plan;
  current_step = 0;
  status = running;
  started_at = m.started_at;
  completed_at = none;
  errors = [];
}

-- The workflow in the map is the object that the loop changes, so it ends as the completed one.
unfoldable pub execute_plan :
    Environment
    → (ℕ → Moment)
    → Moment
    → Intent
    → ExecutionPlan
    → WorkflowEngine
    → WorkflowResult × WorkflowEngine
execute_plan env moments m intent plan engine =
    let id = join "wf_" intent.intent_id in
    let (ending, at, t) = run_steps env moments intent 0 plan.steps engine.coordinator in
    let closed = close m ending at (begun m intent plan) in
    (
      result_after id m plan.steps ending,
      record {
        workflows = insert id closed engine.workflows;
        completed_workflows = engine.completed_workflows ++ closed ∷ [];
        coordinator = t;
      },
    )

unfoldable pub execute_with :
    Environment
    → (ℕ → Moment)
    → Moment
    → Intent
    → WorkflowEngine
    → Option ExecutionPlan
    → WorkflowResult × WorkflowEngine
execute_with env moments m intent engine none = (
  result_with (join "wf_" intent.intent_id) m failed 0 0 0 ("Intent has no execution plan" ∷ []),
  engine,
)
execute_with env moments m intent engine (some plan) = execute_plan env moments m intent plan engine

unfoldable pub execute :
    Environment → (ℕ → Moment) → Moment → Intent → WorkflowEngine → WorkflowResult × WorkflowEngine
unfolding execute_with
execute env moments m intent engine = execute_with env moments m intent engine intent.execution_plan

unfoldable pub get_workflow : WorkflowEngine → String → Option RunningWorkflow
get_workflow engine id = lookup id engine.workflows

unfoldable pub get_active_workflows : WorkflowEngine → List RunningWorkflow
get_active_workflows engine =
    select (λ w. elim w.status [ running ↦ true | _ ↦ false ])
      (map (λ (entry : String × RunningWorkflow). entry.1) engine.workflows)
