-- ===== src/Orchestration/WorkflowEngine/Examples.antt =====
-- A payment in two steps, behind a policy on actors.
use sovr_protocol.Prelude.{
  ℕ, ◌%◌, ◌^◌, ◌≡◌, refl, String, Bool, true, false, not, ◌||◌, none, some, List, [], ◌∷◌, ◌++◌,
  map, length, select, every, includes,
}
use sovr_protocol.Prelude.Maps.{lookup, insert}
use sovr_protocol.Prelude.Result.{ok}
use sovr_protocol.Prelude.Value.{undefined, str, obj, field, end}
use sovr_protocol.Orchestration.{
  SovrCommand, SovrEvent, CommandRoute, ExecutionStep, ExecutionPlan, Intent, PolicyRule, deny,
  completed,
}
use sovr_protocol.Orchestration.CommandRouter.{
  add_routes, new_router, route, route_of, log_route, evaluate_authorization,
}
use sovr_protocol.Orchestration.PolicyGateway.{
  PolicyGateway, add_rule, add_rules, new_gateway, evaluate, run_rules, rule_list, applies,
  evaluate_rule, meets_condition,
}
use sovr_protocol.Orchestration.PolicyGateway.Rules.{passes, evaluate_authorized}
use sovr_protocol.Orchestration.EventDispatcher.{
  EventDispatcher, new_dispatcher, dispatch, handlers_of, invoke,
}
use sovr_protocol.Orchestration.EventHash.{
  hash_digits, polynomial, from_digits, hash_digits-polynomial,
}
use sovr_protocol.Orchestration.TransactionCoordinator.{
  Environment, Moment, TransactionContext, event_type_of, made_event, create_event,
}
use sovr_protocol.Orchestration.TransactionCoordinator.Transactions.{
  perform, performed_with, refuse, refused_with, record_audit, result_of,
}
use sovr_protocol.Orchestration.TransactionCoordinator.Transactions
use sovr_protocol.Orchestration.TransactionCoordinator.Safety.{judged_by}
use sovr_protocol.Orchestration.WorkflowEngine.{
  WorkflowEngine, moves_money, command_of, execute_step, run_steps, result_after, result_with,
  execute_plan, execute,
}
use sovr_protocol.Orchestration.WorkflowEngine.Workflows.{total}
use sovr_protocol.Orchestration.WorkflowEngine.Workflows.Plans.{
  IsSound, execute_completes, execute-IsSound,
}

abbrev env : Environment
env = record { json = λ v. ok "{}"; units = λ s. 123 ∷ 125 ∷ []; exceeds = λ a b. true }

abbrev moment : Moment
moment = record {
  started_at = "10:00";
  routed_at = "10:00";
  hashed_id = "evt_1";
  hashed_at = "10:00";
  event_id = "evt_2";
  timestamp = "10:00";
  mutation_id = "mut_1";
  journal_entry_id = "je_1";
  record_id = "audit_1";
  completed_at = "10:01";
}

abbrev route_for : String → String → Bool → CommandRoute
route_for command_type domain allowed = record {
  command_type = command_type;
  domain = domain;
  handler = domain;
  required_capability = "system.internal";
  policy_gate_required = true;
  ledger_mutation_allowed = allowed;
}

abbrev clerks_only : PolicyRule
clerks_only = record {
  rule_id = "clerks";
  condition = "command_exists";
  action = deny;
  domain = "all";
  max_amount = none;
  allowed_actors = some ("clerk" ∷ []);
}

abbrev gateway : PolicyGateway
gateway = new_gateway true (clerks_only ∷ [])

abbrev engine : WorkflowEngine
engine = record {
  workflows = [];
  completed_workflows = [];
  coordinator = record {
    router =
        new_router
          (route_for "CREATE_PAYMENT_INTENT" "intent" false
            ∷ route_for "EXECUTE_INTERNAL_SETTLEMENT" "payment" true
            ∷ [])
          "none" false;
    gateway = gateway;
    dispatcher = new_dispatcher;
    audit_enabled = false;
    transaction_log = [];
    printed = [];
  };
}

abbrev step : String → String → String → ExecutionStep
step id command_type domain = record {
  step_id = id;
  command_type = command_type;
  domain = domain;
  payload = obj (field "amount" (str "7") end);
  depends_on = [];
  timeout_ms = 0;
}

abbrev plan : ExecutionPlan
plan = record {
  plan_id = "p";
  intent_id = "i";
  steps =
      step "1" "CREATE_PAYMENT_INTENT" "intent"
      ∷ step "2" "EXECUTE_INTERNAL_SETTLEMENT" "payment"
      ∷ [];
  estimated_duration_ms = 0;
  requires_approval = false;
  max_retries = 0;
}

abbrev intent : Intent
intent = record {
  intent_id = "i";
  intent_type = "CREATE_PAYMENT_INTENT";
  actor = "clerk";
  timestamp = "10:00";
  payload = undefined;
  policy_context = undefined;
  execution_plan = some plan;
}

abbrev moments : ℕ → Moment
moments i = moment

completes : (execute env moments moment intent engine).0.status ≡ completed
unfolding execute execute_plan run_steps execute_step Transactions.execute route route_of log_route
    evaluate_authorization evaluate run_rules rule_list applies evaluate_rule meets_condition
    new_gateway add_rule add_rules new_router add_routes new_dispatcher insert lookup select
    includes create_event made_event perform performed_with result_of record_audit dispatch
    handlers_of invoke command_of moves_money result_after result_with
completes = refl

execute_completes_example :
    let (result, engine') = execute env moments moment intent engine in
    (new : List SovrEvent) × (added : List TransactionContext)
    × (engine'.coordinator.dispatcher.events ≡ engine.coordinator.dispatcher.events ++ new)
    × (engine'.coordinator.transaction_log ≡ engine.coordinator.transaction_log ++ added)
    × (map (λ (e : SovrEvent). e.event_type) new
        ≡ map (λ (s : ExecutionStep). event_type_of s.command_type) plan.steps)
    × (result.events_emitted ≡ length new)
    × (result.ledger_mutations ≡ total added)
execute_completes_example = execute_completes env moments moment intent plan engine refl completes

engine-IsSound : IsSound (judged_by env gateway) engine.coordinator
unfolding new_dispatcher
engine-IsSound = record { chained = tt; sanctioned = tt }

execute-IsSound_example :
    IsSound (judged_by env gateway) (execute env moments moment intent engine).1.coordinator
execute-IsSound_example = execute-IsSound env moments moment intent engine engine-IsSound

abbrev paid : EventDispatcher
paid = (execute env moments moment intent engine).1.coordinator.dispatcher

abbrev payment : SovrCommand
payment = command_of moment (step "2" "EXECUTE_INTERNAL_SETTLEMENT" "payment") intent "{}"

evaluate_authorized_example :
    (evaluate env.exceeds payment gateway).authorized
    ≡ (not gateway.enabled || every (passes env.exceeds payment) (rule_list gateway))
evaluate_authorized_example = evaluate_authorized env.exceeds payment gateway

hash_digits-polynomial_example :
    from_digits 0 (hash_digits (123 ∷ 125 ∷ [])) ≡ polynomial 0 (123 ∷ 125 ∷ []) % 2 ^ 64
hash_digits-polynomial_example = hash_digits-polynomial (123 ∷ 125 ∷ [])
