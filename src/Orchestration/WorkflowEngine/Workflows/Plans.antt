-- ===== src/Orchestration/WorkflowEngine/Workflows/Plans.antt =====
-- What a whole plan of packages/runtime/src/orchestration/workflow-engine leaves behind.
use Prim.Native.String.{◌++◌ as join}
use sovr_protocol.Prelude.{
  ℕ, ◌≡◌, refl, sym, ap, ◌∙◌, String, Option, none, some, List, ◌++◌, map, arith, length,
  length-map, All, All-append, select,
}
use sovr_protocol.Orchestration.{
  SovrEvent, ExecutionStep, ExecutionPlan, Intent, WorkflowResult, failed, completed,
}
use sovr_protocol.Orchestration.TransactionCoordinator.{
  Environment, Moment, TransactionContext, TransactionCoordinator, event_type_of, genesis_hash,
}
use sovr_protocol.Orchestration.TransactionCoordinator.Safety.{
  Judge, judged_by, IsChainFrom, IsSanctioned,
}
use sovr_protocol.Orchestration.WorkflowEngine.{
  WorkflowEngine, moves_money, Ending, finished, stopped, threw, run_steps, result_after,
  result_with, execute_plan, execute_with, execute,
}
use sovr_protocol.Orchestration.WorkflowEngine.Workflows.{total, IsAdvance, run_steps-RunLeaves}

-- The chain of the events holds from its first event on, and every logged transaction is sanctioned.
pub record IsSound (judge : Judge) (t : TransactionCoordinator) : Type 0 where
  pub chained : IsChainFrom genesis_hash t.dispatcher.events
  pub sanctioned : All (IsSanctioned judge) t.transaction_log

IsAdvance-IsSound :
    {judge : Judge} {t t' : TransactionCoordinator}
    → IsAdvance judge t t'
    → IsSound judge t
    → IsSound judge t'
IsAdvance-IsSound {judge} {t} a s = record {
  chained = a.chained s.chained;
  sanctioned =
      rw a.log
        (All-append (IsSanctioned judge) t.transaction_log a.added s.sanctioned a.sanctioned);
}

execute_with-IsSound :
    (env : Environment) (moments : ℕ → Moment) (m : Moment) (intent : Intent)
    (engine : WorkflowEngine) (plan : Option ExecutionPlan)
    → IsSound (judged_by env engine.coordinator.gateway) engine.coordinator
    → IsSound
        (judged_by env engine.coordinator.gateway)
        (execute_with env moments m intent engine plan).1.coordinator
unfolding execute_with execute_plan
execute_with-IsSound env moments m intent engine none s = s
execute_with-IsSound env moments m intent engine (some plan) s =
    IsAdvance-IsSound (run_steps-RunLeaves env moments intent 0 plan.steps engine.coordinator).0 s

-- Whatever intent is executed, and however it ends, the chain of the events stays whole, from the
-- genesis hash on, and every logged transaction has one event, was authorized by its route, and by
-- the answer that the policies of the engine's gateway give for its command, and has a mutation only
-- where its route allows that and its command asks for it.
pub execute-IsSound :
    (env : Environment) (moments : ℕ → Moment) (m : Moment) (intent : Intent)
    (engine : WorkflowEngine)
    → IsSound (judged_by env engine.coordinator.gateway) engine.coordinator
    → IsSound
        (judged_by env engine.coordinator.gateway)
        (execute env moments m intent engine).1.coordinator
unfolding execute
execute-IsSound env moments m intent engine s =
    execute_with-IsSound env moments m intent engine intent.execution_plan s

completed_finished :
    (id : String) (m : Moment) (steps : List ExecutionStep) (ending : Ending)
    → ((r : WorkflowResult) → ending ≡ stopped r → r.status ≡ failed)
    → (result_after id m steps ending).status ≡ completed
    → ending ≡ finished
unfolding result_after result_with
completed_finished id m steps finished h e = refl
completed_finished id m steps (stopped r) h e = absurd (ground (arith, e, h r refl))
completed_finished id m steps (threw x) h e = cc

reports :
    (id : String) (m : Moment) (steps : List ExecutionStep) (ending : Ending)
    → ending ≡ finished
    → let r = result_after id m steps ending in
      (r.events_emitted ≡ length steps) × (r.ledger_mutations ≡ length (select moves_money steps))
unfolding result_after result_with
reports id m steps finished h = (refl, refl)
reports id m steps (stopped r) h = cc
reports id m steps (threw x) h = cc

execute_planned :
    (env : Environment) (moments : ℕ → Moment) (m : Moment) (intent : Intent) (plan : ExecutionPlan)
    (engine : WorkflowEngine)
    → intent.execution_plan ≡ some plan
    → execute env moments m intent engine ≡ execute_plan env moments m intent plan engine
unfolding execute execute_with
execute_planned env moments m intent plan engine e = ap (execute_with env moments m intent engine) e

-- A plan that completes has put exactly one event for each of its steps at the end of the chain, in
-- their order and of the type that belongs to the command of the step; and the events and the
-- mutations that it reports are those that were made.
pub execute_completes :
    (env : Environment) (moments : ℕ → Moment) (m : Moment) (intent : Intent) (plan : ExecutionPlan)
    (engine : WorkflowEngine)
    → intent.execution_plan ≡ some plan
    → (execute env moments m intent engine).0.status ≡ completed
    → let (result, engine') = execute env moments m intent engine in
      (new : List SovrEvent) × (added : List TransactionContext)
      × (engine'.coordinator.dispatcher.events ≡ engine.coordinator.dispatcher.events ++ new)
      × (engine'.coordinator.transaction_log ≡ engine.coordinator.transaction_log ++ added)
      × (map (λ (e : SovrEvent). e.event_type) new
          ≡ map (λ (s : ExecutionStep). event_type_of s.command_type) plan.steps)
      × (result.events_emitted ≡ length new)
      × (result.ledger_mutations ≡ total added)
unfolding execute_plan
execute_completes env moments m intent plan engine e h =
    let (ending, at, t) = run_steps env moments intent 0 plan.steps engine.coordinator in
    let (a, reached, all, broken) =
      run_steps-RunLeaves env moments intent 0 plan.steps engine.coordinator in
    let id = join "wf_" intent.intent_id in
    let opened = execute_planned env moments m intent plan engine e in
    let done =
      completed_finished id m plan.steps ending broken (ap (λ o. o.0.status) (sym opened) ∙ h) in
    let (types, mutations) = all done in
    let (emitted, moved) = reports id m plan.steps ending done in
    let counted : length a.new ≡ length plan.steps =
      sym (length-map (λ (x : SovrEvent). x.event_type) a.new)
      ∙ ap (λ (xs : List String). length xs) types
      ∙ length-map (λ (s : ExecutionStep). event_type_of s.command_type) plan.steps in
    rw opened
      ((a.new, a.added, a.events, a.log, types, emitted ∙ sym counted, moved ∙ sym mutations))
