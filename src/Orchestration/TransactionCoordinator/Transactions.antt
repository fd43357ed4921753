-- ===== src/Orchestration/TransactionCoordinator/Transactions.antt =====
-- packages/runtime/src/orchestration/transaction-coordinator: a command through the router and the
-- gateway to its event, its mutations and its audit record.
use Prim.Native.String.{◌++◌ as join}
use sovr_protocol.Prelude.{
  ℕ, String, ◌&&◌, some, List, [], ◌∷◌, ◌++◌, ◌==◌, map, length, if◌then◌else◌,
}
use sovr_protocol.Prelude.Result.{Result, ok, err}
use sovr_protocol.Prelude.Value.{field, end}
use sovr_protocol.Orchestration.{
  SovrCommand, SovrEvent, CommandRoute, AuthorizationResult, LedgerMutation, WorkflowResult,
  WorkflowStatus, failed, completed,
}
use sovr_protocol.Orchestration.CommandRouter.{route}
use sovr_protocol.Orchestration.PolicyGateway.{evaluate}
use sovr_protocol.Orchestration.EventDispatcher.{dispatch}
use sovr_protocol.Orchestration.TransactionCoordinator.{
  Environment, Moment, AuditOutcome, AuditRecord, TransactionContext, TransactionCoordinator,
  or_text, text_field, create_event, event_type_of, create_ledger_mutation, success, failure,
  rejected,
}

-- The record is made in any case, and printed where the audit is enabled.
unfoldable pub record_audit :
    Moment
    → SovrCommand
    → List SovrEvent
    → List LedgerMutation
    → AuditOutcome
    → List String
    → TransactionCoordinator
    → TransactionCoordinator
record_audit m c events mutations outcome rules t =
    let made : AuditRecord = record {
      record_id = m.record_id;
      command_id = c.command_id;
      event_ids = map (λ (e : SovrEvent). e.event_id) events;
      actor = c.actor;
      action = c.command_type;
      outcome = outcome;
      constitutional_rules = rules;
      ledger_mutations = mutations;
    } in
    if t.audit_enabled then record t { printed = t.printed ++ made ∷ [] } else t

unfoldable pub result_of :
    Moment → SovrCommand → WorkflowStatus → ℕ → ℕ → ℕ → List String → WorkflowResult
result_of m c status commands events mutations errors = record {
  workflow_id = join "wf_" c.command_id;
  status = status;
  commands_emitted = commands;
  events_emitted = events;
  ledger_mutations = mutations;
  errors = errors;
  started_at = m.started_at;
  completed_at = some m.completed_at;
}

unfoldable pub refused_with :
    Moment
    → SovrCommand
    → AuditOutcome
    → String
    → String
    → TransactionCoordinator
    → Result String SovrEvent
    → WorkflowResult × TransactionCoordinator
refused_with m c outcome rule reason t (ok e) = (
  result_of m c failed 0 1 0 (reason ∷ []),
  record_audit m c (e ∷ []) [] outcome (rule ∷ [])
      (record t { dispatcher = (dispatch e t.dispatcher).1 }),
)
refused_with m c outcome rule reason t (err x) = (result_of m c failed 0 0 0 (x ∷ []), t)

-- A refusal, by the router or by the gateway: its event goes to the chain.
unfoldable pub refuse :
    Environment
    → Moment
    → SovrCommand
    → String
    → AuditOutcome
    → String
    → String
    → AuthorizationResult
    → TransactionCoordinator
    → WorkflowResult × TransactionCoordinator
refuse env m c event_type outcome no_violation no_reason verdict t =
    let extra =
      field "reason" (text_field verdict.reason)
        (field "violation" (text_field verdict.violation) end) in
    refused_with m c outcome (or_text verdict.violation no_violation)
      (or_text verdict.reason no_reason) t
      (create_event env m c event_type extra t.dispatcher.events)

abbrev pub mutations_for : Moment → SovrCommand → CommandRoute → List LedgerMutation
mutations_for m c r =
    if r.ledger_mutation_allowed && c.authorization == "LEDGER_MUTATION_AUTHORIZED"
    then create_ledger_mutation m c ∷ []
    else []

unfoldable pub performed_with :
    Moment
    → SovrCommand
    → CommandRoute
    → AuthorizationResult
    → AuthorizationResult
    → TransactionCoordinator
    → Result String SovrEvent
    → WorkflowResult × TransactionCoordinator
performed_with m c r authorization policy_result t (ok e) =
    let mutations = mutations_for m c r in
    let logged = record t {
      dispatcher = (dispatch e t.dispatcher).1;
      transaction_log =
          t.transaction_log
          ++ record {
            command = c;
            route = r;
            authorization = authorization;
            policy_result = policy_result;
            events = e ∷ [];
            mutations = mutations;
          }
            ∷ [];
    } in
    (
      result_of m c completed 1 1 (length mutations) [],
      record_audit m c (e ∷ []) mutations success ("INV-001" ∷ "INV-002" ∷ "INV-005" ∷ []) logged,
    )
performed_with m c r authorization policy_result t (err x) =
    (result_of m c failed 0 0 0 (x ∷ []), t)

unfoldable pub perform :
    Environment
    → Moment
    → SovrCommand
    → CommandRoute
    → AuthorizationResult
    → AuthorizationResult
    → TransactionCoordinator
    → WorkflowResult × TransactionCoordinator
perform env m c r authorization policy_result t =
    performed_with m c r authorization policy_result t
      (create_event env m c (event_type_of c.command_type) end t.dispatcher.events)

unfoldable pub execute :
    Environment
    → Moment
    → SovrCommand
    → TransactionCoordinator
    → WorkflowResult × TransactionCoordinator
execute env m c t =
    let ((r, authorization), router) = route m.routed_at c t.router in
    let routed = record t { router = router } in
    let policy_result = evaluate env.exceeds c t.gateway in
    if authorization.authorized
    then if policy_result.authorized
      then perform env m c r authorization policy_result routed
      else refuse env m c "PolicyRejected" rejected "POLICY_VIOLATION" "Policy check failed"
          policy_result routed
    else refuse env m c "CommandRejected" failure "UNAUTHORIZED" "Authorization failed"
        authorization routed

-- The messages of `verifyReplay`; the log is valid when there is none.
unfoldable pub verify_replay : List TransactionContext → List String
verify_replay [] = []
verify_replay (tx ∷ txs) =
    let rest = verify_replay txs in
    elim tx.events [
      | [] ↦
          if tx.command.command_type == "system.command.unknown"
          then rest
          else join "Transaction "
              (join tx.command.command_id " has no events but is not an unknown command")
            ∷ rest
      | _ ↦ rest
    ]
