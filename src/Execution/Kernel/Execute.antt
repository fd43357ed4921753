-- ===== src/Execution/Kernel/Execute.antt =====
-- packages/runtime/src/execution/kernel-executor.ts, `execute`: the checks in their order, with
-- the events that they append, then the atomic commit of the plan over the state registry and the event store.
use Prim.Native.String.{◌++◌ as join}
use sovr_protocol.Prelude.{
  ℕ, suc, String, Bool, true, not, ◌&&◌, Option, none, some, List, [], ◌∷◌, ◌==◌, map, length,
  if◌then◌else◌,
}
use sovr_protocol.Prelude.Result.{Result, ok, err, ◌>>=◌}
use sovr_protocol.Prelude.Value.{Value, str, get, has_field, truthy, coalesce, or_else, fields_of}
use sovr_protocol.Prelude.Text.{text_of}
use sovr_protocol.Server.EventStore.{
  EventStore, Envelope, AppendInput, Stamp, StoreError, append_many_atomic,
}
use sovr_protocol.Execution.StateRegistry.{StateRegistry, get_state}
use sovr_protocol.Execution.AtomicCommit.{AtomicStateUpdate}
use sovr_protocol.Execution.AtomicCommit as AtomicCommit
use sovr_protocol.Execution.AuthorityBoundary.{AuthorityCheckResult, AuthorityViolationEvent}
use sovr_protocol.Execution.AuthorityBoundary as AuthorityBoundary
use sovr_protocol.Execution.ExecutionGates as ExecutionGates
use sovr_protocol.Execution.ExecutionGates.{GateCheckInput, GateCheckResult, GateFailure}
use sovr_protocol.Execution.Invariants.{
  enforce_capability_boundary, enforce_command, enforce_sovereignty,
}
use sovr_protocol.Execution.Kernel.{
  CommandEnvelope, Kernel, KernelState, Refusal, rejected, validation_error, identity_violation,
  commit_failure, execution_gate_failed, contains, is_authority_mutation, required_capability,
  command_aggregate_id, require, enforced, authorised, identity_check, capability_check,
  evaluate_instructions,
}
use sovr_protocol.Execution.EventEnforcement.{EnforcementResult}
use sovr_protocol.Execution.Kernel.Audits.{
  AuditEvent, audit_input, authority_audit, gate_audit, boundary_audit, audits_of, append_each,
}
use sovr_protocol.Execution.Kernel.Plan.{PlannedTransition}
use sovr_protocol.Execution.Kernel.Plan.Events.{plan_transitions_and_events, updates_of}

abbrev pub definition_of : Kernel → CommandEnvelope → Value
definition_of k request = get k.corpus.commands request.command_name

abbrev operation_of : CommandEnvelope → String
operation_of request = if contains request.command_name "revoke" then "REVOKE" else "GRANT"

abbrev target_capability : CommandEnvelope → String
target_capability request =
    text_of (coalesce (get request.payload "capability_id") (str request.command_name))

abbrev target_actor : CommandEnvelope → String
target_actor request =
    text_of (coalesce (get request.payload "actor_id") (str request.identity_context.actor_id))

abbrev boundary_result : CommandEnvelope → EnforcementResult
boundary_result request =
    let who = request.identity_context in
    enforce_capability_boundary who.actor_id who.actor_type (operation_of request)
      (target_capability request) (target_actor request)

-- INV-004, of the commands that change authority.
unfoldable pub boundary_check : CommandEnvelope → Result Refusal (Unit {0})
boundary_check request =
    if is_authority_mutation request.command_name then enforced (boundary_result request) else ok tt

unfoldable pub boundary_audits : CommandEnvelope → List AuditEvent
boundary_audits request =
    if is_authority_mutation request.command_name
    then boundary_audit request.command_id request.identity_context.actor_id (operation_of request)
        (target_capability request) (target_actor request) (boundary_result request)
    else []

abbrev authority_call :
    Kernel
    → CommandEnvelope
    → Value
    → Result String AuthorityCheckResult × List AuthorityViolationEvent
authority_call k request def = AuthorityBoundary.check k.authority (record {
  actor_id = request.identity_context.actor_id;
  command_name = request.command_name;
  aggregate_id = command_aggregate_id k request def;
  required_capability = required_capability request def;
  payload = request.payload;
  correlation_id = request.correlation_id;
  command_id = request.command_id;
})

unfoldable pub authority_check : Kernel → CommandEnvelope → Value → Result Refusal (Unit {0})
authority_check k request def = authorised (authority_call k request def).0

unfoldable pub authority_audits : Kernel → CommandEnvelope → Value → List AuditEvent
authority_audits k request def = map authority_audit (authority_call k request def).1

abbrev gate_input : Kernel → CommandEnvelope → Value → GateCheckInput
gate_input k request def = record {
  command_name = request.command_name;
  command_id = request.command_id;
  correlation_id = request.correlation_id;
  aggregate_id = command_aggregate_id k request def;
  actor_id = request.identity_context.actor_id;
  payload = request.payload;
  gates = k.gates_of def;
}

abbrev pub gate_result : Kernel → CommandEnvelope → Value → GateCheckResult
gate_result k request def = (ExecutionGates.check k.evaluators (gate_input k request def)).0

unfoldable pub gate_audits : Kernel → CommandEnvelope → Value → List AuditEvent
gate_audits k request def =
    let input = gate_input k request def in
    map (gate_audit input) (ExecutionGates.check k.evaluators input).1

abbrev pub gate_reason : Option GateFailure → String
gate_reason none = "Execution gate condition not satisfied"
gate_reason (some f) = f.reason

unfoldable pub gate_check : Kernel → CommandEnvelope → Value → Result Refusal (Unit {0})
gate_check k request def =
    let r = gate_result k request def in
    require r.passed (rejected execution_gate_failed (gate_reason r.failure))

-- INV-006. The state is looked up with the aggregate's identifier in the place of its type.
unfoldable pub sovereignty_check :
    Kernel → StateRegistry → CommandEnvelope → Value → Result Refusal (Unit {0})
sovereignty_check k r request def =
    let id = command_aggregate_id k request def in
    let domain = text_of (or_else (get def "domain") (str "default")) in
    enforced (
      enforce_sovereignty k.corpus.machines
        (text_of (or_else (get def "aggregate") (str "default")))
        (get_state k.initial_state r id id (some domain)) request.command_name)

abbrev pub is_identified : CommandEnvelope → Bool
is_identified request =
    not (request.identity_context.identity_id == "")
    && not (request.identity_context.actor_id == "")

-- The checks of `execute`, in their order.
abbrev pub checks : Kernel → StateRegistry → CommandEnvelope → List (Result Refusal (Unit {0}))
checks k r request =
    let def = definition_of k request in
    require (truthy def)
      (validation_error "UNKNOWN_COMMAND" (join "Unknown command " request.command_name))
    ∷ require (is_identified request) (identity_violation "missing identity_context")
    ∷ boundary_check request
    ∷ identity_check request def
    ∷ authority_check k request def
    ∷ enforced (enforce_command (has_field (fields_of k.corpus.commands)) request.command_name)
    ∷ gate_check k request def
    ∷ sovereignty_check k r request def
    ∷ capability_check k request def
    ∷ evaluate_instructions k request
    ∷ []

-- What each of the checks appends to the event store, where it runs.
abbrev pub emissions : Kernel → CommandEnvelope → List (List AuditEvent)
emissions k request =
    let def = definition_of k request in
    []
    ∷ []
    ∷ boundary_audits request
    ∷ []
    ∷ authority_audits k request def
    ∷ []
    ∷ gate_audits k request def
    ∷ []
    ∷ []
    ∷ []
    ∷ []

-- The audit events of a command, in the order in which they are appended.
unfoldable pub audits : Kernel → StateRegistry → CommandEnvelope → List AppendInput
unfolding audits_of
audits k r request = map audit_input (audits_of (checks k r request) (emissions k request))

-- The first refusal ends the command.
unfoldable pub run_checks : List (Result Refusal (Unit {0})) → Result Refusal (Unit {0})
run_checks [] = ok tt
run_checks (c ∷ cs) = let rest = run_checks cs in c >>= λ _. rest

-- `execute`, up to the plan.
unfoldable pub admit :
    Kernel
    → StateRegistry
    → CommandEnvelope
    → Result Refusal (List PlannedTransition × List AppendInput)
unfolding run_checks
admit k r request = run_checks (checks k r request) >>= λ _.
    plan_transitions_and_events k r request (definition_of k request)

-- Each input with its stamp.
unfoldable pub stamped : (ℕ → Stamp) → ℕ → List AppendInput → List (Stamp × AppendInput)
stamped stamps i [] = []
stamped stamps i (input ∷ inputs) = (stamps i, input) ∷ stamped stamps (suc i) inputs

-- The events of the plan, with the stamps from the n-th on.
abbrev pub append_events :
    Kernel → ℕ → List AppendInput → EventStore → Result StoreError (List Envelope) × EventStore
append_events k n inputs store = append_many_atomic store (stamped k.stamps n inputs) true k.disk

-- A result with status ACCEPTED.
pub record Acceptance : Type 0 where
  pub events : List Envelope
  pub transitions : List PlannedTransition

abbrev pub conclude :
    List PlannedTransition
    → Result StoreError (List Envelope × List AtomicStateUpdate) × StateRegistry × EventStore
    → Result Refusal Acceptance × KernelState
conclude ts (ok (events, us), r, s) =
    (ok (record { events = events; transitions = ts }), record { registry = r; store = s })
conclude ts (err x, r, s) = (err (commit_failure x), record { registry = r; store = s })

abbrev pub commit :
    Kernel
    → ℕ
    → KernelState
    → CommandEnvelope
    → Result Refusal (List PlannedTransition × List AppendInput)
    → Result Refusal Acceptance × KernelState
commit k n s request (err x) = (err x, s)
commit k n s request (ok (transitions, inputs)) = conclude transitions (
    AtomicCommit.execute (append_events k n inputs) k.initial_state s.registry s.store
      (updates_of request transitions))

-- The state once the checks have appended their events.
unfoldable pub audited : Kernel → KernelState → CommandEnvelope → KernelState
audited k s request = record s {
  store = append_each k.disk (stamped k.stamps 0 (audits k s.registry request)) s.store;
}

unfoldable pub execute :
    Kernel → KernelState → CommandEnvelope → Result Refusal Acceptance × KernelState
execute k s request =
    commit k (length (audits k s.registry request)) (audited k s request) request
      (admit k s.registry request)
