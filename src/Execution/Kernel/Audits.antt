-- ===== src/Execution/Kernel/Audits.antt =====
-- The events that the checks of packages/runtime/src/execution/kernel-executor.ts hand to the event
-- store by the `append` that packages/runtime/src/server/commandBus.ts gives them:
-- `deny` of AuthorityBoundaryEnforcer.ts, `emitAdvisoryEvent` and `emitRejectionEvent` of
-- ExecutionGateEnforcer.ts, and `enforce` of CapabilityBoundaryEnforcer.ts. The store reads other
-- field names than they give, so that of an event only the payload is kept; a text of the envelope
-- that is undefined is written `undefined`, as the keys of the indexes have it.
pub mod Log
use sovr_protocol.Prelude.{
  ℕ, String, Bool, true, false, Option, none, some, List, [], ◌∷◌, ◌++◌, map, if◌then◌else◌,
}
use sovr_protocol.Prelude.Result.{Result, ok, err, is_ok}
use sovr_protocol.Prelude.Value.{
  Value, undefined, bool, str, arr, obj, Items, nil, cons, Fields, field, end,
}
use sovr_protocol.Server.EventStore.{EventStore, AppendInput, Stamp, Disk, append}
use sovr_protocol.Execution.AuthorityBoundary.{
  AuthorityViolationType, capability_not_held, capability_expired, capability_revoked,
  scope_mismatch, constraint_amount_exceeded, constraint_time_window, constraint_domain,
  AuthorityViolationEvent,
}
use sovr_protocol.Execution.ExecutionGates.{
  GateCheckInput, GateEvent, warning, rejection, GateEvaluationRecord,
}
use sovr_protocol.Execution.EventEnforcement.{EnforcementResult}

-- What an enforcer gives to `append`.
pub record AuditEvent : Type 0 where
  pub event_name : String
  pub aggregate_id : String
  pub actor_id : String
  pub payload : Value

-- What `EventStore.append` reads of it.
unfoldable pub audit_input : AuditEvent → AppendInput
audit_input e = record {
  event_name = "undefined";
  aggregate = "undefined";
  aggregate_id = "undefined";
  source_domain = "undefined";
  command_id = "undefined";
  triggering_command = "undefined";
  causation_id = "undefined";
  correlation_id = "undefined";
  actor_id = "undefined";
  identity_context = undefined;
  policy_decision_id = "undefined";
  capability_id = "undefined";
  payload = e.payload;
  projection_effect = undefined;
  audit = undefined;
  event_version = none;
}

abbrev pub violation_name : AuthorityViolationType → String
violation_name capability_not_held = "CAPABILITY_NOT_HELD"
violation_name capability_expired = "CAPABILITY_EXPIRED"
violation_name capability_revoked = "CAPABILITY_REVOKED"
violation_name scope_mismatch = "SCOPE_MISMATCH"
violation_name constraint_amount_exceeded = "CONSTRAINT_AMOUNT_EXCEEDED"
violation_name constraint_time_window = "CONSTRAINT_TIME_WINDOW"
violation_name constraint_domain = "CONSTRAINT_DOMAIN"

abbrev pub authority_audit : AuthorityViolationEvent → AuditEvent
authority_audit e = record {
  event_name = "command.rejected.authority_boundary_violation";
  aggregate_id = e.aggregate_id;
  actor_id = e.actor_id;
  payload = obj (
      field "commandName" (str e.command_name) (
        field "commandId" (str e.command_id) (
          field "actorId" (str e.actor_id) (
            field "aggregateId" (str e.aggregate_id) (
              field "requiredCapability" (str e.required_capability) (
                field "violation" (str (violation_name e.violation))
                  (field "reason" (str e.reason) end)))))));
}

abbrev optional_text : Option String → Value
optional_text none = undefined
optional_text (some s) = str s

-- The durations are left out.
abbrev pub evaluated_items : List GateEvaluationRecord → Items
evaluated_items [] = nil
evaluated_items (r ∷ rs) =
    cons
      (obj (
        field "gateId" (str r.gate_id) (
          field "gateType" (str r.gate_type)
            (field "passed" (bool r.passed) (field "reason" (optional_text r.reason) end)))))
      (evaluated_items rs)

abbrev pub gate_audit : GateCheckInput → GateEvent → AuditEvent
gate_audit input (warning g reason) = record {
  event_name = "command.advisory.gate_warning";
  aggregate_id = input.aggregate_id;
  actor_id = input.actor_id;
  payload = obj (
      field "commandName" (str input.command_name) (
        field "commandId" (str input.command_id) (
          field "gateId" (str g.gate_id) (
            field "gateType" (str g.gate_type)
              (field "description" (str g.description) (field "reason" (str reason) end))))));
}
gate_audit input (rejection f evaluated) = record {
  event_name = "command.rejected.execution_gate_failed";
  aggregate_id = input.aggregate_id;
  actor_id = input.actor_id;
  payload = obj (
      field "commandName" (str input.command_name) (
        field "commandId" (str input.command_id) (
          field "actorId" (str input.actor_id) (
            field "aggregateId" (str input.aggregate_id) (
              field "gateId" (str f.gate_id) (
                field "gateType" (str f.gate_type) (
                  field "reason" (str f.reason)
                    (field "evaluated" (arr (evaluated_items evaluated)) end))))))));
}

-- `enforce` appends an event exactly when it refuses.
abbrev pub boundary_audit :
    String → String → String → String → String → EnforcementResult → List AuditEvent
boundary_audit command_id actor_id operation target_capability target_actor r =
    if r.allowed
    then []
    else record {
      event_name = "constitutional.violation.inv004";
      aggregate_id = command_id;
      actor_id = actor_id;
      payload = obj (
          field "invariant" (str "INV-004") (
            field "operation" (str operation) (
              field "targetCapability" (str target_capability) (
                field "targetActor" (str target_actor)
                  (field "reason" (optional_text r.reason) end)))));
    }
      ∷ []

-- What the checks that run have appended: a check that refuses is the last one.
unfoldable pub audits_of :
    {E : Type 0} → List (Result E (Unit {0})) → List (List AuditEvent) → List AuditEvent
audits_of (c ∷ cs) (e ∷ es) = let rest = audits_of cs es in e ++ (if is_ok c then rest else [])
audits_of _ _ = []

-- One `append` for each event.
unfoldable pub append_each : Disk → List (Stamp × AppendInput) → EventStore → EventStore
append_each disk [] store = store
append_each disk ((stamp, input) ∷ rest) store =
    append_each disk rest (append store stamp input disk).1
