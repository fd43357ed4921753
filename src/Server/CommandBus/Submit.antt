-- ===== src/Server/CommandBus/Submit.antt =====
-- packages/runtime/src/server/commandBus.ts: what `submit` does behind its gates, with an unknown command,
-- with what the kernel answers, and with the errors that it catches.
pub mod Steps
use Prim.Native.String.{◌++◌ as join, slice, len}
use sovr_protocol.Prelude.{
  ℕ, zero, suc, String, Bool, true, false, not, ◌&&◌, ◌||◌, Option, none, some, List, [], ◌∷◌, ◌++◌,
  ◌==◌, if◌then◌else◌,
}
use sovr_protocol.Prelude.Maps.{Map}
use sovr_protocol.Prelude.Result.{Result, ok, err}
use sovr_protocol.Prelude.Value.{
  Value, bool, str, arr, obj, cons, nil, field, end, get, truthy, is_nullish, coalesce, or_else,
  set_field, fields_of,
}
use sovr_protocol.Prelude.Text.{text_of, starts_with}
use sovr_protocol.Server.EventStore.{Envelope, AppendInput, StoreError, EventStore, append}
use sovr_protocol.Server.CapabilityEngine.{CapabilityEngine, grant, revoke, check}
use sovr_protocol.Server.CapabilityEngine.Defaults.{seed_compiled_type_defaults}
use sovr_protocol.Execution.StateMachines.Words.{lower_case}
use sovr_protocol.Execution.Kernel.{
  CommandEnvelope, KernelState, Refusal, rejected, validation_error, identity_violation,
  capability_violation, invalid_transition, thrown, commit_failure, RejectionCode,
  invariant_violation, authority_boundary_violation, execution_gate_failed, contains,
  required_capability, identity_value,
}
use sovr_protocol.Execution.Kernel.Execute.{Acceptance, checks, run_checks, definition_of, execute}
use sovr_protocol.Server.CommandBus.{
  BusCommand, GateResult, CommandCoverage, BusEnvironment, Moment, CommandBus, BusAnswer, knows,
  normalize_command_envelope, get_command_coverage, identity_gate, capability_gate, policy_gate,
  constitutional_gate, kernel_at,
}

abbrev pub refuses : CommandEnvelope → Map GateResult → Option String → Option String → BusAnswer
refuses c gates error error_type = record {
  accepted = false;
  command_id = c.command_id;
  correlation_id = c.correlation_id;
  events = [];
  transitions = [];
  gates = gates;
  error = error;
  error_type = error_type;
}

abbrev or_text : Value → String → String
or_text v d = if truthy v then text_of v else d

unfoldable pub unknown_input : Moment → BusCommand → AppendInput
unknown_input t b =
    let c = b.envelope in
    record {
      event_name = "system.command.unknown";
      aggregate = if b.aggregate == "" then "unknown" else b.aggregate;
      aggregate_id =
          or_text (or_else (get c.payload "asset_id") (get c.payload "order_id")) t.random_uuid;
      source_domain = if c.source_domain == "" then "unknown" else c.source_domain;
      command_id = c.command_id;
      triggering_command = c.command_name;
      causation_id = c.correlation_id;
      correlation_id = c.correlation_id;
      actor_id = c.identity_context.actor_id;
      identity_context = identity_value c.identity_context;
      policy_decision_id = t.decision_id;
      capability_id = c.capability_id;
      payload = obj (
          field "attempted_command" (str c.command_name)
            (field "reason" (str "unknown_command") end));
      projection_effect = obj (field "target" (str "none") (field "operation" (str "no_op") end));
      audit = obj (
          field "constitutional_rules_referenced" (arr (cons (str "INV-008") nil))
            (field "retention_class" (str "permanent") end));
      event_version = none;
    }

abbrev pub with_store : EventStore → CommandBus → CommandBus
with_store store s = record s { kernel_state = record s.kernel_state { store = store } }

-- What `append` throws goes through `submit`.
abbrev pub unknown_answer :
    BusCommand
    → Map GateResult
    → CommandBus
    → Result StoreError (List Envelope) × EventStore
    → Result StoreError BusAnswer × CommandBus
unknown_answer b gates s (ok events, store) = (
  ok
      (record (refuses b.envelope gates (some (join "Unknown command " b.envelope.command_name))
        none) { events = events }),
  with_store store s,
)
unknown_answer b gates s (err x, store) = (err x, with_store store s)

unfoldable pub execute_unknown_command :
    Moment → BusCommand → Map GateResult → CommandBus → Result StoreError BusAnswer × CommandBus
execute_unknown_command t b gates s =
    unknown_answer b gates s (append s.kernel_state.store t.stamp (unknown_input t b) t.kernel.disk)

-- The capabilities that an accepted command starts, grants and revokes.
unfoldable pub materialize_authority_effects : CommandEnvelope → CapabilityEngine → CapabilityEngine
materialize_authority_effects c e =
    let p = c.payload in
    let who = c.identity_context in
    if c.command_name == "identity.session.create"
    then seed_compiled_type_defaults who.actor_id who.actor_type e
    else if c.command_name == "governance.capability.grant"
    then grant
        (record {
          capability_id = text_of (coalesce (get p "capability_id") (str ""));
          actor_id = text_of (coalesce (get p "actor_id") (str ""));
          scope_pattern = text_of (coalesce (get p "scope_pattern") (str "*"));
          granted_by = some who.actor_id;
          expires_at =
              if is_nullish (get p "expires_at") then none else some (text_of (get p "expires_at"));
          conditions = get p "conditions";
        })
        e
    else if c.command_name == "governance.capability.revoke"
    then revoke (text_of (coalesce (get p "actor_id") (str "")))
        (text_of (coalesce (get p "capability_id") (str ""))) e
    else e

-- `for (const k of keys)` throws on what is not a list.
abbrev pub is_iterable : Value → Bool
is_iterable (arr xs) = true
is_iterable (str s) = true
is_iterable v = not (truthy v)

abbrev keys_of : Envelope → Value
keys_of e = get e.projection_effect "invalidation_keys"

-- The projections are given each event, until one throws.
unfoldable pub project : List Envelope → List Envelope → Bool × List Envelope
project [] done = (true, done)
project (e ∷ es) done =
    let rest = project es (done ++ e ∷ []) in
    if is_iterable (keys_of e) then rest else (false, done ++ e ∷ [])

abbrev message_of : Refusal → String
message_of (rejected code reason) = reason
message_of (validation_error code message) = message
message_of (identity_violation message) = message
message_of (capability_violation message) = message
message_of (invalid_transition message) = message
message_of (thrown message) = message
message_of (commit_failure x) =
    "AtomicCommitFailureError: state/event commit failed; state rolled back and no partial event batch was committed"

-- What a parameter of the kernel throws has the name of a plain error.
abbrev name_of : Refusal → String
name_of (rejected code reason) = ""
name_of (validation_error code message) = "KernelValidationError"
name_of (identity_violation message) = "KernelIdentityViolationError"
name_of (capability_violation message) = "KernelCapabilityViolationError"
name_of (invalid_transition message) = "InvalidStateTransitionError"
name_of (thrown message) = "Error"
name_of (commit_failure x) = "AtomicCommitFailureError"

abbrev missing_field : Refusal → Option String
missing_field (validation_error code message) =
    if starts_with code "MISSING_" then some (lower_case (slice code 8 (len code))) else none
missing_field x = none

abbrev is_unbalanced : String → Bool
is_unbalanced raw = contains raw "INV_002" || contains raw "postings must balance"

-- The message that the `catch` of `submit` answers.
unfoldable pub normalized_error : Refusal → String
normalized_error x =
    let raw = message_of x in
    if is_unbalanced raw
    then join "ConstitutionalViolationError: INV-002 VIOLATION: " raw
    else elim (missing_field x) [
      | some name ↦ join "VALIDATION: required field '" (join name "' is missing")
      | none ↦ raw
    ]

abbrev error_type_of : String → Refusal → String
error_type_of normalized x =
    if contains normalized "INV-002" then "ConstitutionalViolationError" else name_of x

abbrev code_name : RejectionCode → String
code_name invariant_violation = "InvariantViolation"
code_name authority_boundary_violation = "AuthorityBoundaryViolation"
code_name execution_gate_failed = "ExecutionGateFailed"

-- A result that says REJECTED is answered as it is, and an error is caught.
abbrev pub refusal_answer : CommandEnvelope → Map GateResult → Refusal → BusAnswer
refusal_answer c gates (rejected code reason) =
    refuses c gates (some reason) (some (code_name code))
refusal_answer c gates x =
    refuses c gates (some (normalized_error x)) (some (error_type_of (normalized_error x) x))

abbrev not_iterable : String
not_iterable = "keys is not iterable"

abbrev pub projection_answer : CommandEnvelope → Map GateResult → Acceptance → Bool → BusAnswer
projection_answer c gates a true = record {
  accepted = true;
  command_id = c.command_id;
  correlation_id = c.correlation_id;
  events = a.events;
  transitions = a.transitions;
  gates = gates;
  error = none;
  error_type = none;
}
projection_answer c gates a false = refuses c gates (some not_iterable) (some "TypeError")

-- Behind the call of the kernel.
abbrev pub finished :
    CommandEnvelope
    → Map GateResult
    → CommandBus
    → Result Refusal Acceptance × KernelState
    → BusAnswer × CommandBus
finished c gates s (ok a, k) =
    let (projected, events) = project a.events s.projected in
    (
      projection_answer c gates a projected,
      record {
        kernel_state = k;
        capability_engine = materialize_authority_effects c s.capability_engine;
        projected = events;
      },
    )
finished c gates s (err x, k) = (refusal_answer c gates x, record s { kernel_state = k })
