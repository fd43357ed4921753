-- ===== src/Server/CommandBus/Examples.antt =====
-- The registration of an asset by an agent, through the whole bus, and one without an identity.
use sovr_protocol.Prelude.{
  ◌≡◌, refl, String, true, false, none, some, [], any, select, find_first, includes, ◌⊎◌,
}
use sovr_protocol.Prelude.Maps.{lookup, insert}
use sovr_protocol.Prelude.Result.{Result, ok, err}
use sovr_protocol.Prelude.Value.{
  Value, undefined, bool, str, arr, obj, nil, cons, field, end, has_field, get, get_field, truthy,
  coalesce, or_else, values, set_field, find_item, any_item, includes_text, is_text,
}
use sovr_protocol.Prelude.Text.{text_of}
use sovr_protocol.Server.EventStore.{
  StoreError, memory_only, empty_store, make_envelope, validate_causation, build_envelope,
  commit_envelope, commit_inputs, persist, append_attempt, append_many_atomic, append,
}
use sovr_protocol.Server.CapabilityEngine.{
  CapabilityEngine, GrantedCapability, new_engine, grants_of, grant, matches_scope, cap_matches,
  covers, scan, decide, held_or, unheld, remember, cached, check,
}
use sovr_protocol.Server.CapabilityEngine as CapabilityEngine
use sovr_protocol.Execution.StateRegistry.{new_registry, key, has_state, get_state}
use sovr_protocol.Execution.StateRegistry.Laws.{state_at}
use sovr_protocol.Execution.AtomicCommit.{apply_updates, prepare}
use sovr_protocol.Execution.AtomicCommit as AtomicCommit
use sovr_protocol.Execution.AuthorityBoundary.{
  is_internal_system_command, in_scope, find_matching_grant, deny,
}
use sovr_protocol.Execution.AuthorityBoundary as AuthorityBoundary
use sovr_protocol.Execution.ExecutionGates as ExecutionGates
use sovr_protocol.Execution.Invariants.{enforce_command, enforce_sovereignty}
use sovr_protocol.Execution.Kernel.{
  Kernel, resolve_aggregate_id, command_aggregate_id, identity_check, capability_check,
  evaluate_instructions,
}
use sovr_protocol.Execution.Kernel.Audits.{audit_input, audits_of, append_each}
use sovr_protocol.Execution.Kernel.Plan.{find_transition}
use sovr_protocol.Execution.Kernel.Plan.Events.{
  build_input, plan_event, plan_events, plan_transitions_and_events, updates_of,
}
use sovr_protocol.Execution.Kernel.Execute.{
  boundary_check, authority_check, gate_check, sovereignty_check, run_checks, admit, stamped,
  audits, audited, boundary_audits, authority_audits, gate_audits, execute,
}
use sovr_protocol.Server.CommandBus.{
  BusCommand, BusEnvironment, Moment, CommandBus, BusAnswer, normalize_command_name,
  normalize_command_envelope, machine_name_for, coverage_of, build_command_coverage,
  get_command_coverage, identity_gate, capability_gate, policy_gate, constitutional_gate, kernel_at,
  knows, amount_of, grants_authority,
}
use sovr_protocol.Server.CommandBus.Submit.{project, materialize_authority_effects}
use sovr_protocol.Server.CommandBus.Submit.Steps.{
  run_kernel, with_meta, constitutional_step, coverage_step, policy_step, capability_step,
  submit_normalized, submit, first_checks, engine_after,
}
use sovr_protocol.Server.CommandBus.Gates.{IsPassed, covered_command}
use sovr_protocol.Server.CommandBus.Effects.{IsUnknownAnswer, IsCommitted, kernel_for}
use sovr_protocol.Server.CommandBus.Answers.{
  IsKept, IsAuditedRefusal, IsMisprojected, submit_accepted, submit_rejected, submit_agent,
}

abbrev command_def : Value
command_def = obj (
    field "domain" (str "vault") (
      field "aggregate" (str "asset") (
        field "lifecycle_exempt" (bool true) (
          field "resulting_events"
            (obj (field "success" (arr (cons (str "vault.asset.registered") nil)) end)) end))))

abbrev event_def : Value
event_def = obj (field "aggregate" (str "asset") (field "source_domain" (str "vault") end))

abbrev kernel : Kernel
kernel = record {
  corpus = record {
    commands = obj (field "vault.asset.register" command_def end);
    events = obj (field "vault.asset.registered" event_def end);
    machines = nil;
    rules = λ name. [];
  };
  authority = record {
    is_system_actor = λ a. false;
    get_actor_capabilities = λ a. ok [];
    matches = λ pattern text. false;
    big_int = λ s. err "SyntaxError";
    local_time = λ zone. (1, 12);
    to_iso_string = λ t. "";
    now = 1000;
  };
  evaluators = [];
  gates_of = λ def. [];
  initial_state = λ domain aggregate. none;
  capability_check = λ actor capability scope. true;
  evaluate = λ request rule. ok true;
  random_uuid = λ n. "uuid";
  stamps = λ n. record { event_id = "e1"; timestamp = "2026-01-01T00:00:00.000Z" };
  disk = memory_only;
}

abbrev held : GrantedCapability
held = record {
  capability_id = "vault.asset.register";
  actor_id = "alice";
  scope_pattern = "*";
  granted_by = some "root";
  expires_at = none;
  conditions = undefined;
}

abbrev bus : CommandBus
bus = record {
  kernel_state = record { registry = new_registry; store = empty_store true true };
  capability_engine = grant held (new_engine []);
  projected = [];
}

abbrev env : BusEnvironment
env = record {
  capabilities = record { matches = λ p s. false; time_of = λ s. none; dev_auto_grant = false };
  constraints_of = λ g. none;
  exceeds = λ v n. false;
  machines = end;
  exemptions = undefined;
}

abbrev moment : Moment
moment = record {
  now = 1000;
  kernel = kernel;
  decision_id = "d1";
  random_uuid = "u1";
  stamp = record { event_id = "e1"; timestamp = "2026-01-01T00:00:00.000Z" };
}

abbrev register : String → BusCommand
register actor_id = record {
  envelope = record {
    command_name = "asset.register";
    command_id = "c1";
    correlation_id = "corr-1";
    source_domain = "vault";
    identity_context = record {
      identity_id = "i1";
      actor_id = actor_id;
      actor_type = "ai_agent";
      optional = end;
    };
    capability_id = "vault.asset.register";
    scope = "*";
    payload = obj (field "asset_id" (str "a1") end);
    meta = undefined;
  };
  aggregate = "";
}

abbrev answer_of : Result StoreError BusAnswer → BusAnswer
answer_of (ok a) = a
answer_of (err x) = record {
  accepted = false;
  command_id = "";
  correlation_id = "";
  events = [];
  transitions = [];
  gates = [];
  error = none;
  error_type = none;
}

abbrev answer : String → BusAnswer
answer actor_id = answer_of (submit env moment (register actor_id) bus).0

answered :
    ((submit env moment (register "alice") bus).0 ≡ ok (answer "alice"))
    × ((answer "alice").accepted ≡ true)
unfolding submit submit_normalized capability_step policy_step coverage_step constitutional_step
    with_meta run_kernel project first_checks engine_after materialize_authority_effects
    normalize_command_name normalize_command_envelope machine_name_for coverage_of
    build_command_coverage get_command_coverage identity_gate capability_gate policy_gate
    constitutional_gate kernel_at new_engine grants_of grant matches_scope cap_matches covers scan
    decide held_or unheld remember cached check get_field CapabilityEngine.is_expired execute
    audited audits audits_of audit_input boundary_audits authority_audits gate_audits append_each
    append admit run_checks boundary_check identity_check authority_check gate_check
    sovereignty_check capability_check evaluate_instructions enforce_command enforce_sovereignty
    command_aggregate_id resolve_aggregate_id plan_transitions_and_events plan_events plan_event
    find_transition build_input updates_of stamped AtomicCommit.execute prepare
    AuthorityBoundary.check ExecutionGates.check append_many_atomic append_attempt commit_inputs
    build_envelope validate_causation commit_envelope persist empty_store make_envelope has_state
    get_state key new_registry has_field get truthy coalesce or_else values set_field find_item
    any_item includes_text is_text text_of any select find_first includes find_matching_grant
    in_scope AuthorityBoundary.is_expired AuthorityBoundary.is_revoked is_internal_system_command
    lookup insert
answered = (refl, refl)

unanswered :
    ((submit env moment (register "") bus).0 ≡ ok (answer "")) × ((answer "").accepted ≡ false)
unfolding submit submit_normalized capability_step policy_step coverage_step constitutional_step
    with_meta run_kernel project first_checks engine_after materialize_authority_effects
    normalize_command_name normalize_command_envelope machine_name_for coverage_of
    build_command_coverage get_command_coverage identity_gate capability_gate policy_gate
    constitutional_gate kernel_at new_engine grants_of grant matches_scope cap_matches covers scan
    decide held_or unheld remember cached check get_field CapabilityEngine.is_expired execute
    audited audits audits_of audit_input boundary_audits authority_audits gate_audits append_each
    append admit run_checks boundary_check identity_check authority_check gate_check
    sovereignty_check capability_check evaluate_instructions enforce_command enforce_sovereignty
    command_aggregate_id resolve_aggregate_id plan_transitions_and_events plan_events plan_event
    find_transition build_input updates_of stamped AtomicCommit.execute prepare
    AuthorityBoundary.check ExecutionGates.check append_many_atomic append_attempt commit_inputs
    build_envelope validate_causation commit_envelope persist empty_store make_envelope has_state
    get_state key new_registry has_field get truthy coalesce or_else values set_field find_item
    any_item includes_text is_text text_of any select find_first includes find_matching_grant
    in_scope AuthorityBoundary.is_expired AuthorityBoundary.is_revoked is_internal_system_command
    lookup insert
unanswered = (refl, refl)

submit_accepted_example :
    IsPassed env moment
      (normalize_command_envelope kernel (register "alice")).envelope
      bus.capability_engine
    × IsCommitted
        (kernel_for env moment (normalize_command_envelope kernel (register "alice")) bus)
        (covered_command env moment (normalize_command_envelope kernel (register "alice")).envelope)
        bus.kernel_state
        bus.projected
        (answer "alice")
        (submit env moment (register "alice") bus).1.kernel_state
submit_accepted_example =
    submit_accepted env moment (register "alice") bus (answer "alice") answered.0 answered.1

submit_rejected_example :
    IsKept env moment (register "") bus (submit env moment (register "") bus).1.kernel_state
    ⊎ IsAuditedRefusal env moment
        (register "")
        bus
        (submit env moment (register "") bus).1.kernel_state
    ⊎ ((knows kernel (normalize_command_envelope kernel (register "")).envelope.command_name
          ≡ false)
        × IsUnknownAnswer moment
            (normalize_command_envelope kernel (register ""))
            bus.kernel_state
            (answer "")
            (submit env moment (register "") bus).1.kernel_state)
    ⊎ IsMisprojected env moment (register "") bus
unfolding new_registry state_at lookup
submit_rejected_example =
    submit_rejected env moment (register "") bus (answer "") (λ j e. cc) unanswered.0 unanswered.1

submit_agent_example :
    (grants_authority (normalize_command_envelope kernel (register "alice")).envelope.command_name
      ≡ false)
    × (env.exceeds
          (amount_of (normalize_command_envelope kernel (register "alice")).envelope.payload)
          1000000
        ≡ false)
submit_agent_example =
    submit_agent env moment (register "alice") bus (answer "alice") answered.0 answered.1 refl
