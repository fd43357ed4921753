-- ===== src/Execution/Kernel/Examples.antt =====
-- The registration of an asset, by an actor that may and by one that may not.
use sovr_protocol.Prelude.{
  ◌≡◌, refl, String, true, false, none, List, [], ◌∷◌, ◌++◌, map, length, All, any, select,
  find_first, includes,
}
use sovr_protocol.Prelude.Maps.{lookup, insert}
use sovr_protocol.Prelude.Result.{Result, ok, err}
use sovr_protocol.Prelude.Value.{
  Value, undefined, str, arr, obj, nil, cons, field, end, has_field, get, truthy, coalesce, or_else,
  values, set_field, find_item, any_item, includes_text, is_text,
}
use sovr_protocol.Prelude.Text.{text_of}
use sovr_protocol.Server.EventStore.{
  AppendInput, memory_only, empty_store, make_envelope, validate_causation, build_envelope,
  commit_envelope, commit_inputs, persist, append_attempt, append_many_atomic, append,
}
use sovr_protocol.Server.EventStore.Atomic.{envelope_of}
use sovr_protocol.Execution.StateRegistry.{StateRegistry, new_registry, key, has_state, get_state}
use sovr_protocol.Execution.StateRegistry.Laws.{state_at}
use sovr_protocol.Execution.AtomicCommit.{apply_updates, prepare}
use sovr_protocol.Execution.AtomicCommit as AtomicCommit
use sovr_protocol.Execution.AuthorityBoundary.{
  AuthorityViolationType, CapabilityGrant, Environment, is_internal_system_command, is_expired,
  is_revoked, in_scope, find_matching_grant, deny,
}
use sovr_protocol.Execution.AuthorityBoundary as AuthorityBoundary
use sovr_protocol.Execution.ExecutionGates as ExecutionGates
use sovr_protocol.Execution.Invariants.{enforce_command, enforce_sovereignty}
use sovr_protocol.Execution.Kernel.{
  CommandEnvelope, Kernel, KernelState, Refusal, thrown, rejected, authority_boundary_violation,
  resolve_aggregate_id, command_aggregate_id, identity_check, capability_check,
  evaluate_instructions,
}
use sovr_protocol.Execution.Kernel.Audits.{authority_audit, audit_input, audits_of, append_each}
use sovr_protocol.Execution.Kernel.Plan.{find_transition}
use sovr_protocol.Execution.Kernel.Plan.Events.{
  build_input, plan_event, plan_events, plan_transitions_and_events, updates_of,
}
use sovr_protocol.Execution.Kernel.Execute.{
  Acceptance, boundary_check, authority_check, gate_check, sovereignty_check, run_checks, admit,
  stamped, audits, audited, boundary_audits, authority_audits, gate_audits, execute,
}
use sovr_protocol.Execution.Kernel.Safety.{audit_envelopes, execute_refused, execute_accepted}
use sovr_protocol.Execution.AtomicCommit.States.{IsNamed}
use sovr_protocol.Server.EventStore.Indexes.{IsIndexed}
use sovr_protocol.Server.EventStore.Causation.{IsCausal}
use sovr_protocol.Execution.Kernel.Denials.Reports.{denial}
use sovr_protocol.Execution.Kernel.Denials.{execute_denied}
use sovr_protocol.Execution.Kernel.Reachable.{started, executed, Reachable-IsSound}
use sovr_protocol.Execution.Kernel.Admission.{
  authority_input, IsAdmitted, IsLegal, execute-IsAdmitted,
}

abbrev command_def : Value
command_def = obj (
    field "domain" (str "vault") (
      field "aggregate" (str "asset") (
        field "resulting_events"
          (obj (field "success" (arr (cons (str "vault.asset.registered") nil)) end)) end)))

abbrev event_def : Value
event_def = obj (field "aggregate" (str "asset") (field "source_domain" (str "vault") end))

abbrev machine : Value
machine = obj (
    field "id" (str "state_machine:asset") (
      field "domain" (str "vault") (
        field "aggregate" (str "asset") (
          field "initial_state" (str "REGISTERED") (
            field "transitions"
              (arr (
                cons
                  (obj (
                    field "from" (str "REGISTERED") (
                      field "to" (str "VERIFIED")
                        (field "trigger" (str "vault.asset.verified") end))))
                  nil))
              end)))))

abbrev grant : CapabilityGrant
grant = record {
  grant_id = "g1";
  actor_id = "alice";
  capability = "vault.asset.register";
  scope = "*";
  granted_by = "root";
  granted_at = 0;
  expires_at = none;
  revoked_at = none;
  constraints = none;
}

abbrev kernel : List CapabilityGrant → Kernel
kernel grants = record {
  corpus = record {
    commands = obj (field "vault.asset.register" command_def end);
    events = obj (field "vault.asset.registered" event_def end);
    machines = cons machine nil;
    rules = λ name. [];
  };
  authority = record {
    is_system_actor = λ a. false;
    get_actor_capabilities = λ a. ok grants;
    matches = λ pattern text. false;
    big_int = λ s. err "SyntaxError";
    local_time = λ zone. (1, 12);
    to_iso_string = λ t. "";
    now = 1000;
  };
  evaluators = [];
  gates_of = λ def. [];
  initial_state = λ domain aggregate. none;
  capability_check = λ actor capability scope. true;
  evaluate = λ request rule. ok true;
  random_uuid = λ n. "uuid";
  stamps = λ n. record { event_id = "e1"; timestamp = "2026-01-01T00:00:00.000Z" };
  disk = memory_only;
}

abbrev start : KernelState
start = record { registry = new_registry; store = empty_store true true }

abbrev register : CommandEnvelope
register = record {
  command_name = "vault.asset.register";
  command_id = "c1";
  correlation_id = "corr-1";
  source_domain = "vault";
  identity_context = record {
    identity_id = "i1";
    actor_id = "alice";
    actor_type = "human";
    optional = end;
  };
  capability_id = "vault.asset.register";
  scope = "*";
  payload = obj (field "asset_id" (str "a1") end);
  meta = undefined;
}

abbrev accepted_of : Result Refusal Acceptance → Acceptance
accepted_of (ok a) = a
accepted_of (err x) = record { events = []; transitions = [] }

abbrev answer : Acceptance
answer = accepted_of (execute (kernel (grant ∷ [])) start register).0

registration : (execute (kernel (grant ∷ [])) start register).0 ≡ ok answer
unfolding execute audited audits audits_of audit_input boundary_audits authority_audits gate_audits
    append_each append admit run_checks boundary_check identity_check authority_check gate_check
    sovereignty_check capability_check evaluate_instructions enforce_command enforce_sovereignty
    command_aggregate_id resolve_aggregate_id plan_transitions_and_events plan_events plan_event
    find_transition build_input updates_of stamped AtomicCommit.execute prepare
    AuthorityBoundary.check ExecutionGates.check append_many_atomic append_attempt commit_inputs
    build_envelope validate_causation commit_envelope persist empty_store make_envelope has_state
    get_state key new_registry has_field get truthy coalesce or_else values set_field find_item
    any_item includes_text is_text text_of any select find_first includes find_matching_grant
    in_scope is_expired is_revoked is_internal_system_command lookup insert
registration = refl

abbrev refusal_of : Result Refusal Acceptance → Refusal
refusal_of (ok a) = thrown ""
refusal_of (err x) = x

no_grant :
    (execute (kernel []) start register).0
    ≡ err (
        rejected authority_boundary_violation
          "Actor does not hold capability 'vault.asset.register'")
unfolding execute audited audits audits_of audit_input boundary_audits authority_audits gate_audits
    append_each append admit run_checks boundary_check identity_check authority_check gate_check
    sovereignty_check capability_check evaluate_instructions enforce_command enforce_sovereignty
    deny command_aggregate_id resolve_aggregate_id plan_transitions_and_events plan_events
    plan_event find_transition build_input updates_of stamped AtomicCommit.execute prepare
    AuthorityBoundary.check ExecutionGates.check append_many_atomic append_attempt commit_inputs
    build_envelope validate_causation commit_envelope persist empty_store make_envelope has_state
    get_state key new_registry has_field get truthy coalesce or_else values set_field find_item
    any_item includes_text is_text text_of any select find_first includes find_matching_grant
    in_scope is_expired is_revoked is_internal_system_command lookup insert
no_grant = refl

-- The denial is in the log, its actor and its name in the payload alone.
denial_logged :
    let logged = audit_envelopes (kernel []) start.registry register in
    (map (λ e. e.event_name) logged ≡ "undefined" ∷ [])
    × (map (λ e. get e.payload "violation") logged ≡ str "CAPABILITY_NOT_HELD" ∷ [])
unfolding execute audited audits audits_of audit_input boundary_audits authority_audits gate_audits
    append_each append admit run_checks boundary_check identity_check authority_check gate_check
    sovereignty_check capability_check evaluate_instructions enforce_command enforce_sovereignty
    deny command_aggregate_id resolve_aggregate_id plan_transitions_and_events plan_events
    plan_event find_transition build_input updates_of stamped AtomicCommit.execute prepare
    AuthorityBoundary.check ExecutionGates.check append_many_atomic append_attempt commit_inputs
    build_envelope validate_causation commit_envelope persist empty_store make_envelope has_state
    get_state key new_registry has_field get truthy coalesce or_else values set_field find_item
    any_item includes_text is_text text_of any select find_first includes find_matching_grant
    in_scope is_expired is_revoked is_internal_system_command lookup insert
denial_logged = (refl, refl)

execute_refused_example :
    let after = (execute (kernel []) start register).1 in
    (after.store.events ≡ start.store.events ++ audit_envelopes (kernel []) start.registry register)
    × ((j : String) → state_at after.registry j ≡ state_at start.registry j)
unfolding new_registry state_at lookup
execute_refused_example = execute_refused (kernel []) start register (λ j e. cc) no_grant

execute_accepted_example :
    let after = (execute (kernel (grant ∷ [])) start register).1 in
    (inputs : List AppendInput) × (admit (kernel (grant ∷ [])) start.registry register
      ≡ ok (answer.transitions, inputs))
    × (answer.events
        ≡ map envelope_of (
            stamped
              (kernel (grant ∷ [])).stamps
              (length (audits (kernel (grant ∷ [])) start.registry register))
              inputs))
    × (after.store.events
        ≡ (start.store.events ++ audit_envelopes (kernel (grant ∷ [])) start.registry register)
          ++ answer.events)
    × (after.registry ≡ apply_updates start.registry (updates_of register answer.transitions))
execute_accepted_example =
    execute_accepted (kernel (grant ∷ [])) start register {a = answer} registration

execute-IsAdmitted_example :
    IsAdmitted (kernel (grant ∷ [])) start.registry register
    × All (IsLegal (kernel (grant ∷ [])) start.registry) answer.transitions
execute-IsAdmitted_example =
    execute-IsAdmitted (kernel (grant ∷ [])) start register {a = answer} registration

-- The asset stands in REGISTERED, from which the machine does not let it be registered again.
abbrev registered : StateRegistry
registered = apply_updates new_registry (updates_of register answer.transitions)

Reachable-IsSound_example :
    let after = (execute (kernel (grant ∷ [])) start register).1 in
    IsNamed after.registry × IsIndexed after.store × IsCausal after.store
Reachable-IsSound_example =
    Reachable-IsSound (executed (kernel (grant ∷ [])) start register (started true))

execute_denied_example :
    (v : AuthorityViolationType) × ((execute (kernel []) start register).1.store.events
      ≡ start.store.events
        ++ make_envelope ((kernel []).stamps 0) (
            audit_input (
              authority_audit (
                denial
                  (authority_input (kernel []) register)
                  v
                  "Actor does not hold capability 'vault.asset.register'")))
          ∷ [])
execute_denied_example = execute_denied (kernel []) start register no_grant
