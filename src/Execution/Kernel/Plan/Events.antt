-- ===== src/Execution/Kernel/Plan/Events.antt =====
-- packages/runtime/src/execution/kernel-executor.ts: the events of a command, and the plan of it.
use Prim.Native.String.{◌++◌ as join}
use sovr_protocol.Prelude.{
  ℕ, suc, String, not, Option, none, some, List, [], ◌∷◌, ◌++◌, ◌==◌, if◌then◌else◌,
}
use sovr_protocol.Prelude.Result.{Result, ok, ◌>>=◌}
use sovr_protocol.Prelude.Value.{
  Value, str, arr, obj, Items, nil, cons, field, end, get, truthy, coalesce, set_field, fields_of,
}
use sovr_protocol.Prelude.Text.{text_of}
use sovr_protocol.Server.EventStore.{AppendInput}
use sovr_protocol.Execution.StateRegistry.{StateRegistry}
use sovr_protocol.Execution.AtomicCommit.{AtomicStateUpdate}
use sovr_protocol.Execution.Kernel.{
  CommandEnvelope, Kernel, Refusal, identity_value, resolve_aggregate_id,
}
use sovr_protocol.Execution.Kernel.Plan.{PlannedTransition, find_transition, with_transition}

unfoldable pub build_input :
    String → Value → CommandEnvelope → String → String → Option PlannedTransition → AppendInput
build_input event def request aggregate id transition =
    let named = set_field (fields_of request.payload) (join aggregate "_id") (str id) in
    let id_field = get def "aggregate_id_field" in
    let who = request.identity_context in
    record {
      event_name = event;
      event_version = some (text_of (coalesce (get def "version") (str "1.0.0")));
      aggregate = aggregate;
      aggregate_id = id;
      source_domain = text_of (coalesce (get def "source_domain") (str request.source_domain));
      command_id = request.command_id;
      triggering_command = request.command_name;
      causation_id = request.correlation_id;
      correlation_id = request.correlation_id;
      actor_id = who.actor_id;
      identity_context = identity_value who;
      policy_decision_id =
          text_of
            (coalesce (get request.meta "policy_decision_id") (str "policy_decision_unrecorded"));
      capability_id = request.capability_id;
      payload = obj (
          with_transition transition
            (if truthy id_field then set_field named (text_of id_field) (str id) else named));
      projection_effect =
          coalesce (get def "projection_effect")
            (obj (field "target" (str "none") (field "operation" (str "no_op") end)));
      audit = obj (
          field "constitutional_rules_referenced"
            (coalesce (get def "constitutional_refs")
              (arr (cons (str "INV-001") (cons (str "INV-005") (cons (str "INV-008") nil)))))
            (field "enforcement_actions"
              (arr (
                cons (str "kernel_executor")
                  (cons (str "instruction_evaluator") (cons (str "atomic_commit") nil))))
              (field "retention_class" (coalesce (get def "retention_class") (str "permanent"))
                end)));
    }

abbrev pub option_list {ℓ} : {A : Type ℓ} → Option A → List A
option_list none = []
option_list (some a) = a ∷ []

-- One round of the loop: the event's transition and its input.
unfoldable pub plan_event :
    Kernel
    → StateRegistry
    → CommandEnvelope
    → Value
    → ℕ
    → String
    → Value
    → Result Refusal (Option PlannedTransition × AppendInput)
unfolding find_transition build_input
plan_event k r request def i event event_def =
    let aggregate = text_of (coalesce (get event_def "aggregate") (get def "aggregate")) in
    let id = resolve_aggregate_id (k.random_uuid i) request event_def aggregate in
    find_transition k r request event (coalesce (get event_def "source_domain") (get def "domain"))
      aggregate id
    >>= λ t. ok (t, build_input event event_def request aggregate id t)

abbrev pub added :
    Option PlannedTransition
    → AppendInput
    → List PlannedTransition × List AppendInput
    → Result Refusal (List PlannedTransition × List AppendInput)
added t input (ts, inputs) = ok (option_list t ++ ts, input ∷ inputs)

-- A round's transition and input before those of the later rounds.
abbrev pub joined :
    Result Refusal (List PlannedTransition × List AppendInput)
    → Option PlannedTransition × AppendInput
    → Result Refusal (List PlannedTransition × List AppendInput)
joined rest (t, input) = rest >>= added t input

-- Behind the first `i` events. An event that the corpus does not define is passed over.
unfoldable pub plan_events :
    Kernel
    → StateRegistry
    → CommandEnvelope
    → Value
    → ℕ
    → Items
    → Result Refusal (List PlannedTransition × List AppendInput)
unfolding plan_event
plan_events k r request def i nil = ok ([], [])
plan_events k r request def i (cons name names) =
    let event = text_of name in
    let event_def = get k.corpus.events event in
    let rest = plan_events k r request def (suc i) names in
    if not (truthy event_def)
    then rest
    else (plan_event k r request def i event event_def >>= joined rest)

-- `commandDef.resulting_events?.success ?? []`
abbrev pub success_events : Value → Items
success_events def = elim (get (get def "resulting_events") "success") [ arr xs ↦ xs | _ ↦ nil ]

unfoldable pub plan_transitions_and_events :
    Kernel
    → StateRegistry
    → CommandEnvelope
    → Value
    → Result Refusal (List PlannedTransition × List AppendInput)
unfolding plan_events
plan_transitions_and_events k r request def = plan_events k r request def 1 (success_events def)

-- `transitions.filter(t => t.toState).map(…)`
unfoldable pub updates_of : CommandEnvelope → List PlannedTransition → List AtomicStateUpdate
updates_of request [] = []
updates_of request (t ∷ ts) =
    let rest = updates_of request ts in
    if t.to_state == ""
    then rest
    else record {
      aggregate = t.aggregate;
      id = t.aggregate_id;
      state = t.to_state;
      domain = t.domain;
      transition = some (record {
        aggregate = t.aggregate;
        aggregate_id = t.aggregate_id;
        domain = t.domain;
        from_state = t.from_state;
        to_state = t.to_state;
        trigger = t.trigger;
        machine_id = t.machine_id;
        machine_name = t.machine_name;
        transition_name = str t.transition_name;
        command_id = request.command_id;
        correlation_id = request.correlation_id;
        event_name = t.trigger;
      });
    }
      ∷ rest
