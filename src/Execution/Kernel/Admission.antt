-- ===== src/Execution/Kernel/Admission.antt =====
-- What the checks of packages/runtime/src/execution/kernel-executor.ts say of a command that passes
-- them, and of its plan.
use sovr_protocol.Prelude.{
  ℕ, suc, ◌≡◌, refl, sym, subst, ◌⊎◌, inl, inr, String, Bool, true, false, Option, none, some, List,
  [], ◌∷◌, ◌++◌, arith, Bool-cases, Option-cases, All, All-append,
}
use sovr_protocol.Prelude.Maps.{lookup}
use sovr_protocol.Prelude.Result.{Result, ok, err, ◌>>=◌, bind_ok}
use sovr_protocol.Prelude.Value.{
  Value, str, Items, nil, cons, get, truthy, or_else, values, find_item, any_item, is_text,
}
use sovr_protocol.Prelude.Text.{text_of}
use sovr_protocol.Server.EventStore.{AppendInput}
use sovr_protocol.Execution.StateRegistry.{StateRegistry, has_state, get_state, key}
use sovr_protocol.Execution.AuthorityBoundary.{
  AuthorityCheckInput, AuthorityCheckResult, granted, denied,
}
use sovr_protocol.Execution.AuthorityBoundary as AuthorityBoundary
use sovr_protocol.Execution.AuthorityBoundary.Grants.{IsAuthorised, check-IsAuthorised}
use sovr_protocol.Execution.EventEnforcement.{EnforcementResult}
use sovr_protocol.Execution.Invariants.{is_empty, enforce_sovereignty, from_matches, from_of}
use sovr_protocol.Execution.Kernel.{
  CommandEnvelope, Kernel, KernelState, Refusal, enforced, rejected, execution_gate_failed,
  capability_check, evaluate_instructions, require, authorised, command_aggregate_id,
  required_capability,
}
use sovr_protocol.Execution.Kernel.Plan.{
  PlannedTransition, Endpoints, creation, planned, machine_of, text_option, lookup_transition,
  find_transition,
}
use sovr_protocol.Execution.Kernel.Plan.Events.{
  option_list, added, joined, plan_event, plan_events, plan_transitions_and_events, success_events,
}
use sovr_protocol.Execution.Kernel.Execute.{
  Acceptance, definition_of, authority_check, gate_check, gate_result, gate_reason, boundary_check,
  sovereignty_check, is_identified, checks, run_checks, admit, execute,
}
use sovr_protocol.Execution.Kernel.Safety.{execute_accepted}

-- What the authority check is asked.
abbrev pub authority_input : Kernel → CommandEnvelope → AuthorityCheckInput
authority_input k request = record {
  actor_id = request.identity_context.actor_id;
  command_name = request.command_name;
  aggregate_id = command_aggregate_id k request (definition_of k request);
  required_capability = required_capability request (definition_of k request);
  payload = request.payload;
  correlation_id = request.correlation_id;
  command_id = request.command_id;
}

authorised_ok :
    (r : Result String AuthorityCheckResult)
    → authorised r ≡ ok tt
    → (id : Option String) × (r ≡ ok (granted id))
authorised_ok (ok (granted id)) h = (id, refl)
authorised_ok (ok (denied v reason)) h = cc
authorised_ok (err x) h = cc

require_ok : (test : Bool) (x : Refusal) {u : Unit {0}} → require test x ≡ ok u → test ≡ true
require_ok true x h = refl
require_ok false x h = cc

-- The transition starts where the aggregate is: it creates an aggregate that has no state, in the
-- initial state of a machine for its domain and type, or such a machine has it from the current
-- state, for the event.
pub IsLegal : Kernel → StateRegistry → PlannedTransition → Type 0
IsLegal k r t =
    (domain : Value) × (text_option domain ≡ t.domain)
    × let machine = machine_of k domain t.aggregate in
      (truthy machine ≡ true)
      × (((has_state r t.aggregate t.aggregate_id t.domain ≡ false)
            × (t.to_state ≡ (creation machine).to))
          ⊎ ((e : Endpoints) × (lookup_transition machine
                  (get_state k.initial_state r t.aggregate t.aggregate_id t.domain) t.trigger
                ≡ some e)
              × (t.from_state ≡ e.from)
              × (t.to_state ≡ e.to)))

find_transition-IsLegal :
    (k : Kernel) (r : StateRegistry) (request : CommandEnvelope) (event : String) (domain : Value)
    (aggregate id : String) {t : Option PlannedTransition}
    → find_transition k r request event domain aggregate id ≡ ok t
    → All (IsLegal k r) (option_list t)
unfolding find_transition IsLegal
find_transition-IsLegal k r request event domain aggregate id {t = none} h = tt
find_transition-IsLegal k r request event domain aggregate id {t = some t} h =
    let machine = machine_of k domain aggregate in
    let key_domain = text_option domain in
    let found =
      lookup_transition machine (get_state k.initial_state r aggregate id key_domain) event in
    let governed : truthy machine ≡ true = ground (arith, h) in
    elim (Bool-cases (has_state r aggregate id key_domain)) [
      | inr f ↦
          let made : t ≡ planned machine key_domain aggregate id event (creation machine) =
            ground (arith, governed, f, h) in
          (subst (IsLegal k r) (sym made) (domain, refl, (governed, inl (f, refl))), tt)
      | inl f ↦ elim (Option-cases found) [
        | inl n ↦ ground (arith, governed, f, n, h)
        | inr (e, g) ↦
            let made : t ≡ planned machine key_domain aggregate id event e =
              ground (arith, governed, f, g, h) in
            (subst (IsLegal k r) (sym made) (domain, refl, (governed, inr (e, g, refl, refl))), tt)
      ]
    ]

plan_event-IsLegal :
    (k : Kernel) (r : StateRegistry) (request : CommandEnvelope) (def : Value) (i : ℕ)
    (event : String) (event_def : Value) {t : Option PlannedTransition} {input : AppendInput}
    → plan_event k r request def i event event_def ≡ ok (t, input)
    → All (IsLegal k r) (option_list t)
unfolding plan_event
plan_event-IsLegal k r request def i event event_def {t} h =
    let (u, found, same) = bind_ok _ _ h in
    let one : u ≡ t = ground (arith, same) in
    subst (λ v. All (IsLegal k r) (option_list v)) one
      (find_transition-IsLegal k r request event _ _ _ {t = u} found)

plan_events-IsLegal :
    (k : Kernel) (r : StateRegistry) (request : CommandEnvelope) (def : Value) (i : ℕ)
    (names : Items) {ts : List PlannedTransition} {inputs : List AppendInput}
    → plan_events k r request def i names ≡ ok (ts, inputs)
    → All (IsLegal k r) ts
unfolding plan_events
plan_events-IsLegal k r request def i nil {ts} h =
    let one : ts ≡ [] = ground (arith, h) in subst (All (IsLegal k r)) (sym one) tt
plan_events-IsLegal k r request def i (cons name names) {ts} {inputs} h =
    let event = text_of name in
    let event_def = get k.corpus.events event in
    elim (Bool-cases (truthy event_def)) [
      | inr e ↦
          plan_events-IsLegal k r request def (suc i) names {ts = ts} {inputs = inputs}
            (ground (arith, e, h))
      | inl e ↦
          let rest = plan_events k r request def (suc i) names in
          let bound : (plan_event k r request def i event event_def >>= joined rest)
              ≡ ok (ts, inputs) =
            ground (arith, e, h) in
          let ((t, input), first, more) =
            bind_ok (plan_event k r request def i event event_def) (joined rest) bound in
          let ((us, ins), later, same) = bind_ok rest (added t input) more in
          let one : option_list t ++ us ≡ ts = ground (arith, same) in
          subst (All (IsLegal k r)) one (
            All-append (IsLegal k r) (option_list t) us
              (plan_event-IsLegal k r request def i event event_def {t = t} {input = input} first)
              (plan_events-IsLegal k r request def (suc i) names {ts = us} {inputs = ins} later))
    ]

plan-IsLegal :
    (k : Kernel) (r : StateRegistry) (request : CommandEnvelope) (def : Value)
    {ts : List PlannedTransition} {inputs : List AppendInput}
    → plan_transitions_and_events k r request def ≡ ok (ts, inputs)
    → All (IsLegal k r) ts
unfolding plan_transitions_and_events
plan-IsLegal k r request def {ts} {inputs} h =
    plan_events-IsLegal k r request def 1 (success_events def) {ts = ts} {inputs = inputs} h

-- The checks that a command has passed when it has a plan.
pub record IsAdmitted (k : Kernel) (r : StateRegistry) (request : CommandEnvelope) : Type 0 where
  pub grant_id : Option String
  pub known : truthy (definition_of k request) ≡ true
  pub identified : is_identified request ≡ true
  pub bounded : boundary_check request ≡ ok tt
  pub authority : IsAuthorised k.authority (authority_input k request) grant_id
  pub gated : (gate_result k request (definition_of k request)).passed ≡ true
  pub capable : capability_check k request (definition_of k request) ≡ ok tt
  pub valid : evaluate_instructions k request ≡ ok tt

authority_check_ok :
    (k : Kernel) (request : CommandEnvelope) {u : Unit {0}}
    → authority_check k request (definition_of k request) ≡ ok u
    → (id : Option String) × IsAuthorised k.authority (authority_input k request) id
unfolding authority_check
authority_check_ok k request h =
    let (id, same) =
      authorised_ok (AuthorityBoundary.check k.authority (authority_input k request)).0 h in
    (id, check-IsAuthorised k.authority (authority_input k request) {id = id} same)

gate_check_ok :
    (k : Kernel) (request : CommandEnvelope) {u : Unit {0}}
    → gate_check k request (definition_of k request) ≡ ok u
    → (gate_result k request (definition_of k request)).passed ≡ true
unfolding gate_check
gate_check_ok k request {u} h =
    let r = gate_result k request (definition_of k request) in
    require_ok r.passed (rejected execution_gate_failed (gate_reason r.failure)) {u = u} h

run_checks_ok :
    (cs : List (Result Refusal (Unit {0}))) {u : Unit {0}}
    → run_checks cs ≡ ok u
    → All (λ c. c ≡ ok tt) cs
unfolding run_checks
run_checks_ok [] h = tt
run_checks_ok (c ∷ cs) h =
    let (u, first, rest) = bind_ok c (λ _. run_checks cs) h in (first, run_checks_ok cs rest)

admit_lem :
    (k : Kernel) (r : StateRegistry) (request : CommandEnvelope)
    {p : List PlannedTransition × List AppendInput}
    → admit k r request ≡ ok p
    → IsAdmitted k r request
      × (plan_transitions_and_events k r request (definition_of k request) ≡ ok p)
unfolding admit
admit_lem k r request h =
    let def = definition_of k request in
    let (u, passed, plan) =
      bind_ok (run_checks (checks k r request)) (λ _. plan_transitions_and_events k r request def)
        h in
    let (
      known,
      (
        identified,
        (bounded, (issued, (authority, (supreme, (gated, (sovereign, (capable, (valid, end_)))))))),
      ),
    ) =
      run_checks_ok (checks k r request) passed in
    let (id, granted_) = authority_check_ok k request authority in
    (
      record {
        grant_id = id;
        known = require_ok (truthy def) _ known;
        identified = require_ok (is_identified request) _ identified;
        bounded = bounded;
        authority = granted_;
        gated = gate_check_ok k request gated;
        capable = capable;
        valid = valid;
      },
      plan,
    )

-- A command that is accepted is known and names its actor, its authority is granted by the authority
-- check, all its fatal gates passed, its capability and its rules were found good, and each of its
-- transitions is one that a compiled machine has from the state of the aggregate before the command.
pub execute-IsAdmitted :
    (k : Kernel) (s : KernelState) (request : CommandEnvelope) {a : Acceptance}
    → (execute k s request).0 ≡ ok a
    → IsAdmitted k s.registry request × All (IsLegal k s.registry) a.transitions
execute-IsAdmitted k s request {a} h =
    let (inputs, plan, events, log, registry) = execute_accepted k s request {a = a} h in
    let (passed, planned_) = admit_lem k s.registry request plan in
    (
      passed,
      plan-IsLegal k s.registry request (definition_of k request) {ts = a.transitions}
          {inputs = inputs} planned_,
    )

get_state_absent :
    (resolver : Option String → String → Option String) (r : StateRegistry) (aggregate id : String)
    (domain : Option String)
    → has_state r aggregate id domain ≡ false
    → resolver domain aggregate ≡ none
    → get_state resolver r aggregate id domain ≡ "INIT"
unfolding get_state has_state
get_state_absent resolver r aggregate id domain absent unresolved =
    ground (arith, absent, unresolved, Option-cases (lookup (key aggregate id domain) r.states))

enforce_sovereignty_init :
    (machines : Items) (aggregate trigger : String)
    → let machine = find_item (λ m. is_text (get m "aggregate") aggregate) machines in
      any_item (λ t. from_matches (from_of t) "INIT") (values (get machine "transitions")) ≡ false
      → (enforce_sovereignty machines aggregate "INIT" trigger).allowed ≡ true
unfolding enforce_sovereignty
enforce_sovereignty_init machines aggregate trigger undeclared =
    let machine = find_item (λ m. is_text (get m "aggregate") aggregate) machines in
    elim (Bool-cases (truthy machine)) [
      | inr e ↦ rw e refl
      | inl e ↦ elim (Bool-cases (is_empty (values (get machine "transitions")))) [
        | inl f ↦ rw (e, f) refl
        | inr f ↦ rw (e, f, undeclared) refl
      ]
    ]

enforced_allowed : (e : EnforcementResult) → e.allowed ≡ true → enforced e ≡ ok tt
enforced_allowed e h = rw h refl

-- The check on state sovereignty looks for a state under the aggregate's identifier as its type. Where
-- nothing is stored there and nothing resolves an initial state, and the machine has no transition
-- from INIT, it lets every command through, whatever state the aggregate is in.
pub sovereignty_check_blind :
    (k : Kernel) (r : StateRegistry) (request : CommandEnvelope) (def : Value)
    → let id = command_aggregate_id k request def in
      let domain = text_of (or_else (get def "domain") (str "default")) in
      let aggregate = text_of (or_else (get def "aggregate") (str "default")) in
      let machine = find_item (λ m. is_text (get m "aggregate") aggregate) k.corpus.machines in
      has_state r id id (some domain) ≡ false
      → k.initial_state (some domain) id ≡ none
      → any_item (λ t. from_matches (from_of t) "INIT") (values (get machine "transitions")) ≡ false
      → sovereignty_check k r request def ≡ ok tt
unfolding sovereignty_check
sovereignty_check_blind k r request def absent unresolved undeclared =
    let id = command_aggregate_id k request def in
    let domain = text_of (or_else (get def "domain") (str "default")) in
    let aggregate = text_of (or_else (get def "aggregate") (str "default")) in
    rw (get_state_absent k.initial_state r id id (some domain) absent unresolved) (
      enforced_allowed (enforce_sovereignty k.corpus.machines aggregate "INIT" request.command_name)
        (enforce_sovereignty_init k.corpus.machines aggregate request.command_name undeclared))
