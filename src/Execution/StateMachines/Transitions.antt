-- ===== src/Execution/StateMachines/Transitions.antt =====
-- packages/runtime/src/execution/state-machine-interpreter.ts: the transition that a trigger makes, and
-- the states of the aggregates.
use Prim.Native.String.{◌++◌ as join, slice, len, find}
use sovr_protocol.Prelude.{
  ◌+◌, String, Bool, false, not, ◌&&◌, ◌||◌, Option, none, some, List, [], ◌∷◌, ◌++◌, ◌==◌, any,
  includes, leb, is_some, or_default, if◌then◌else◌,
}
use sovr_protocol.Prelude.Maps.{Map, insert, lookup}
use sovr_protocol.Prelude.Result.{Result, ok, err}
use sovr_protocol.Prelude.Value.{Value}
use sovr_protocol.Prelude.Text.{join_with}
use sovr_protocol.Prelude.Sort.{sort}
use sovr_protocol.Execution.Vel.{ConditionAst, evaluate}
use sovr_protocol.Execution.StateMachines.Words.{trim, lower_case}
use sovr_protocol.Execution.StateMachines.{
  StateDefinition, TransitionDefinition, StateMachineDefinition, TransitionInput, Accepted,
  TransitionResult, accepted, rejected, Interpreter, GuardEnvironment, get_machine, resolve_machine,
  aggregate_key, state_of,
}

-- `name.indexOf('_to_')`
abbrev split_name : String → Option (String × String)
split_name name =
    let i = find name "_to_" in
    if leb i (len name) then some (slice name 0 i, slice name (i + 4) (len name)) else none

abbrev is_given : Option String → Bool
is_given none = false
is_given (some s) = not (s == "")

unfoldable pub transition_endpoints : String → TransitionDefinition → Option (String × String)
transition_endpoints name t =
    if is_given t.from && is_given t.to
    then some (or_default t.from "", or_default t.to "")
    else split_name name

abbrev matches_trigger : Option String → String → Bool
matches_trigger none trigger = false
matches_trigger (some t) trigger = t == trigger

-- A transition is started by its trigger, or by the name of an event that it emits.
abbrev pub is_started : TransitionDefinition → String → Bool
is_started t trigger =
    matches_trigger t.trigger trigger
    || (not (trigger == "") && any (λ e. e == trigger) t.emitted_events)

pub record Candidate : Type 0 where
  pub name : String
  pub from : String
  pub to : String
  pub transition : TransitionDefinition

abbrev pub reaching :
    String → String → String → TransitionDefinition → Option (String × String) → List Candidate
reaching current trigger name t none = []
reaching current trigger name t (some (from, to)) =
    if from == current && is_started t trigger
    then record { name = name; from = from; to = to; transition = t } ∷ []
    else []

abbrev pub candidate_of : String → String → String × TransitionDefinition → List Candidate
candidate_of current trigger (name, t) =
    reaching current trigger name t (transition_endpoints name t)

unfoldable pub collect : String → String → Map TransitionDefinition → List Candidate
collect current trigger [] = []
collect current trigger (t ∷ ts) = candidate_of current trigger t ++ collect current trigger ts

unfoldable pub find_transitions :
    GuardEnvironment → StateMachineDefinition → String → String → List Candidate
find_transitions env m current trigger =
    sort (λ a b. env.before a.name b.name) (collect current trigger m.transitions)

abbrev pub trivial_conditions : List String
trivial_conditions = "always" ∷ "true" ∷ "none" ∷ "n/a" ∷ "not_applicable" ∷ []

abbrev verdict_of :
    GuardEnvironment → Bool → String → Value → Result String ConditionAst → Result String (Unit {0})
verdict_of env allowed raw context (err e) =
    if allowed then ok tt else err (join "CONDITION_PARSE_ERROR: " e)
verdict_of env allowed raw context (ok ast) =
    if evaluate env.vel ast context || allowed then ok tt else err (join "CONDITION_FALSE: " raw)

-- Passed, or the reason.
unfoldable pub evaluate_condition :
    GuardEnvironment → Bool → Option String → Value → Result String (Unit {0})
evaluate_condition env allowed condition context =
    let raw = trim (or_default condition "") in
    if raw == "" || includes trivial_conditions (lower_case raw)
    then ok tt
    else verdict_of env allowed raw context (env.try_parse raw)

abbrev actions_of : (StateDefinition → List String) → String → StateMachineDefinition → List String
actions_of which state m = elim (lookup state m.states) [ none ↦ [] | some d ↦ which d ]

unfoldable pub made : StateMachineDefinition → String → Candidate → Accepted
made m current c = record {
  transition_name = c.name;
  from_state = current;
  to_state = c.to;
  emitted_events = c.transition.emitted_events;
  entry_actions = actions_of (λ d. d.entry_actions) c.to m;
  exit_actions = actions_of (λ d. d.exit_actions) current m;
  is_final = includes m.final_states c.to;
  condition = c.transition.condition;
}

-- The candidate that `execute` takes, or why it took none.
abbrev pub tried :
    Candidate
    → Result String (Unit {0})
    → Result (List String) Candidate
    → Result (List String) Candidate
tried c (ok tt) rest = ok c
tried c (err reason) (ok d) = ok d
tried c (err reason) (err reasons) = err (join c.name (join ": " reason) ∷ reasons)

abbrev pub guard_of : GuardEnvironment → Bool → Value → Candidate → Result String (Unit {0})
guard_of env allowed context c =
    if c.transition.invalid
    then err "transition marked invalid"
    else evaluate_condition env allowed c.transition.condition context

unfoldable pub try_candidates :
    GuardEnvironment → Bool → Value → List Candidate → Result (List String) Candidate
try_candidates env allowed context [] = err []
try_candidates env allowed context (c ∷ cs) =
    let rest = try_candidates env allowed context cs in
    tried c (guard_of env allowed context c) rest

abbrev pub concluded :
    StateMachineDefinition → String → Result (List String) Candidate → TransitionResult
concluded m current (ok c) = accepted m (made m current c)
concluded m current (err reasons) =
    rejected (some m) (some current) (join "CONDITION_FAILED: " (join_with "; " reasons))

abbrev no_transition : String → String → String
no_transition current trigger =
    join "NO_TRANSITION: " (join current (join " --" (join trigger "--> ?")))

abbrev pub chosen :
    GuardEnvironment
    → Bool
    → StateMachineDefinition
    → String
    → TransitionInput
    → List Candidate
    → TransitionResult
chosen env allowed m current i [] =
    rejected (some m) (some current) (no_transition current i.trigger)
chosen env allowed m current i (c ∷ cs) =
    concluded m current (try_candidates env allowed i.context (c ∷ cs))

-- `execute`, of the machine that it resolves and the state that it starts from
unfoldable pub execute_from :
    GuardEnvironment → Bool → StateMachineDefinition → String → TransitionInput → TransitionResult
execute_from env allowed m current i =
    if not (is_some (lookup current m.states))
    then rejected (some m) (some current) (join "UNKNOWN_STATE: " current)
    else if includes m.final_states current
    then rejected (some m) (some current) (join "FINAL_STATE: " current)
    else chosen env allowed m current i (find_transitions env m current i.trigger)

abbrev pub executed :
    GuardEnvironment
    → Interpreter
    → TransitionInput
    → Option StateMachineDefinition
    → TransitionResult
executed env s i none = rejected none none "STATE_MACHINE_NOT_FOUND"
executed env s i (some m) =
    execute_from env s.allow_unresolved_conditions m (or_default i.current_state m.initial_state) i

unfoldable pub execute : GuardEnvironment → Interpreter → TransitionInput → TransitionResult
execute env s i = executed env s i (resolve_machine s i)

-- `this.aggregateStates.set(key, result.toState)`
abbrev pub settled : String → TransitionResult → Interpreter → Interpreter
settled k (rejected m current reason) s = s
settled k (accepted m a) s =
    if a.to_state == ""
    then s
    else record s { aggregate_states = insert k a.to_state s.aggregate_states }

abbrev pub transitioned :
    GuardEnvironment
    → Interpreter
    → TransitionInput
    → Option StateMachineDefinition
    → TransitionResult × Interpreter
transitioned env s i none = (rejected none none "STATE_MACHINE_NOT_FOUND", s)
transitioned env s i (some m) =
    let current = or_default i.current_state (state_of m i.aggregate_id s) in
    let result = execute env s (record i { current_state = some current }) in
    (result, settled (aggregate_key m i.aggregate_id) result s)

unfoldable pub transition_aggregate :
    GuardEnvironment → Interpreter → TransitionInput → TransitionResult × Interpreter
transition_aggregate env s i = transitioned env s i (resolve_machine s i)

abbrev reset_to :
    Interpreter
    → String
    → Option String
    → Option StateMachineDefinition
    → String
    → Result String Interpreter
reset_to s id state none k = err (join "STATE_MACHINE_NOT_FOUND: " k)
reset_to s id state (some m) k =
    let next = or_default state m.initial_state in
    if is_some (lookup next m.states)
    then ok (record s { aggregate_states = insert (aggregate_key m id) next s.aggregate_states })
    else err (join "UNKNOWN_STATE: " next)

unfoldable pub reset_aggregate :
    Interpreter → String → String → Option String → Result String Interpreter
reset_aggregate s k id state = reset_to s id state (get_machine s k) k
