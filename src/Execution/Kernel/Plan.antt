-- ===== src/Execution/Kernel/Plan.antt =====
-- packages/runtime/src/execution/kernel-executor.ts, `planTransitionsAndEvents` and what it calls: the
-- transition of each event of a command, by the compiled machines, and the event itself.
pub mod Events
use Prim.Native.String.{◌++◌ as join, find, slice, len}
use sovr_protocol.Prelude.{
  ℕ, suc, ◌+◌, String, Bool, true, false, not, ◌&&◌, ◌||◌, Option, none, some, List, [], ◌∷◌, ◌++◌,
  ◌==◌, if◌then◌else◌,
}
use sovr_protocol.Prelude.Result.{Result, ok, err, ◌>>=◌}
use sovr_protocol.Prelude.Value.{
  Value, undefined, str, arr, obj, Items, nil, cons, Fields, field, end, get, truthy, coalesce,
  set_field, fields_of, find_item, includes_text, is_text,
}
use sovr_protocol.Prelude.Text.{text_of, starts_with}
use sovr_protocol.Server.EventStore.{AppendInput}
use sovr_protocol.Execution.StateRegistry.{StateRegistry, has_state, get_state}
use sovr_protocol.Execution.AtomicCommit.{AtomicStateUpdate}
use sovr_protocol.Execution.Kernel.{
  CommandEnvelope, Kernel, Refusal, invalid_transition, contains, resolve_aggregate_id,
}

pub record PlannedTransition : Type 0 where
  pub machine_id : Value
  pub machine_name : Value
  pub domain : Option String
  pub aggregate : String
  pub aggregate_id : String
  pub from_state : String
  pub to_state : String
  pub trigger : String
  pub transition_name : String

pub record Endpoints : Type 0 where
  pub name : String
  pub from : String
  pub to : String

abbrev pub text_option : Value → Option String
text_option (str s) = some s
text_option _ = none

-- A text, or empty.
abbrev pub text_or_empty : Value → String
text_or_empty (str s) = s
text_or_empty _ = ""

-- `a === b`, for a text or a missing value.
abbrev pub same_value : Value → Value → Bool
same_value (str s) b = is_text b s
same_value undefined undefined = true
same_value _ _ = false

abbrev pub emits : Value → String → Bool
emits (arr xs) event = includes_text xs event
emits _ event = false

-- The transition is triggered by the event, or emits it.
abbrev pub on_event : Value → String → Bool
on_event t event =
    is_text (coalesce (get t "trigger") (get t "event")) event
    || emits (get t "emitted_events") event

unfoldable pub transition_endpoints : String → Value → Option (String × String)
transition_endpoints name t =
    let i = find name "_to_" in
    if truthy (get t "from") && truthy (get t "to")
    then some (text_of (get t "from"), text_of (get t "to"))
    else if contains name "_to_"
    then some (slice name 0 i, slice name (i + 4) (len name))
    else none

unfoldable pub lookup_in_list : String → String → Items → Option Endpoints
lookup_in_list current event nil = none
lookup_in_list current event (cons t ts) =
    let rest = lookup_in_list current event ts in
    let to = text_or_empty (get t "to") in
    if is_text (get t "from") current && on_event t event
    then some (record { name = join current (join "_to_" to); from = current; to = to })
    else rest

abbrev pub leaves : String → Option (String × String) → Bool
leaves current none = false
leaves current (some (from, to)) = from == current

abbrev pub target_of : Option (String × String) → String
target_of none = ""
target_of (some (from, to)) = to

unfoldable pub lookup_in_fields : String → String → Fields → Option Endpoints
unfolding transition_endpoints
lookup_in_fields current event end = none
lookup_in_fields current event (field name t ts) =
    let rest = lookup_in_fields current event ts in
    let ends = transition_endpoints name t in
    if not (name == "abi") && leaves current ends && on_event t event
    then some (record { name = name; from = current; to = target_of ends })
    else rest

unfoldable pub lookup_transition : Value → String → String → Option Endpoints
unfolding lookup_in_list lookup_in_fields
lookup_transition machine current event = elim (get machine "transitions") [
  | arr ts ↦ lookup_in_list current event ts
  | obj ts ↦ lookup_in_fields current event ts
  | _ ↦ none
]

-- `id?.replace(/^state_machine:/, '')`
abbrev pub machine_name_of : Value → Value
machine_name_of (str id) =
    str (if starts_with id "state_machine:" then slice id 14 (len id) else id)
machine_name_of v = v

abbrev pub planned :
    Value → Option String → String → String → String → Endpoints → PlannedTransition
planned machine domain aggregate id event e = record {
  machine_id = get machine "id";
  machine_name = machine_name_of (get machine "id");
  domain = domain;
  aggregate = aggregate;
  aggregate_id = id;
  from_state = e.from;
  to_state = e.to;
  trigger = event;
  transition_name = e.name;
}

abbrev pub creation : Value → Endpoints
creation machine =
    let initial = text_or_empty (get machine "initial_state") in
    record { name = join "INIT_to_" initial; from = "INIT"; to = initial }

abbrev pub not_accepted : Value → String → String → String → Refusal
not_accepted machine current command event =
    let final = emits (get machine "final_states") current in
    invalid_transition (
      join (text_of (coalesce (get machine "id") (get machine "machine_id"))) (
        join ": state " (
          join current (
            join " does not accept " (
              join command (
                join " (" (
                  join event (
                    join ") — " (
                      if final
                      then "Final state does not accept commands"
                      else "Command not allowed from this state")))))))))

abbrev pub machine_of : Kernel → Value → String → Value
machine_of k domain aggregate =
    find_item (λ m. same_value (get m "domain") domain && is_text (get m "aggregate") aggregate)
      k.corpus.machines

unfoldable pub find_transition :
    Kernel
    → StateRegistry
    → CommandEnvelope
    → String
    → Value
    → String
    → String
    → Result Refusal (Option PlannedTransition)
find_transition k r request event domain aggregate id =
    let machine = machine_of k domain aggregate in
    let key_domain = text_option domain in
    let current = get_state k.initial_state r aggregate id key_domain in
    if not (truthy machine)
    then ok none
    else if not (has_state r aggregate id key_domain)
    then ok (some (planned machine key_domain aggregate id event (creation machine)))
    else elim (lookup_transition machine current event) [
      | some e ↦ ok (some (planned machine key_domain aggregate id event e))
      | none ↦ err (not_accepted machine current request.command_name event)
    ]

abbrev pub transition_value : PlannedTransition → Value
transition_value t = obj (
    field "machineId" t.machine_id (
      field "machineName" t.machine_name (
        field "domain" (elim t.domain [ none ↦ undefined | some d ↦ str d ])
          (field "aggregate" (str t.aggregate) (
            field "aggregateId" (str t.aggregate_id) (
              field "fromState" (str t.from_state) (
                field "toState" (str t.to_state) (
                  field "target" (str t.to_state) (
                    field "trigger" (str t.trigger)
                      (field "transitionName" (str t.transition_name) end))))))))))

abbrev pub with_transition : Option PlannedTransition → Fields → Fields
with_transition none fs = fs
with_transition (some t) fs =
    set_field (set_field fs "_state_transition" (transition_value t)) "_state_transitions"
      (arr (cons (transition_value t) nil))
