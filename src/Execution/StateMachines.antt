-- ===== src/Execution/StateMachines.antt =====
-- packages/runtime/src/execution/state-machine-interpreter.ts: the compiled machines, the transition
-- that a trigger makes, and the states of the aggregates. The parser of conditions and the order of
-- the locale are parameters, and the file of the registry is left out.
use Prim.Native.String.{◌++◌ as join, slice, len, find}
pub mod Transitions
pub mod Words
pub mod Moves
pub mod Runs
mod Examples
use sovr_protocol.Prelude.{
  ◌+◌, String, Bool, true, false, not, ◌&&◌, ◌||◌, Option, none, some, List, [], ◌∷◌, ◌++◌, ◌==◌,
  map, any, includes, leb, is_some, or_default, if◌then◌else◌,
}
use sovr_protocol.Prelude.Maps.{Map, insert, lookup}
use sovr_protocol.Prelude.Result.{Result, ok, err}
use sovr_protocol.Prelude.Value.{Value}
use sovr_protocol.Prelude.Text.{join_with}
use sovr_protocol.Prelude.Sort.{sort}
use sovr_protocol.Execution.Vel.{VelEnvironment, ConditionAst, evaluate}
use sovr_protocol.Execution.StateMachines.Words.{trim, lower_case}

pub record StateDefinition : Type 0 where
  pub entry_actions : List String
  pub exit_actions : List String

pub record TransitionDefinition : Type 0 where
  pub trigger : Option String
  pub condition : Option String
  pub emitted_events : List String
  pub invalid : Bool
  pub from : Option String
  pub to : Option String

pub record StateMachineDefinition : Type 0 where
  pub id : String
  pub name : String
  pub domain : String
  pub aggregate : String
  pub initial_state : String
  pub final_states : List String
  pub states : Map StateDefinition
  pub transitions : Map TransitionDefinition

-- A field that is not given is none, or the empty text where the source only tests it.
pub record TransitionInput : Type 0 where
  pub machine : String
  pub domain : String
  pub aggregate : String
  pub aggregate_id : String
  pub current_state : Option String
  pub trigger : String
  pub context : Value

pub record Accepted : Type 0 where
  pub transition_name : String
  pub from_state : String
  pub to_state : String
  pub emitted_events : List String
  pub entry_actions : List String
  pub exit_actions : List String
  pub is_final : Bool
  pub condition : Option String

-- The fields that only repeat the input or the machine are left out.
pub data TransitionResult : Type 0 where
  accepted : StateMachineDefinition → Accepted → TransitionResult
  rejected : Option StateMachineDefinition → Option String → String → TransitionResult

pub record Interpreter : Type 0 where
  pub machines_by_id : Map StateMachineDefinition
  pub machines_by_name : Map StateMachineDefinition
  pub machines_by_domain_aggregate : Map StateMachineDefinition
  pub aggregate_states : Map String
  pub allow_unresolved_conditions : Bool

-- `localeCompare` is negative where `before` holds; `try_parse` is the one of the conditions.
pub record GuardEnvironment : Type 0 where
  pub vel : VelEnvironment
  pub try_parse : String → Result String ConditionAst
  pub before : String → String → Bool

abbrev domain_key : String → String → String
domain_key domain aggregate = join domain (join ":" aggregate)

unfoldable pub register : StateMachineDefinition → Interpreter → Interpreter
register m s = record s {
  machines_by_id = insert m.id m s.machines_by_id;
  machines_by_name = insert m.name m s.machines_by_name;
  machines_by_domain_aggregate =
      insert (domain_key m.domain m.aggregate) m s.machines_by_domain_aggregate;
}

unfoldable pub register_all : List StateMachineDefinition → Interpreter → Interpreter
register_all [] s = s
register_all (m ∷ ms) s = register_all ms (register m s)

unfoldable pub new_interpreter : GuardEnvironment → Bool → List StateMachineDefinition → Interpreter
new_interpreter env allowed machines =
    register_all (sort (λ a b. env.before a.id b.id) machines) (record {
      machines_by_id = [];
      machines_by_name = [];
      machines_by_domain_aggregate = [];
      aggregate_states = [];
      allow_unresolved_conditions = allowed;
    })

-- `a ?? b` of two lookups
abbrev pub first_some {ℓ} : {A : Type ℓ} → Option A → Option A → Option A
first_some (some a) b = some a
first_some none b = b

unfoldable pub list_machines : GuardEnvironment → Interpreter → List StateMachineDefinition
list_machines env s = sort (λ a b. env.before a.id b.id) (map (λ e. e.1) s.machines_by_id)

unfoldable pub get_machine : Interpreter → String → Option StateMachineDefinition
get_machine s k =
    first_some (lookup k s.machines_by_id)
      (first_some (lookup k s.machines_by_name) (lookup (join "state_machine:" k) s.machines_by_id))

unfoldable pub get_machine_for : Interpreter → String → String → Option StateMachineDefinition
get_machine_for s domain aggregate =
    lookup (domain_key domain aggregate) s.machines_by_domain_aggregate

unfoldable pub resolve_machine : Interpreter → TransitionInput → Option StateMachineDefinition
resolve_machine s i =
    if not (i.machine == "")
    then get_machine s i.machine
    else if not (i.domain == "") && not (i.aggregate == "")
    then get_machine_for s i.domain i.aggregate
    else none

abbrev pub aggregate_key : StateMachineDefinition → String → String
aggregate_key m id = join m.id (join ":" id)

abbrev pub state_of : StateMachineDefinition → String → Interpreter → String
state_of m id s = or_default (lookup (aggregate_key m id) s.aggregate_states) m.initial_state

unfoldable pub get_current_state : Interpreter → String → String → Option String
get_current_state s k id = elim (get_machine s k) [ none ↦ none | some m ↦ some (state_of m id s) ]
