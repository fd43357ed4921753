-- ===== src/Execution/Saga.antt =====
-- packages/runtime/src/execution/saga-interpreter.ts: the steps of a saga, one command of the bus after
-- another, and the compensation of the completed ones when a step fails. The bus and the event store
-- are the world `W` of a section; each may throw. An instance in the registry shares its lists with
-- the one that the interpreter holds, so the two change together; only the times of the updates are
-- those of the last write. Of the payload of an event only the state of the saga is kept.
pub mod Run
pub mod Compensation
pub mod Endings
pub mod Progress
mod Examples
use Prim.Native.String.{◌++◌ as join, slice, len, find}
use sovr_protocol.Prelude.{
  ℕ, zero, suc, ◌+◌, String, Bool, true, false, not, ◌&&◌, Option, none, some, List, [], ◌∷◌, ◌++◌,
  ◌==◌, reverse, leb, find_first, or_default, if◌then◌else◌,
}
use sovr_protocol.Prelude.Int.{pos}
use sovr_protocol.Prelude.Maps.{Map, insert, lookup}
use sovr_protocol.Prelude.Result.{Result, ok, err}
use sovr_protocol.Prelude.Value.{
  Value, undefined, bool, str, obj, Items, nil, Fields, field, end, get, coalesce, set_field,
  fields_of, is_text,
}
use sovr_protocol.Prelude.Text.{show_ℕ}
use sovr_protocol.Execution.SagaRegistry.{
  SagaState, running, completed, failed, compensating, compensated, StepState, StepRecord,
  SagaContext, SagaInstance, create, get_instance, update,
}
use sovr_protocol.Execution.SagaPayload.{MapParams, MapEnvironment, has_number, map_payload}

pub record SagaStep : Type 0 where
  pub step : ℕ
  pub step_id : String
  pub name : String
  pub command : Option String
  pub target_domain : Option String
  pub compensation_command : Option String
  pub required_capability : Option String
  pub required_scope : Option String
  pub payload_mapping : Value
  pub compensation_payload_mapping : Value
  pub produces_events : Items

pub record SagaDefinition : Type 0 where
  pub id : String
  pub saga_id : String
  pub steps : List SagaStep

pub record SagaCommand : Type 0 where
  pub command_name : String
  pub aggregate : String
  pub source_domain : String
  pub payload : Value
  pub identity_context : Value
  pub capability_id : String
  pub scope : String
  pub correlation_id : String
  pub causation_id : String
  pub saga_step : ℕ
  pub saga_compensation : Bool

pub record BusResult : Type 0 where
  pub accepted : Bool
  pub events : Items
  pub error : Option String
  pub result : Value

pub record SagaEvent : Type 0 where
  pub event_name : String
  pub aggregate_id : String
  pub correlation_id : String
  pub identity_context : Value
  pub state : SagaState

-- Both names of a definition lead to it; a later one takes the place of an earlier one.
unfoldable pub definitions_of : List SagaDefinition → Map SagaDefinition → Map SagaDefinition
definitions_of [] m = m
definitions_of (d ∷ ds) m = definitions_of ds (insert d.id d (insert d.saga_id d m))

-- A command that is there and not empty
abbrev pub named : Option String → Option String
named none = none
named (some s) = if s == "" then none else some s

abbrev before_dot : String → String
before_dot s = let i = find s "." in if leb i (len s) then slice s 0 i else s

abbrev second_part : String → Option String
second_part s =
    let i = find s "." in
    if leb i (len s) then some (before_dot (slice s (i + 1) (len s))) else none

abbrev system_actor : SagaInstance → Value
system_actor i = obj (
    field "identity_id" (str "system") (
      field "actor_id" (str "system") (
        field "actor_type" (str "system") (field "session_id" (str (join "saga:" i.saga_id)) end))))

unfoldable pub command_for :
    String → SagaStep → SagaContext → SagaInstance → Fields → Bool → SagaCommand
command_for name s context i payload compensation =
    let domain = before_dot name in
    record {
      command_name = name;
      aggregate = or_default (second_part name) (or_default s.target_domain domain);
      source_domain = domain;
      payload = obj (
          set_field (set_field payload "saga_id" (str i.saga_id)) "saga_compensation"
            (bool compensation));
      identity_context =
          if is_text (get context.actor "actor_type") "system"
          then context.actor
          else system_actor i;
      capability_id =
          or_default (lookup name context.capabilities)
            (or_default s.required_capability "system.internal");
      scope = or_default (lookup name context.scopes) (or_default s.required_scope "*");
      correlation_id = i.correlation_id;
      causation_id = i.saga_id;
      saga_step = s.step;
      saga_compensation = compensation;
    }

unfoldable pub payload_for :
    MapEnvironment → String → SagaStep → SagaContext → SagaInstance → Bool → Fields
payload_for env name s context i compensation = elim (lookup name context.step_payloads) [
  | some v ↦ fields_of v
  | none ↦ map_payload env (record {
    saga_id = i.saga_id;
    correlation_id = i.correlation_id;
    step = s.step;
    mapping = if compensation then s.compensation_payload_mapping else s.payload_mapping;
    saga_payload = context.payload;
    saga_context = context.fields;
    previous_step_results = i.completed_steps;
    original_step_result =
        if compensation then find_first (has_number s.step) i.completed_steps else none;
  })
]

unfoldable pub record_of :
    SagaStep → Option String → StepState → Items → Option String → Value → StepRecord
record_of s command state events error result = record {
  step = s.step;
  step_id = s.step_id;
  name = s.name;
  command = command;
  state = state;
  events = events;
  error = error;
  result = result;
}

abbrev step_failed : SagaStep → Option String → String
step_failed s e = or_default e (join "saga step " (join (show_ℕ s.step) " failed"))

unfoldable pub step_result : SagaStep → Result String BusResult → Result String StepRecord
step_result s (err x) = err x
step_result s (ok r) =
    if r.accepted
    then ok (record_of s s.command StepState.completed r.events none r.result)
    else err (step_failed s r.error)

unfoldable pub compensation_result : SagaStep → Result String BusResult → Result String StepRecord
compensation_result s (err x) = err x
compensation_result s (ok r) = ok (
    record_of s s.compensation_command
      (if r.accepted then StepState.compensated else StepState.failed) r.events r.error r.result)

unfoldable pub event_of : String → SagaInstance → SagaEvent
event_of name i = record {
  event_name = name;
  aggregate_id = i.saga_id;
  correlation_id = i.correlation_id;
  identity_context = coalesce i.context.actor (
      obj (
        field "identity_id" (str "saga")
          (field "actor_type" (str "system") (field "session_id" (str "saga") end))));
  state = i.current_state;
}

abbrev pub step_event : String → ℕ → String → String
step_event prefix n suffix = join prefix (join (show_ℕ n) suffix)

-- The interpreter in the middle of a saga.
pub record SagaRun (W : Type 0) : Type 0 where
  pub instance' : SagaInstance
  pub registry : Map SagaInstance
  pub world : W

abbrev pub change : {W : Type 0} → (SagaInstance → SagaInstance) → SagaRun W → SagaRun W
change f run = record run {
  instance' = f run.instance';
  registry = insert run.instance'.saga_id (f run.instance') run.registry;
}

unfoldable pub compensation_of : List SagaStep → StepRecord → Option (SagaStep × String)
compensation_of steps done = elim (find_first (λ (s : SagaStep). has_number s.step done) steps) [
  | none ↦ none
  | some s ↦ elim (named s.compensation_command) [ none ↦ none | some name ↦ some (s, name) ]
]

abbrev pub failure_of : SagaStep → String → StepRecord
failure_of s x = record_of s s.command StepState.failed nil (some x) undefined

abbrev pub new_instance : String → String → SagaDefinition → String → SagaContext → SagaInstance
new_instance now id d correlation context = record {
  saga_id = id;
  saga_name = d.saga_id;
  correlation_id = correlation;
  current_step = 0;
  current_state = running;
  completed_steps = [];
  failed_steps = [];
  compensation_steps = [];
  context = context;
  started_at = now;
  updated_at = now;
}

-- One call after another, where the first may throw.
abbrev pub and_then {ℓ} :
    {W : Type 0} {A : Type ℓ}
    → Result String (Unit {0}) × SagaRun W
    → (SagaRun W → Result String A × SagaRun W)
    → Result String A × SagaRun W
and_then (ok _, run) next = next run
and_then (err x, run) next = (err x, run)

-- A `try` around the first, with its `catch`.
abbrev pub or_catch {ℓ} :
    {W : Type 0} {A : Type ℓ}
    → Result String (Unit {0}) × SagaRun W
    → (SagaRun W → Result String A × SagaRun W)
    → (String → SagaRun W → Result String A × SagaRun W)
    → Result String A × SagaRun W
or_catch (ok _, run) next handler = next run
or_catch (err x, run) next handler = handler x run
