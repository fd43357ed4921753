-- ===== src/Execution/SagaRegistry.antt =====
-- packages/runtime/src/execution/saga-registry.ts, with the definitions that it shares with
-- saga-interpreter.ts: the sagas that have been started.
use sovr_protocol.Prelude.{ℕ, String, Bool, Option, none, some, List}
use sovr_protocol.Prelude.Int.{pos}
use sovr_protocol.Prelude.Maps.{Map, insert, lookup}
use sovr_protocol.Prelude.Result.{Result, ok, err}
use sovr_protocol.Prelude.Value.{Value, undefined, num, str, arr, obj, Items, field, end}
use Prim.Native.String.{◌++◌ as join}

pub data SagaState : Type 0 where
  pending running completed failed compensating compensated : SagaState

pub data StepState : Type 0 where
  completed failed compensated skipped : StepState

pub record StepRecord : Type 0 where
  pub step : ℕ
  pub step_id : String
  pub name : String
  pub command : Option String
  pub state : StepState
  pub events : Items
  pub error : Option String
  pub result : Value

abbrev text_or_undefined : Option String → Value
text_or_undefined none = undefined
text_or_undefined (some s) = str s

abbrev state_text : StepState → String
state_text StepState.completed = "COMPLETED"
state_text StepState.failed = "FAILED"
state_text StepState.compensated = "COMPENSATED"
state_text StepState.skipped = "SKIPPED"

-- The record as an object, for the paths that read it.
unfoldable pub step_value : StepRecord → Value
step_value s = obj (
    field "step" (num (pos s.step)) (
      field "stepId" (str s.step_id) (
        field "name" (str s.name) (
          field "command" (text_or_undefined s.command) (
            field "state" (str (state_text s.state)) (
              field "events" (arr s.events)
                (field "error" (text_or_undefined s.error) (field "result" s.result end))))))))

pub record SagaContext : Type 0 where
  pub has_command_bus : Bool
  pub actor : Value
  pub payload : Value
  pub step_payloads : Map Value
  pub capabilities : Map String
  pub scopes : Map String
  -- the context as an object, for the paths that read it
  pub fields : Value

pub record SagaInstance : Type 0 where
  pub saga_id : String
  pub saga_name : String
  pub correlation_id : String
  pub current_step : ℕ
  pub current_state : SagaState
  pub completed_steps : List StepRecord
  pub failed_steps : List StepRecord
  pub compensation_steps : List StepRecord
  pub context : SagaContext
  pub started_at : String
  pub updated_at : String

unfoldable pub create : SagaInstance → Map SagaInstance → Map SagaInstance
create i registry = insert i.saga_id i registry

unfoldable pub get_instance : String → Map SagaInstance → Option SagaInstance
get_instance id registry = lookup id registry

-- An update with a whole instance. One that is not there is an error.
unfoldable pub update :
    String → SagaInstance → String → Map SagaInstance → Result String (Map SagaInstance)
update id i now registry = elim (lookup id registry) [
  | none ↦ err (join "SAGA_NOT_FOUND: " id)
  | some _ ↦ ok (insert id (record i { updated_at = now }) registry)
]
