-- ===== src/Execution/Saga/Examples.antt =====
-- A transfer in two steps on a bus that takes the reservation only.
use sovr_protocol.Prelude.{
  ℕ, suc, ◌≡◌, ◌⊎◌, refl, String, true, Option, none, some, List, [], ◌∷◌, ◌==◌, map, find_first,
}
use sovr_protocol.Prelude.Maps.{Map, insert, lookup}
use sovr_protocol.Prelude.Result.{Result, ok, err}
use sovr_protocol.Prelude.Value.{undefined, obj, nil, end}
use sovr_protocol.Execution.SagaRegistry.{
  SagaState, compensated, StepState, StepRecord, SagaContext, SagaInstance,
}
use sovr_protocol.Execution.SagaPayload.{MapEnvironment}
use sovr_protocol.Execution.Saga.{
  SagaStep, SagaDefinition, SagaCommand, BusResult, SagaEvent, SagaRun, definitions_of, command_for,
  record_of, step_result, compensation_result, compensation_of,
}
use sovr_protocol.Execution.Saga.Run.{
  step_outcome, execute_step, execute_compensation, emit, compensated_with, compensate_step,
  compensate_steps, finish_compensation, undo_all, compensate, fail_step, complete_step, run_steps,
  start_saga,
}
use sovr_protocol.Execution.Saga.Endings.{IsDone, IsUndone, start_saga_ok}

abbrev reserve : SagaStep
reserve = record {
  step = 1;
  step_id = "reserve";
  name = "reserve";
  command = some "vault.reserve";
  target_domain = none;
  compensation_command = some "vault.release";
  required_capability = none;
  required_scope = none;
  payload_mapping = undefined;
  compensation_payload_mapping = undefined;
  produces_events = nil;
}

abbrev settle : SagaStep
settle = record reserve {
  step = 2;
  step_id = "settle";
  name = "settle";
  command = some "payment.settle";
  compensation_command = none;
}

abbrev transfer : SagaDefinition
transfer = record { id = "saga:transfer"; saga_id = "transfer"; steps = reserve ∷ settle ∷ [] }

abbrev definitions : Map SagaDefinition
definitions = ("transfer", transfer) ∷ ("saga:transfer", transfer) ∷ []

abbrev env : MapEnvironment
env = record { number = λ s. none; default_expiration = "tomorrow"; plus_one = λ v. "1" }

abbrev context : SagaContext
context = record {
  has_command_bus = true;
  actor = undefined;
  payload = undefined;
  step_payloads = [];
  capabilities = [];
  scopes = [];
  fields = obj end;
}

-- The bus counts the commands; the event store takes every event.
abbrev submit : SagaCommand → ℕ → Result String BusResult × ℕ
submit c n = (
  ok (record {
    accepted = c.command_name == "vault.reserve";
    events = nil;
    error = none;
    result = undefined;
  }),
  suc n,
)

abbrev append : SagaEvent → ℕ → Result String (Unit {0}) × ℕ
append e n = (ok tt, n)

abbrev ended : Result String SagaInstance × SagaRun ℕ
ended = start_saga submit append env "now" definitions "s1" "c1" context transfer [] 0

registered : definitions_of (transfer ∷ []) [] ≡ definitions
unfolding definitions_of insert
registered = refl

-- The settlement fails, and so does the release of the reservation.
summary : Result String SagaInstance → Option (SagaState × List StepState × ℕ)
summary (err x) = none
summary (ok i) =
    some (i.current_state, map (λ (r : StepRecord). r.state) i.compensation_steps, i.current_step)

release_refused : summary ended.0 ≡ some (compensated, StepState.failed ∷ [], 2)
unfolding summary start_saga run_steps emit execute_step step_outcome complete_step fail_step
    compensate undo_all compensate_steps compensate_step compensation_of compensated_with
    finish_compensation execute_compensation step_result compensation_result record_of find_first
    lookup command_for
release_refused = refl

calls : ended.1.world ≡ 3
unfolding summary start_saga run_steps emit execute_step step_outcome complete_step fail_step
    compensate undo_all compensate_steps compensate_step compensation_of compensated_with
    finish_compensation execute_compensation step_result compensation_result record_of find_first
    lookup command_for
calls = refl

abbrev gone : SagaInstance
gone = ended.1.instance'

gone_lem : ended.0 ≡ ok gone
unfolding start_saga run_steps emit execute_step step_outcome complete_step fail_step compensate
    undo_all compensate_steps compensate_step compensation_of compensated_with finish_compensation
    execute_compensation step_result compensation_result record_of find_first lookup command_for
gone_lem = refl

start_saga_ok_example : IsDone transfer gone ⊎ IsUndone transfer gone
unfolding lookup
start_saga_ok_example =
    start_saga_ok submit append env "now" definitions "s1" "c1" context transfer [] 0 refl gone_lem
