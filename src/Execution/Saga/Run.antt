-- ===== src/Execution/Saga/Run.antt =====
-- packages/runtime/src/execution/saga-interpreter.ts: the run of a saga and its compensation, over a bus
-- and an event store that may throw.
use Prim.Native.String.{◌++◌ as join}
use sovr_protocol.Prelude.{
  ◌+◌, String, Bool, true, false, Option, none, some, List, [], ◌∷◌, ◌++◌, reverse, if◌then◌else◌,
}
use sovr_protocol.Prelude.Maps.{Map, lookup}
use sovr_protocol.Prelude.Result.{Result, ok, err}
use sovr_protocol.Prelude.Value.{undefined}
use sovr_protocol.Execution.SagaRegistry.{
  completed, failed, compensating, compensated, StepState, StepRecord, SagaContext, SagaInstance,
  create, get_instance, update,
}
use sovr_protocol.Execution.SagaPayload.{MapEnvironment}
use sovr_protocol.Execution.Saga.{
  SagaStep, SagaDefinition, SagaCommand, BusResult, SagaEvent, named, command_for, payload_for,
  record_of, step_result, compensation_result, event_of, step_event, SagaRun, change,
  compensation_of, failure_of, new_instance, and_then, or_catch,
}

module _ {W : Type 0} (submit : SagaCommand → W → Result String BusResult × W)
    (append : SagaEvent → W → Result String (Unit {0}) × W) (env : MapEnvironment) (now : String)
    (definitions : Map SagaDefinition) where
  abbrev pub submitted :
      SagaStep → String → SagaContext → SagaInstance → Bool → W → Result String BusResult × W
  submitted s name context i compensation w =
      if context.has_command_bus
      then submit
          (command_for name s context i (payload_for env name s context i compensation)
            compensation)
          w
      else (err "SAGA_COMMAND_BUS_REQUIRED", w)

  unfoldable pub step_outcome :
      SagaInstance → SagaStep → SagaContext → W → Option String → Result String StepRecord × W
  step_outcome i s context w none =
      (ok (record_of s s.command StepState.completed s.produces_events none undefined), w)
  step_outcome i s context w (some name) =
      let (r, w') = submitted s name context i false w in (step_result s r, w')

  unfoldable pub execute_step :
      SagaInstance → SagaStep → SagaContext → W → Result String StepRecord × W
  execute_step i s context w = step_outcome i s context w (named s.command)

  unfoldable pub execute_compensation :
      SagaInstance → SagaStep → String → SagaContext → W → Result String StepRecord × W
  execute_compensation i s name context w =
      let (r, w') = submitted s name context i true w in (compensation_result s r, w')

  -- Where the event store throws, the call throws.
  unfoldable pub emit : String → SagaRun W → Result String (Unit {0}) × SagaRun W
  emit name run =
      let (r, w) = append (event_of name run.instance') run.world in (r, record run { world = w })

  -- The record of a compensation goes to the instance, then to the event store.
  unfoldable pub compensated_with :
      SagaStep → Result String StepRecord × W → SagaRun W → Result String (Unit {0}) × SagaRun W
  compensated_with s (err x, w) run = (err x, record run { world = w })
  compensated_with s (ok r, w) run =
      emit (step_event "saga.compensation.step." s.step ".completed") (
        change (λ i. record i { compensation_steps = i.compensation_steps ++ r ∷ [] })
          (record run { world = w }))

  unfoldable pub compensate_step :
      SagaContext → Option (SagaStep × String) → SagaRun W → Result String (Unit {0}) × SagaRun W
  compensate_step context none run = (ok tt, run)
  compensate_step context (some (s, name)) run =
      compensated_with s (execute_compensation run.instance' s name context run.world) run

  -- The loop over the completed steps, the last of them first.
  unfoldable pub compensate_steps :
      List SagaStep
      → SagaContext
      → List StepRecord
      → SagaRun W
      → Result String (Unit {0}) × SagaRun W
  compensate_steps steps context [] run = (ok tt, run)
  compensate_steps steps context (done ∷ rest) run =
      and_then (compensate_step context (compensation_of steps done) run)
        (λ run'. compensate_steps steps context rest run')

  unfoldable pub finish_compensation : SagaRun W → Result String SagaInstance × SagaRun W
  finish_compensation run =
      and_then
        (emit "saga.compensated"
          (change (λ i. record i { current_state = compensated; updated_at = now }) run))
        (λ run'. (ok run'.instance', run'))

  -- A saga whose definition is gone throws where it has a step to look up.
  unfoldable pub undo_all :
      SagaContext → Option SagaDefinition → SagaRun W → Result String (Unit {0}) × SagaRun W
  undo_all context none run = elim run.instance'.completed_steps [
    | [] ↦ (ok tt, run)
    | _ ↦ (err "Cannot read properties of undefined", run)
  ]
  undo_all context (some d) run =
      compensate_steps d.steps context (reverse run.instance'.completed_steps) run

  unfoldable pub compensate : SagaContext → SagaRun W → Result String SagaInstance × SagaRun W
  compensate context run =
      and_then
        (emit "saga.compensating" (change (λ i. record i { current_state = compensating }) run))
        (λ run'.
          and_then (undo_all context (lookup run'.instance'.saga_name definitions) run')
            finish_compensation)

  -- The `catch` of the loop: also what the event store throws on a completed step comes here.
  unfoldable pub fail_step :
      SagaContext → SagaStep → String → SagaRun W → Result String SagaInstance × SagaRun W
  fail_step context s x run =
      and_then
        (emit (step_event "saga.step." s.step ".failed") (
          change
            (λ i. record i {
              failed_steps = i.failed_steps ++ failure_of s x ∷ [];
              current_step = s.step;
              current_state = failed;
            })
            run))
        (compensate context)

  unfoldable pub complete_step :
      SagaStep → Result String StepRecord × W → SagaRun W → Result String (Unit {0}) × SagaRun W
  complete_step s (err x, w) run = (err x, record run { world = w })
  complete_step s (ok r, w) run = emit (step_event "saga.step." s.step ".completed") (
      change
        (λ i. record i { completed_steps = i.completed_steps ++ r ∷ []; current_step = s.step })
        (record run { world = w }))

  unfoldable pub finish : SagaRun W → Result String SagaInstance × SagaRun W
  finish run =
      and_then
        (emit "saga.completed"
          (change (λ i. record i { current_state = completed; updated_at = now }) run))
        (λ run'. (ok run'.instance', run'))

  unfoldable pub run_steps :
      SagaContext → List SagaStep → SagaRun W → Result String SagaInstance × SagaRun W
  run_steps context [] run = finish run
  run_steps context (s ∷ steps) run =
      or_catch (complete_step s (execute_step run.instance' s context run.world) run)
        (λ run'. run_steps context steps run') (fail_step context s)

  -- `start`, of a saga whose definition is there, under a new identifier.
  unfoldable pub start_saga :
      String
      → String
      → SagaContext
      → SagaDefinition
      → Map SagaInstance
      → W
      → Result String SagaInstance × SagaRun W
  start_saga id correlation context d registry w =
      let i = new_instance now id d correlation context in
      and_then
        (emit "saga.started" (record { instance' = i; registry = create i registry; world = w }))
        (run_steps context d.steps)

  unfoldable pub start :
      String
      → String
      → String
      → SagaContext
      → Map SagaInstance
      → W
      → Result String SagaInstance × Map SagaInstance × W
  start id name correlation context registry w = elim (lookup name definitions) [
    | none ↦ (err (join "SAGA_DEFINITION_NOT_FOUND: " name), registry, w)
    | some d ↦
        let (r, run) = start_saga id correlation context d registry w in
        (r, run.registry, run.world)
  ]

  unfoldable pub advance : String → Map SagaInstance → Result String (Map SagaInstance)
  advance id registry = elim (get_instance id registry) [
    | none ↦ err (join "SAGA_NOT_FOUND: " id)
    | some i ↦ update id (record i { current_step = i.current_step + 1 }) now registry
  ]
