-- ===== src/Execution/Saga/Progress.antt =====
-- That a saga of packages/runtime/src/execution/saga-interpreter.ts ends.
use sovr_protocol.Prelude.{
  ◌≡◌, ◌⊎◌, refl, ap, ◌∙◌, String, Bool, true, Option, none, some, List, [], ◌∷◌, ◌++◌, reverse,
}
use sovr_protocol.Prelude.Maps.{Map, lookup}
use sovr_protocol.Prelude.Result.{Result, ok, err}
use sovr_protocol.Execution.SagaRegistry.{
  completed, failed, compensating, compensated, StepRecord, SagaContext, SagaInstance, create,
}
use sovr_protocol.Execution.SagaPayload.{MapEnvironment}
use sovr_protocol.Execution.Saga.{
  SagaStep, SagaDefinition, SagaCommand, BusResult, SagaEvent, SagaRun, change, failure_of,
  step_event, new_instance, compensation_result, compensation_of, and_then, or_catch,
}
use sovr_protocol.Execution.Saga.Run.{
  submitted, execute_step, execute_compensation, emit, compensated_with, compensate_step,
  compensate_steps, finish_compensation, undo_all, compensate, fail_step, complete_step, finish,
  run_steps, start_saga,
}
use sovr_protocol.Execution.Saga.Endings.{IsDone, IsUndone, start_saga_ok}

and_then_step :
    {W : Type 0} {A : Type 0} (m : Result String (Unit {0}) × SagaRun W)
    (next : SagaRun W → Result String A × SagaRun W)
    → m.0 ≡ ok tt
    → and_then m next ≡ next m.1
and_then_step (ok _, run) next h = refl
and_then_step (err x, run) next h = cc

-- What is answered in the end.
abbrev Answers : {W : Type 0} → Result String SagaInstance × SagaRun W → Type 0
Answers out = (i : SagaInstance) × (out.0 ≡ ok i)

-- A bus that answers every command, accepted or not, and an event store that takes every event.
module _ {W : Type 0} (submit : SagaCommand → W → Result String BusResult × W)
    (append : SagaEvent → W → Result String (Unit {0}) × W) (env : MapEnvironment) (now : String)
    (definitions : Map SagaDefinition)
    (answers : (c : SagaCommand) (w : W) → (r : BusResult) × ((submit c w).0 ≡ ok r))
    (takes : (e : SagaEvent) (w : W) → (append e w).0 ≡ ok tt) where
  emit_total :
      (name : String) (run : SagaRun W)
      → (emit submit append env now definitions name run).0 ≡ ok tt
  unfolding emit
  emit_total name run = takes _ run.world

  submitted_answers :
      (s : SagaStep) (name : String) (context : SagaContext) (i : SagaInstance)
      (compensation : Bool) (w : W)
      → context.has_command_bus ≡ true
      → (r : BusResult) × ((submitted submit append env now definitions s name context i
            compensation w).0
          ≡ ok r)
  submitted_answers s name context i compensation w h = rw h (answers _ w)

  compensated_with_total :
      (s : SagaStep) (out : Result String StepRecord × W) (run : SagaRun W) (x : StepRecord)
      → out.0 ≡ ok x
      → (compensated_with submit append env now definitions s out run).0 ≡ ok tt
  unfolding compensated_with
  compensated_with_total s (ok r, w) run x h = emit_total _ _
  compensated_with_total s (err y, w) run x h = cc

  compensate_step_total :
      (context : SagaContext) (c : Option (SagaStep × String)) (run : SagaRun W)
      → context.has_command_bus ≡ true
      → (compensate_step submit append env now definitions context c run).0 ≡ ok tt
  unfolding compensate_step execute_compensation compensation_result
  compensate_step_total context none run h = refl
  compensate_step_total context (some (s, name)) run h =
      let (r, e) = submitted_answers s name context run.instance' true run.world h in
      compensated_with_total s
        (execute_compensation submit append env now definitions run.instance' s name context
          run.world)
        run _ (ap (compensation_result s) e)

  compensate_steps_total :
      (steps : List SagaStep) (context : SagaContext) (todo : List StepRecord) (run : SagaRun W)
      → context.has_command_bus ≡ true
      → (compensate_steps submit append env now definitions steps context todo run).0 ≡ ok tt
  unfolding compensate_steps
  compensate_steps_total steps context [] run h = refl
  compensate_steps_total steps context (done ∷ rest) run h =
      let step =
        compensate_step submit append env now definitions context (compensation_of steps done)
          run in
      ap (λ o. o.0)
        (and_then_step step (compensate_steps submit append env now definitions steps context rest)
          (compensate_step_total context (compensation_of steps done) run h))
      ∙ compensate_steps_total steps context rest step.1 h

  undo_all_total :
      (context : SagaContext) (found : Option SagaDefinition) (d : SagaDefinition) (run : SagaRun W)
      → context.has_command_bus ≡ true
      → found ≡ some d
      → (undo_all submit append env now definitions context found run).0 ≡ ok tt
  unfolding undo_all
  undo_all_total context none d run h e = cc
  undo_all_total context (some d') d run h e =
      compensate_steps_total d'.steps context (reverse run.instance'.completed_steps) run h

  and_then-Answers :
      (m : Result String (Unit {0}) × SagaRun W)
      (next : SagaRun W → Result String SagaInstance × SagaRun W)
      → m.0 ≡ ok tt
      → Answers (next m.1)
      → Answers (and_then m next)
  and_then-Answers m next h (i, e) = (i, ap (λ o. o.0) (and_then_step m next h) ∙ e)

  compensate_total :
      (context : SagaContext) (d : SagaDefinition) (run : SagaRun W)
      → context.has_command_bus ≡ true
      → lookup run.instance'.saga_name definitions ≡ some d
      → Answers (compensate submit append env now definitions context run)
  unfolding compensate emit finish_compensation
  compensate_total context d run h found =
      let begun =
        emit submit append env now definitions "saga.compensating"
          (change (λ j. record j { current_state = compensating }) run) in
      let undo = λ (r : SagaRun W).
        undo_all submit append env now definitions context
          (lookup r.instance'.saga_name definitions) r in
      let last = λ (r : SagaRun W).
        emit submit append env now definitions "saga.compensated"
          (change (λ j. record j { current_state = compensated; updated_at = now }) r) in
      let answer = λ (r : SagaRun W).
        let o : Result String SagaInstance × SagaRun W = (ok r.instance', r) in o in
      let finished = λ (r : SagaRun W). and_then (last r) answer in
      and_then-Answers begun (λ r. and_then (undo r) finished) (takes _ _)
        (and_then-Answers (undo begun.1) finished
          (undo_all_total context (lookup begun.1.instance'.saga_name definitions) d begun.1 h
            found)
          (and_then-Answers (last (undo begun.1).1) answer (takes _ _)
            ((last (undo begun.1).1).1.instance', refl)))

  fail_step_total :
      (context : SagaContext) (d : SagaDefinition) (s : SagaStep) (x : String) (run : SagaRun W)
      → context.has_command_bus ≡ true
      → lookup run.instance'.saga_name definitions ≡ some d
      → Answers (fail_step submit append env now definitions context s x run)
  unfolding fail_step emit
  fail_step_total context d s x run h found =
      let told = emit submit append env now definitions (step_event "saga.step." s.step ".failed") (
        change
          (λ j. record j {
            failed_steps = j.failed_steps ++ failure_of s x ∷ [];
            current_step = s.step;
            current_state = failed;
          })
          run) in
      and_then-Answers told (compensate submit append env now definitions context) (takes _ _)
        (compensate_total context d told.1 h found)

  complete_step_named :
      (s : SagaStep) (out : Result String StepRecord × W) (run : SagaRun W)
      → (complete_step submit append env now definitions s out run).1.instance'.saga_name
        ≡ run.instance'.saga_name
  unfolding complete_step emit
  complete_step_named s (ok r, w) run = refl
  complete_step_named s (err x, w) run = refl

  or_catch-Answers :
      (m : Result String (Unit {0}) × SagaRun W)
      (next : SagaRun W → Result String SagaInstance × SagaRun W)
      (handler : String → SagaRun W → Result String SagaInstance × SagaRun W)
      → Answers (next m.1)
      → ((x : String) → Answers (handler x m.1))
      → Answers (or_catch m next handler)
  or_catch-Answers (ok _, run) next handler a b = a
  or_catch-Answers (err x, run) next handler a b = b x

  run_steps_total :
      (context : SagaContext) (d : SagaDefinition) (steps : List SagaStep) (run : SagaRun W)
      → context.has_command_bus ≡ true
      → lookup run.instance'.saga_name definitions ≡ some d
      → Answers (run_steps submit append env now definitions context steps run)
  unfolding run_steps finish emit
  run_steps_total context d [] run h found =
      let last =
        emit submit append env now definitions "saga.completed"
          (change (λ j. record j { current_state = completed; updated_at = now }) run) in
      and_then-Answers last (λ (r : SagaRun W). (ok r.instance', r)) (takes _ _)
        (last.1.instance', refl)
  run_steps_total context d (s ∷ steps) run h found =
      let out = execute_step submit append env now definitions run.instance' s context run.world in
      let m = complete_step submit append env now definitions s out run in
      let found' : lookup m.1.instance'.saga_name definitions ≡ some d =
        ap (λ (name : String). lookup name definitions) (complete_step_named s out run) ∙ found in
      or_catch-Answers m (run_steps submit append env now definitions context steps)
        (fail_step submit append env now definitions context s)
        (run_steps_total context d steps m.1 h found')
        (λ x. fail_step_total context d s x m.1 h found')

  -- With a bus that answers every command, accepted or not, and an event store that takes every event,
  -- a saga whose name leads to its definition is always answered, and it has ended.
  pub start_saga_ends :
      (id correlation : String) (context : SagaContext) (d : SagaDefinition)
      (registry : Map SagaInstance) (w : W)
      → context.has_command_bus ≡ true
      → lookup d.saga_id definitions ≡ some d
      → (i : SagaInstance) × ((start_saga submit append env now definitions id correlation context d
            registry w).0
          ≡ ok i)
        × (IsDone d i ⊎ IsUndone d i)
  unfolding start_saga emit
  start_saga_ends id correlation context d registry w h found =
      let i0 = new_instance now id d correlation context in
      let begun =
        emit submit append env now definitions "saga.started"
          (record { instance' = i0; registry = create i0 registry; world = w }) in
      let (i, e) =
        and_then-Answers begun (run_steps submit append env now definitions context d.steps)
          (takes _ _) (run_steps_total context d d.steps begun.1 h found) in
      (
        i,
        e,
        start_saga_ok submit append env now definitions id correlation context d registry w {i = i}
            found e,
      )
