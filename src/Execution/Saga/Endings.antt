-- ===== src/Execution/Saga/Endings.antt =====
-- How a saga of packages/runtime/src/execution/saga-interpreter.ts may end.
use mathlib.Core.List.{map-append}
use sovr_protocol.Prelude.{
  ℕ, ◌≡◌, ◌⊎◌, inl, inr, refl, sym, ap, ◌∙◌, subst, String, false, Option, none, some, List, [],
  ◌∷◌, ◌++◌, reverse, append-nil, append_assoc, arith, select,
}
use sovr_protocol.Prelude.Maps.{Map, lookup}
use sovr_protocol.Prelude.Result.{Result, ok, err}
use sovr_protocol.Execution.SagaRegistry.{
  completed, failed, compensated, StepRecord, SagaContext, SagaInstance, create,
}
use sovr_protocol.Execution.SagaPayload.{MapEnvironment}
use sovr_protocol.Execution.Saga.{
  SagaStep, SagaDefinition, SagaCommand, BusResult, SagaEvent, SagaRun, change, failure_of,
  step_event, new_instance, named, record_of, or_catch,
}
use sovr_protocol.Execution.Saga.Run.{
  submitted, step_outcome, execute_step, emit, compensate, fail_step, complete_step, finish,
  run_steps, start_saga,
}
use sovr_protocol.Execution.Saga.Compensation.{
  numbers, step_numbers, is_undoable, and_then_ok, step_result-step, compensate_ok,
}

-- How a saga may end: with all the steps of its definition, in their order, and nothing to undo; or
-- after some of them, with those undone that have a compensation, the last of them first.
pub record IsDone (d : SagaDefinition) (i : SagaInstance) : Type 0 where
  pub state : i.current_state ≡ completed
  pub steps : numbers i.completed_steps ≡ step_numbers d.steps
  pub failures : i.failed_steps ≡ []
  pub compensations : i.compensation_steps ≡ []

pub record IsUndone (d : SagaDefinition) (i : SagaInstance) : Type 0 where
  pub state : i.current_state ≡ compensated
  pub missing : List ℕ
  pub steps : numbers i.completed_steps ++ missing ≡ step_numbers d.steps
  pub compensations :
      numbers i.compensation_steps
      ≡ numbers (select (is_undoable d.steps) (reverse i.completed_steps))

-- In the middle of the steps: some are done, `left` are not.
record IsUnderway (definitions : Map SagaDefinition) (d : SagaDefinition) (left : List ℕ)
    (i : SagaInstance) : Type 0 where
  named : lookup i.saga_name definitions ≡ some d
  steps : numbers i.completed_steps ++ left ≡ step_numbers d.steps
  compensations : i.compensation_steps ≡ []

module _ {W : Type 0} (submit : SagaCommand → W → Result String BusResult × W)
    (append : SagaEvent → W → Result String (Unit {0}) × W) (env : MapEnvironment) (now : String)
    (definitions : Map SagaDefinition) where
  fail_step_ok :
      (context : SagaContext) (d : SagaDefinition) (s : SagaStep) (x : String) (left : List ℕ)
      (run : SagaRun W) {i : SagaInstance}
      → IsUnderway definitions d left run.instance'
      → (fail_step submit append env now definitions context s x run).0 ≡ ok i
      → IsUndone d i
  unfolding fail_step emit
  fail_step_ok context d s x left run {i} u h =
      let told = emit submit append env now definitions (step_event "saga.step." s.step ".failed") (
        change
          (λ j. record j {
            failed_steps = j.failed_steps ++ failure_of s x ∷ [];
            current_step = s.step;
            current_state = failed;
          })
          run) in
      let (a, b, c) = and_then_ok told (compensate submit append env now definitions context) h in
      let (state, kept, undone) =
        compensate_ok submit append env now definitions context d told.1 {i = i} u.named c in
      record {
        state = state;
        missing = left;
        steps = ap (λ (rs : List StepRecord). numbers rs ++ left) kept ∙ u.steps;
        compensations = undone ∙ ground (arith, u.compensations, kept);
      }

  -- What completing a step leaves, where the event store takes the event and where it throws.
  complete_step_leaves :
      (d : SagaDefinition) (s : SagaStep) (left : List ℕ) (r : Result String StepRecord) (w : W)
      (run : SagaRun W)
      → ((x : StepRecord) → r ≡ ok x → x.step ≡ s.step)
      → IsUnderway definitions d (s.step ∷ left) run.instance'
      → let out = complete_step submit append env now definitions s (r, w) run in
        (out.0 ≡ ok tt
          → IsUnderway definitions d left out.1.instance'
            × (out.1.instance'.failed_steps ≡ run.instance'.failed_steps))
        × ((left' : List ℕ) × IsUnderway definitions d left' out.1.instance')
  unfolding complete_step emit
  complete_step_leaves d s left (err x) w run e u = ((λ h. cc), (s.step ∷ left, u))
  complete_step_leaves d s left (ok r) w run e u =
      let advanced : IsUnderway definitions d left
          (complete_step submit append env now definitions s (ok r, w) run).1.instance' =
        record {
          named = u.named;
          steps = ground (
            arith,
            e r refl,
            u.steps,
            map-append (λ (x : StepRecord). x.step) run.instance'.completed_steps (r ∷ []),
            append_assoc (numbers run.instance'.completed_steps) (r.step ∷ []) left,
          );
          compensations = u.compensations;
        } in
      ((λ h. (advanced, refl)), (left, advanced))

  step_outcome-step :
      (i : SagaInstance) (s : SagaStep) (context : SagaContext) (w : W) (c : Option String)
      (x : StepRecord)
      → (step_outcome submit append env now definitions i s context w c).0 ≡ ok x
      → x.step ≡ s.step
  unfolding step_outcome record_of
  step_outcome-step i s context w none x h = ground (arith, h)
  step_outcome-step i s context w (some name) x h =
      step_result-step s (submitted submit append env now definitions s name context i false w).0
        {x = x} h

  finish_ok :
      (d : SagaDefinition) (run : SagaRun W) {i : SagaInstance}
      → IsUnderway definitions d [] run.instance'
      → run.instance'.failed_steps ≡ []
      → (finish submit append env now definitions run).0 ≡ ok i
      → IsDone d i
  unfolding finish emit
  finish_ok d run {i} u f h =
      let last =
        emit submit append env now definitions "saga.completed"
          (change (λ j. record j { current_state = completed; updated_at = now }) run) in
      let (a, b, c) = and_then_ok last (λ (r : SagaRun W). (ok r.instance', r)) h in
      let same : last.1.instance' ≡ i = cc in
      subst (IsDone d) same (record {
        state = refl;
        steps = sym (append-nil (numbers run.instance'.completed_steps)) ∙ u.steps;
        failures = f;
        compensations = u.compensations;
      })

  or_catch_ok :
      (m : Result String (Unit {0}) × SagaRun W)
      (next : SagaRun W → Result String SagaInstance × SagaRun W)
      (handler : String → SagaRun W → Result String SagaInstance × SagaRun W) {i : SagaInstance}
      → (or_catch m next handler).0 ≡ ok i
      → ((m.0 ≡ ok tt) × ((next m.1).0 ≡ ok i)) ⊎ ((x : String) × ((handler x m.1).0 ≡ ok i))
  or_catch_ok (ok _, run) next handler h = inl (refl, h)
  or_catch_ok (err x, run) next handler h = inr (x, h)

  run_steps_ok :
      (context : SagaContext) (d : SagaDefinition) (steps : List SagaStep) (run : SagaRun W)
      {i : SagaInstance}
      → IsUnderway definitions d (step_numbers steps) run.instance'
      → run.instance'.failed_steps ≡ []
      → (run_steps submit append env now definitions context steps run).0 ≡ ok i
      → IsDone d i ⊎ IsUndone d i
  unfolding run_steps execute_step
  run_steps_ok context d [] run {i} u f h = inl (finish_ok d run {i = i} u f h)
  run_steps_ok context d (s ∷ steps) run {i} u f h =
      let (r, w) =
        execute_step submit append env now definitions run.instance' s context run.world in
      let out = complete_step submit append env now definitions s (r, w) run in
      let next = run_steps submit append env now definitions context steps in
      let handler = fail_step submit append env now definitions context s in
      let (went, (left, broke)) =
        complete_step_leaves d s (step_numbers steps) r w run
          (step_outcome-step run.instance' s context run.world (named s.command)) u in
      elim (or_catch_ok out next handler {i = i} h) [
        | inl (done, e) ↦
            let (u', same) = went done in run_steps_ok context d steps out.1 {i = i} u' (same ∙ f) e
        | inr (x, e) ↦ inr (fail_step_ok context d s x left out.1 {i = i} broke e)
      ]

  -- A saga that is answered has ended in one of two ways: it is COMPLETED, with all the steps of its
  -- definition, in their order, and no failure or compensation; or it is COMPENSATED after some of
  -- the steps, and of those exactly the ones whose definition names a compensation have had it, the
  -- last step first, whether the bus accepted it or not.
  pub start_saga_ok :
      (id correlation : String) (context : SagaContext) (d : SagaDefinition)
      (registry : Map SagaInstance) (w : W) {i : SagaInstance}
      → lookup d.saga_id definitions ≡ some d
      → (start_saga submit append env now definitions id correlation context d registry w).0 ≡ ok i
      → IsDone d i ⊎ IsUndone d i
  unfolding start_saga emit
  start_saga_ok id correlation context d registry w {i} found h =
      let i0 = new_instance now id d correlation context in
      let begun =
        emit submit append env now definitions "saga.started"
          (record { instance' = i0; registry = create i0 registry; world = w }) in
      let (a, b, c) =
        and_then_ok begun (run_steps submit append env now definitions context d.steps) h in
      run_steps_ok context d d.steps begun.1 {i = i}
        (record { named = found; steps = refl; compensations = refl }) refl c
