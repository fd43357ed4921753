-- ===== src/Execution/Saga/Compensation.antt =====
-- How a saga of packages/runtime/src/execution/saga-interpreter.ts ends, and what it has undone then.
use mathlib.Core.List.{map-append}
use sovr_protocol.Prelude.{
  ℕ, ◌≡◌, inl, inr, refl, sym, ap, ◌∙◌, subst, String, Bool, true, Option, none, some, List, [],
  ◌∷◌, ◌++◌, map, reverse, append-nil, append_assoc, arith, eqb_iff, select, find_first, is_some,
  Bool-cases, Option-cases,
}
use sovr_protocol.Prelude.Maps.{Map, lookup}
use sovr_protocol.Prelude.Result.{Result, ok, err}
use sovr_protocol.Execution.SagaRegistry.{
  compensating, compensated, StepRecord, SagaContext, SagaInstance,
}
use sovr_protocol.Execution.SagaPayload.{MapEnvironment, has_number}
use sovr_protocol.Execution.Saga.{
  SagaStep, SagaDefinition, SagaCommand, BusResult, SagaEvent, SagaRun, change, named, record_of,
  step_result, compensation_result, compensation_of, and_then,
}
use sovr_protocol.Execution.Saga.Run.{
  submitted, execute_compensation, emit, compensated_with, compensate_step, compensate_steps,
  finish_compensation, undo_all, compensate,
}

abbrev pub numbers : List StepRecord → List ℕ
numbers rs = map (λ (r : StepRecord). r.step) rs

abbrev pub step_numbers : List SagaStep → List ℕ
step_numbers ss = map (λ (s : SagaStep). s.step) ss

-- A completed step whose definition names a compensation.
abbrev pub is_undoable : List SagaStep → StepRecord → Bool
is_undoable steps done = is_some (compensation_of steps done)

find_first_holds :
    {A : Type 0} (p : A → Bool) (xs : List A) {x : A} → find_first p xs ≡ some x → p x ≡ true
unfolding find_first
find_first_holds p [] h = cc
find_first_holds p (y ∷ xs) {x} h = elim (Bool-cases (p y)) [
  | inl e ↦ ground (arith, e, h)
  | inr e ↦ find_first_holds p xs {x = x} (ground (arith, e, h))
]

compensation_of_number :
    (steps : List SagaStep) (done : StepRecord) {s : SagaStep} {name : String}
    → compensation_of steps done ≡ some (s, name)
    → s.step ≡ done.step
unfolding compensation_of
compensation_of_number steps done {s} {name} h =
    elim (Option-cases (find_first (λ (x : SagaStep). has_number x.step done) steps)) [
      | inl e ↦ absurd (ground (arith, e, h))
      | inr (x, e) ↦ elim (Option-cases (named x.compensation_command)) [
        | inl f ↦ absurd (ground (arith, e, f, h))
        | inr (n, f) ↦
            let same : x ≡ s = ground (arith, e, f, h) in
            let p = find_first_holds (λ (x : SagaStep). has_number x.step done) steps e in
            ground (arith, same, (eqb_iff done.step x.step).0 p)
      ]
    ]

pub and_then_ok :
    {W : Type 0} {A : Type 0} (m : Result String (Unit {0}) × SagaRun W)
    (next : SagaRun W → Result String A × SagaRun W) {a : A}
    → (and_then m next).0 ≡ ok a
    → (m.0 ≡ ok tt) × (and_then m next ≡ next m.1) × ((next m.1).0 ≡ ok a)
and_then_ok (ok _, run) next h = (refl, refl, h)
and_then_ok (err x, run) next h = cc

-- What the loop of compensations leaves of an instance.
abbrev Undone : List SagaStep → List StepRecord → SagaInstance → SagaInstance → Type 0
Undone steps todo i i' =
    (numbers i'.compensation_steps
      ≡ numbers i.compensation_steps ++ numbers (select (is_undoable steps) todo))
    × (i'.completed_steps ≡ i.completed_steps)

Undone-trans :
    (steps : List SagaStep) (done : StepRecord) (todo : List StepRecord) (i j k : SagaInstance)
    → Undone steps (done ∷ []) i j
    → Undone steps todo j k
    → Undone steps (done ∷ todo) i k
unfolding select
Undone-trans steps done todo i j k a b = elim (Bool-cases (is_undoable steps done)) [
  | inl e ↦ (
    ground (
      arith,
      e,
      a.0,
      b.0,
      append_assoc (numbers i.compensation_steps) (done.step ∷ [])
          (numbers (select (is_undoable steps) todo)),
    ),
    b.1 ∙ a.1,
  )
  | inr e ↦ (ground (arith, e, a.0, b.0, append-nil (numbers i.compensation_steps)), b.1 ∙ a.1)
]

pub step_result-step :
    (s : SagaStep) (r : Result String BusResult) {x : StepRecord}
    → step_result s r ≡ ok x
    → x.step ≡ s.step
unfolding step_result record_of
step_result-step s (err y) h = cc
step_result-step s (ok r) h = ground (arith, h)

compensation_result-step :
    (s : SagaStep) (r : Result String BusResult) {x : StepRecord}
    → compensation_result s r ≡ ok x
    → x.step ≡ s.step
unfolding compensation_result record_of
compensation_result-step s (err y) h = cc
compensation_result-step s (ok r) h = ground (arith, h)

-- What an instance says that has been compensated from another.
abbrev pub Reversed : List SagaStep → SagaInstance → SagaInstance → Type 0
Reversed steps i i' =
    (i'.current_state ≡ compensated)
    × (i'.completed_steps ≡ i.completed_steps)
    × (numbers i'.compensation_steps
        ≡ numbers i.compensation_steps
          ++ numbers (select (is_undoable steps) (reverse i.completed_steps)))

module _ {W : Type 0} (submit : SagaCommand → W → Result String BusResult × W)
    (append : SagaEvent → W → Result String (Unit {0}) × W) (env : MapEnvironment) (now : String)
    (definitions : Map SagaDefinition) where
  compensated_with-step :
      (s : SagaStep) (r : Result String StepRecord) (w : W) (run : SagaRun W)
      → ((x : StepRecord) → r ≡ ok x → x.step ≡ s.step)
      → (compensated_with submit append env now definitions s (r, w) run).0 ≡ ok tt
      → let i' = (compensated_with submit append env now definitions s (r, w) run).1.instance' in
        (numbers i'.compensation_steps ≡ numbers run.instance'.compensation_steps ++ s.step ∷ [])
        × (i'.completed_steps ≡ run.instance'.completed_steps)
  unfolding compensated_with emit
  compensated_with-step s (err x) w run e h = cc
  compensated_with-step s (ok r) w run e h = (
    map-append (λ (x : StepRecord). x.step) run.instance'.compensation_steps (r ∷ [])
        ∙ ap (λ n. numbers run.instance'.compensation_steps ++ n ∷ []) (e r refl),
    refl,
  )

  compensate_step_ok :
      (steps : List SagaStep) (context : SagaContext) (done : StepRecord) (run : SagaRun W)
      (c : Option (SagaStep × String))
      → compensation_of steps done ≡ c
      → let out = compensate_step submit append env now definitions context c run in
        out.0 ≡ ok tt → Undone steps (done ∷ []) run.instance' out.1.instance'
  unfolding compensate_step execute_compensation select
  compensate_step_ok steps context done run none e h =
      (ground (arith, e, append-nil (numbers run.instance'.compensation_steps)), refl)
  compensate_step_ok steps context done run (some (s, name)) e h =
      let out =
        submitted submit append env now definitions s name context run.instance' true run.world in
      let (n, c) =
        compensated_with-step s (compensation_result s out.0) out.1 run
          (λ x k. compensation_result-step s out.0 {x = x} k) h in
      (ground (arith, e, n, compensation_of_number steps done {s = s} {name = name} e), c)

  compensate_steps_ok :
      (steps : List SagaStep) (context : SagaContext) (todo : List StepRecord) (run : SagaRun W)
      → let out = compensate_steps submit append env now definitions steps context todo run in
        out.0 ≡ ok tt → Undone steps todo run.instance' out.1.instance'
  unfolding compensate_steps select
  compensate_steps_ok steps context [] run h =
      (sym (append-nil (numbers run.instance'.compensation_steps)), refl)
  compensate_steps_ok steps context (done ∷ rest) run h =
      let step =
        compensate_step submit append env now definitions context (compensation_of steps done)
          run in
      let next = λ (r : SagaRun W).
        compensate_steps submit append env now definitions steps context rest r in
      let (first, opened, second) = and_then_ok step next h in
      subst
        (λ (o : Result String (Unit {0}) × SagaRun W).
          Undone steps (done ∷ rest) run.instance' o.1.instance')
        (sym opened)
        (Undone-trans steps done rest run.instance' step.1.instance' (next step.1).1.instance'
          (compensate_step_ok steps context done run (compensation_of steps done) refl first)
          (compensate_steps_ok steps context rest step.1 second))

  undo_all_ok :
      (context : SagaContext) (d : SagaDefinition) (run : SagaRun W) (found : Option SagaDefinition)
      → found ≡ some d
      → (undo_all submit append env now definitions context found run).0 ≡ ok tt
      → Undone d.steps
          (reverse run.instance'.completed_steps)
          run.instance'
          (undo_all submit append env now definitions context found run).1.instance'
  unfolding undo_all
  undo_all_ok context d run none e h = cc
  undo_all_ok context d run (some d') e h =
      let same : d' ≡ d = cc in
      let todo = reverse run.instance'.completed_steps in
      let out = compensate_steps submit append env now definitions d'.steps context todo run in
      subst (λ (q : SagaDefinition). Undone q.steps todo run.instance' out.1.instance') same
        (compensate_steps_ok d'.steps context todo run h)

  pub compensate_ok :
      (context : SagaContext) (d : SagaDefinition) (run : SagaRun W) {i : SagaInstance}
      → lookup run.instance'.saga_name definitions ≡ some d
      → (compensate submit append env now definitions context run).0 ≡ ok i
      → Reversed d.steps run.instance' i
  unfolding compensate finish_compensation emit
  compensate_ok context d run {i} found h =
      let begun =
        emit submit append env now definitions "saga.compensating"
          (change (λ j. record j { current_state = compensating }) run) in
      let undo = λ (r : SagaRun W).
        undo_all submit append env now definitions context
          (lookup r.instance'.saga_name definitions) r in
      let rest = λ (r : SagaRun W).
        and_then (undo r) (finish_compensation submit append env now definitions) in
      let (a, b, c) = and_then_ok begun rest h in
      let undone = undo begun.1 in
      let (e, f, g) =
        and_then_ok undone (finish_compensation submit append env now definitions) c in
      let (n, kept) =
        undo_all_ok context d begun.1 (lookup begun.1.instance'.saga_name definitions) found e in
      let last =
        emit submit append env now definitions "saga.compensated"
          (change (λ j. record j { current_state = compensated; updated_at = now }) undone.1) in
      let (x, y, z) = and_then_ok last (λ (r : SagaRun W). (ok r.instance', r)) g in
      let same : last.1.instance' ≡ i = cc in
      subst (Reversed d.steps run.instance') same ((refl, kept, n))
