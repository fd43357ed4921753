-- ===== src/Execution/ExecutionGates/Chain.antt =====
-- The chain of gates of packages/runtime/src/execution/ExecutionGateEnforcer.ts, as a search.
use sovr_protocol.Prelude.{
  ◌≡◌, refl, ap, ◌∙◌, Bool, true, not, ◌&&◌, Option, none, some, List, [], ◌∷◌, ◌++◌, map,
  append_assoc, append-nil, arith, find_first, is_some, Option-cases, Bool-cases, if◌then◌else◌,
  or_default, inl, inr,
}
use sovr_protocol.Prelude.Maps.{Map, lookup}
use sovr_protocol.Execution.ExecutionGates.{
  GateDefinition, GateCheckInput, GateEvaluationRecord, GateFailure, GateEvent, Evaluation,
  Evaluator, Progress, warning, rejection, caught, unknown, record_of, stopped, run_gates,
  GateCheckResult, conclude, check_all, check,
}

-- What a gate comes to, alone: an unknown type and an evaluator that throws have failed.
unfoldable pub evaluation : Map Evaluator → GateCheckInput → GateDefinition → Evaluation
evaluation evaluators input g = elim (lookup g.gate_type evaluators) [
  | none ↦ unknown g
  | some evaluate ↦ caught (evaluate input.aggregate_id input.actor_id input.payload g.config)
]

unfoldable pub blocks : Map Evaluator → GateCheckInput → GateDefinition → Bool
blocks evaluators input g = g.fatal && not (evaluation evaluators input g).passed

-- The gates up to the first that blocks, itself included.
unfoldable pub reached : Map Evaluator → GateCheckInput → List GateDefinition → List GateDefinition
reached evaluators input [] = []
reached evaluators input (g ∷ gs) =
    let rest = reached evaluators input gs in if blocks evaluators input g then g ∷ [] else g ∷ rest

-- A gate warns when its type is known and it has failed without being fatal.
unfoldable pub advice : Map Evaluator → GateCheckInput → GateDefinition → List GateEvent
advice evaluators input g =
    let r = evaluation evaluators input g in
    if is_some (lookup g.gate_type evaluators) && not r.passed && not g.fatal
    then warning g (or_default r.reason "Advisory gate failed") ∷ []
    else []

unfoldable pub warnings_of : Map Evaluator → GateCheckInput → List GateDefinition → List GateEvent
warnings_of evaluators input [] = []
warnings_of evaluators input (g ∷ gs) = advice evaluators input g ++ warnings_of evaluators input gs

-- How a gate that blocks is reported.
abbrev pub failure_of : Map Evaluator → GateCheckInput → Option GateDefinition → Option GateFailure
failure_of evaluators input none = none
failure_of evaluators input (some g) = some (record {
  gate_id = g.gate_id;
  gate_type = g.gate_type;
  reason = or_default (evaluation evaluators input g).reason "Gate condition not satisfied";
})

no_advice :
    (evaluators : Map Evaluator) (input : GateCheckInput) (g : GateDefinition)
    → blocks evaluators input g ≡ true
    → advice evaluators input g ≡ []
unfolding blocks advice
no_advice evaluators input g h = ground (arith, h)

run_gates_step :
    (evaluators : Map Evaluator) (input : GateCheckInput) (g : GateDefinition)
    (gs : List GateDefinition) (evaluated : List GateEvaluationRecord) (warnings : List GateEvent)
    → let r = evaluation evaluators input g in
      let recorded = evaluated ++ record_of g r ∷ [] in
      run_gates evaluators input (g ∷ gs) evaluated warnings ≡ (
        if blocks evaluators input g
        then stopped g (or_default r.reason "Gate condition not satisfied") recorded warnings
        else run_gates evaluators input gs recorded (warnings ++ advice evaluators input g))
unfolding run_gates blocks evaluation advice
run_gates_step evaluators input g gs evaluated warnings =
    elim (Option-cases (lookup g.gate_type evaluators)) [
      | inl e ↦ rw e (ground (arith, append-nil warnings))
      | inr (evaluate, e) ↦ rw e (ground (arith, append-nil warnings))
    ]

run_gates_lem :
    (evaluators : Map Evaluator) (input : GateCheckInput) (gs : List GateDefinition)
    (evaluated : List GateEvaluationRecord) (warnings : List GateEvent)
    → let p = run_gates evaluators input gs evaluated warnings in
      (p.first_fatal_failure
        ≡ failure_of evaluators input (find_first (blocks evaluators input) gs))
      × (p.evaluated
          ≡ evaluated
            ++ map (λ g. record_of g (evaluation evaluators input g)) (reached evaluators input gs))
      × (p.warnings ≡ warnings ++ warnings_of evaluators input (reached evaluators input gs))
unfolding run_gates find_first reached warnings_of
run_gates_lem evaluators input [] evaluated warnings =
    (refl, ground (arith, append-nil evaluated), ground (arith, append-nil warnings))
run_gates_lem evaluators input (g ∷ gs) evaluated warnings =
    let r = evaluation evaluators input g in
    let recorded = evaluated ++ record_of g r ∷ [] in
    let advised = warnings ++ advice evaluators input g in
    let step = run_gates_step evaluators input g gs evaluated warnings in
    let (failed, records, warned) = run_gates_lem evaluators input gs recorded advised in
    elim (Bool-cases (blocks evaluators input g)) [
      | inl e ↦ (
        rw (step, e) refl,
        rw (step, e) refl,
        rw (step, e) (ground (arith, append-nil warnings, no_advice evaluators input g e)),
      )
      | inr e ↦ (
        rw (step, e) failed,
        rw (step, e)
            (ground (
              arith,
              records,
              append_assoc evaluated (record_of g r ∷ []) (
                  map (λ g. record_of g (evaluation evaluators input g))
                    (reached evaluators input gs)),
            )),
        rw (step, e)
            (ground (
              arith,
              warned,
              append_assoc warnings (advice evaluators input g)
                  (warnings_of evaluators input (reached evaluators input gs)),
            )),
      )
    ]

abbrev rejected : Option GateFailure → List GateEvaluationRecord → List GateEvent
rejected none evaluated = []
rejected (some f) evaluated = rejection f evaluated ∷ []

-- The rejection that a result calls for.
abbrev pub rejections : GateCheckResult → List GateEvent
rejections r = rejected r.failure r.evaluated

check_all_lem :
    (evaluators : Map Evaluator) (input : GateCheckInput) (gs : List GateDefinition)
    → check_all evaluators input gs ≡ conclude (run_gates evaluators input gs [] [])
unfolding run_gates
check_all_lem evaluators input [] = refl
check_all_lem evaluators input (g ∷ gs) = refl

conclude_lem :
    (p : Progress)
    → let out = conclude p in
      (out.0.passed ≡ not (is_some p.first_fatal_failure))
      × (out.0.evaluated ≡ p.evaluated)
      × (out.0.failure ≡ p.first_fatal_failure)
conclude_lem p = elim (Option-cases p.first_fatal_failure) [
  | inl e ↦ rw e (refl, refl, refl)
  | inr (f, e) ↦ rw e (refl, refl, refl)
]

conclude_events : (p : Progress) → (conclude p).1 ≡ p.warnings ++ rejections (conclude p).0
conclude_events p = elim (Option-cases p.first_fatal_failure) [
  | inl e ↦ rw e (ground (arith, append-nil p.warnings))
  | inr (f, e) ↦ rw e refl
]

-- The gates are evaluated in their order up to the first that is fatal and not passed, an unknown
-- type and an evaluator that throws counting as not passed. There is a record for each gate so
-- reached. The command passes exactly when no gate is fatal and not passed, and otherwise the first
-- such gate is the failure that is reported.
pub check_evaluates :
    (evaluators : Map Evaluator) (input : GateCheckInput)
    → let out = (check evaluators input).0 in
      let failure =
        failure_of evaluators input (find_first (blocks evaluators input) input.gates) in
      (out.evaluated
        ≡ map
            (λ g. record_of g (evaluation evaluators input g))
            (reached evaluators input input.gates))
      × (out.failure ≡ failure)
      × (out.passed ≡ not (is_some failure))
unfolding check
check_evaluates evaluators input =
    let gs = input.gates in
    let p = run_gates evaluators input gs [] [] in
    let (failed, records, warned) = run_gates_lem evaluators input gs [] [] in
    let (passed, evaluated, failure) = conclude_lem p in
    rw (check_all_lem evaluators input gs, passed, evaluated, failure, failed, records)
      (refl, refl, refl)

-- The events of a check are one warning for each gate that was reached, is known, failed and is not
-- fatal, in the order of the gates, and behind them, when the command is refused, one rejection with the
-- reported failure and all the records.
pub check_gate_events :
    (evaluators : Map Evaluator) (input : GateCheckInput)
    → let out = check evaluators input in
      out.1
      ≡ warnings_of evaluators input (reached evaluators input input.gates) ++ rejections out.0
unfolding check
check_gate_events evaluators input =
    let gs = input.gates in
    let p = run_gates evaluators input gs [] [] in
    let (failed, records, warned) = run_gates_lem evaluators input gs [] [] in
    rw (check_all_lem evaluators input gs)
      (conclude_events p ∙ ap (λ w. w ++ rejections (conclude p).0) warned)
