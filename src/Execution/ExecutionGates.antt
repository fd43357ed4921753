-- ===== src/Execution/ExecutionGates.antt =====
-- packages/runtime/src/execution/ExecutionGateEnforcer.ts, with the types that it takes from
-- execution/types.ts: the gates of a command, in their order. The evaluators are a parameter; the
-- events that go to the event store are part of the answer, since what the store answers is not
-- read, and the durations of the records are left out.
use Prim.Native.String.{◌++◌ as join}
pub mod Chain
mod Examples
use sovr_protocol.Prelude.{
  ◌≡◌, String, Bool, true, false, not, Option, none, some, List, [], ◌∷◌, ◌++◌, if◌then◌else◌,
  or_default,
}
use sovr_protocol.Prelude.Maps.{Map, lookup, insert}
use sovr_protocol.Prelude.Result.{Result, ok, err}
use sovr_protocol.Prelude.Value.{Value}

pub record GateDefinition : Type 0 where
  pub gate_id : String
  pub gate_type : String
  pub config : Value
  pub fatal : Bool
  pub description : String

pub record GateCheckInput : Type 0 where
  pub command_name : String
  pub command_id : String
  pub correlation_id : String
  pub aggregate_id : String
  pub actor_id : String
  pub payload : Value
  pub gates : List GateDefinition

pub record GateEvaluationRecord : Type 0 where
  pub gate_id : String
  pub gate_type : String
  pub passed : Bool
  pub reason : Option String

pub record GateFailure : Type 0 where
  pub gate_id : String
  pub gate_type : String
  pub reason : String

pub record GateCheckResult : Type 0 where
  pub passed : Bool
  pub failure : Option GateFailure
  pub evaluated : List GateEvaluationRecord

-- What `evaluate` answers: whether the gate is passed, and why.
pub record Evaluation : Type 0 where
  pub passed : Bool
  pub reason : Option String

abbrev pub Evaluator : Type 0
Evaluator = String → String → Value → Value → Result String Evaluation

-- `command.advisory.gate_warning` and `command.rejected.execution_gate_failed`.
pub data GateEvent : Type 0 where
  warning : GateDefinition → String → GateEvent
  rejection : GateFailure → List GateEvaluationRecord → GateEvent

-- The constructor: of two evaluators for one type, the later one stays.
unfoldable pub register_evaluators : List (String × Evaluator) → Map Evaluator → Map Evaluator
register_evaluators [] m = m
register_evaluators ((type, e) ∷ es) m = register_evaluators es (insert type e m)

-- An evaluator that throws has failed its gate.
abbrev pub caught : Result String Evaluation → Evaluation
caught (ok r) = r
caught (err message) = record {
  passed = false;
  reason = some (join "Gate evaluator error: " message);
}

abbrev pub unknown_reason : String → String
unknown_reason type = join "Unknown gate type '" (join type "' — fail closed")

abbrev pub record_of : GateDefinition → Evaluation → GateEvaluationRecord
record_of g r = record {
  gate_id = g.gate_id;
  gate_type = g.gate_type;
  passed = r.passed;
  reason = r.reason;
}

abbrev pub unknown : GateDefinition → Evaluation
unknown g = record { passed = false; reason = some (unknown_reason g.gate_type) }

-- What the loop leaves: the fatal failure that ended it, the records and the warnings.
pub record Progress : Type 0 where
  pub first_fatal_failure : Option GateFailure
  pub evaluated : List GateEvaluationRecord
  pub warnings : List GateEvent

abbrev pub stopped : GateDefinition → String → List GateEvaluationRecord → List GateEvent → Progress
stopped g reason evaluated warnings = record {
  first_fatal_failure =
      some (record { gate_id = g.gate_id; gate_type = g.gate_type; reason = reason });
  evaluated = evaluated;
  warnings = warnings;
}

-- The loop of `check`.
unfoldable pub run_gates :
    Map Evaluator
    → GateCheckInput
    → List GateDefinition
    → List GateEvaluationRecord
    → List GateEvent
    → Progress
run_gates evaluators input [] evaluated warnings = record {
  first_fatal_failure = none;
  evaluated = evaluated;
  warnings = warnings;
}
run_gates evaluators input (g ∷ gs) evaluated warnings = elim (lookup g.gate_type evaluators) [
  | none ↦
      let recorded = evaluated ++ record_of g (unknown g) ∷ [] in
      let rest = run_gates evaluators input gs recorded warnings in
      if g.fatal then stopped g (unknown_reason g.gate_type) recorded warnings else rest
  | some evaluate ↦
      let r = caught (evaluate input.aggregate_id input.actor_id input.payload g.config) in
      let recorded = evaluated ++ record_of g r ∷ [] in
      let advised = warnings ++ warning g (or_default r.reason "Advisory gate failed") ∷ [] in
      let rest = run_gates evaluators input gs recorded warnings in
      let rest_advised = run_gates evaluators input gs recorded advised in
      if r.passed
      then rest
      else (if g.fatal
          then stopped g (or_default r.reason "Gate condition not satisfied") recorded warnings
          else rest_advised)
]

abbrev pub conclude : Progress → GateCheckResult × List GateEvent
conclude p = elim p.first_fatal_failure [
  | none ↦ (record { passed = true; failure = none; evaluated = p.evaluated }, p.warnings)
  | some f ↦ (
    record { passed = false; failure = some f; evaluated = p.evaluated },
    p.warnings ++ rejection f p.evaluated ∷ [],
  )
]

abbrev pub check_all :
    Map Evaluator → GateCheckInput → List GateDefinition → GateCheckResult × List GateEvent
check_all evaluators input [] = (record { passed = true; failure = none; evaluated = [] }, [])
check_all evaluators input (g ∷ gs) = conclude (run_gates evaluators input (g ∷ gs) [] [])

unfoldable pub check : Map Evaluator → GateCheckInput → GateCheckResult × List GateEvent
check evaluators input = check_all evaluators input input.gates
