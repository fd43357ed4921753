-- ===== src/Execution/ExecutionGates/Examples.antt =====
-- Chains of gates with an unknown type, an advisory gate that fails and a fatal one that throws.
use sovr_protocol.Prelude.{◌≡◌, refl, String, Bool, true, false, none, some, [], ◌∷◌}
use sovr_protocol.Prelude.Maps.{Map, lookup}
use sovr_protocol.Prelude.Result.{ok, err}
use sovr_protocol.Prelude.Value.{undefined}
use sovr_protocol.Execution.ExecutionGates.{
  GateDefinition, GateCheckInput, Evaluator, run_gates, check,
}
use sovr_protocol.Execution.ExecutionGates.Chain.{
  evaluation, blocks, reached, failure_of, check_evaluates,
}
use sovr_protocol.Prelude.{find_first, is_some, map, not}
use sovr_protocol.Execution.ExecutionGates.{record_of}

abbrev evaluators : Map Evaluator
evaluators =
    (
      "KYC_VERIFIED",
      λ aggregate actor payload config. ok (record { passed = false; reason = none }),
    )
    ∷ ("ACCOUNT_ACTIVE", λ aggregate actor payload config. err "no connection")
    ∷ []

abbrev gate : String → String → Bool → GateDefinition
gate id type fatal = record {
  gate_id = id;
  gate_type = type;
  config = undefined;
  fatal = fatal;
  description = "";
}

abbrev input : GateCheckInput
input = record {
  command_name = "payment.initiate";
  command_id = "c1";
  correlation_id = "corr-1";
  aggregate_id = "p1";
  actor_id = "alice";
  payload = undefined;
  gates =
      gate "g1" "DEPENDENCY_SATISFIED" false
      ∷ gate "g2" "KYC_VERIFIED" false
      ∷ gate "g3" "ACCOUNT_ACTIVE" true
      ∷ gate "g4" "KYC_VERIFIED" true
      ∷ [];
}

refused :
    (check evaluators input).0.failure
    ≡ some (record {
      gate_id = "g3";
      gate_type = "ACCOUNT_ACTIVE";
      reason = "Gate evaluator error: no connection";
    })
unfolding check run_gates lookup
refused = refl

check_evaluates_example :
    let out = (check evaluators input).0 in
    let failure = failure_of evaluators input (find_first (blocks evaluators input) input.gates) in
    (out.evaluated
      ≡ map
          (λ g. record_of g (evaluation evaluators input g))
          (reached evaluators input input.gates))
    × (out.failure ≡ failure)
    × (out.passed ≡ not (is_some failure))
check_evaluates_example = check_evaluates evaluators input
