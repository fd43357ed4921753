-- ===== src/Execution/GateEvaluators/Examples.antt =====
-- A payment of 7 from an account that holds 10.

use mathlib.Core.List.{Memᴰ}
use sovr_protocol.Prelude.{◌≡◌, refl, String, true, Option, some, [], ◌∷◌, ◌==◌, if◌then◌else◌}
use sovr_protocol.Prelude.Maps.{Map, lookup}
use sovr_protocol.Prelude.Int.{ℤ, pos}
use sovr_protocol.Prelude.Result.{Result, ok, err}
use sovr_protocol.Prelude.Value.{Value, str, num, obj, field, end, get}
use sovr_protocol.Prelude.Text.{text_of}
use sovr_protocol.Execution.ExecutionGates.{
  GateDefinition, GateCheckInput, Evaluator, run_gates, check,
}
use sovr_protocol.Execution.GateEvaluators.{balance_sufficient}
use sovr_protocol.Execution.GateEvaluators.Amounts.{IsFunded, check-IsFunded}

abbrev big_int : String → Result String ℤ
big_int s = if s == "7" then ok (pos 7) else err "SyntaxError"

abbrev get_balance : String → Result String (Option ℤ)
get_balance account = ok (some (pos 10))

abbrev payload : Value
payload = obj (field "from" (str "alice") (field "amount" (str "7") end))

abbrev balance_gate : GateDefinition
balance_gate = record {
  gate_id = "g1";
  gate_type = "BALANCE_SUFFICIENT";
  config =
      obj (field "accountPayloadKey" (str "from") (field "amountPayloadKey" (str "amount") end));
  fatal = true;
  description = "";
}

abbrev evaluators : Map Evaluator
evaluators = ("BALANCE_SUFFICIENT", balance_sufficient big_int get_balance) ∷ []

abbrev input : GateCheckInput
input = record {
  command_name = "payment.initiate";
  command_id = "c1";
  correlation_id = "corr-1";
  aggregate_id = "p1";
  actor_id = "alice";
  payload = payload;
  gates = balance_gate ∷ [];
}

payment_passes : (check evaluators input).0.passed ≡ true
unfolding check run_gates lookup balance_sufficient get text_of
payment_passes = refl

check-IsFunded_example : IsFunded big_int get_balance payload balance_gate.config
unfolding lookup
check-IsFunded_example =
    check-IsFunded big_int get_balance evaluators input balance_gate refl (Memᴰ.head refl) refl refl
      payment_passes

abbrev limit_config : Value
limit_config = obj (field "amountPayloadKey" (str "amount") (field "maxAmount" (num (pos 100)) end))
