-- ===== src/Server/CommandBus/Submit/Steps.antt =====
-- packages/runtime/src/server/commandBus.ts, `submit`: the gates in their order, up to the kernel.
use Prim.Native.String.{◌++◌ as join}
use sovr_protocol.Prelude.{
  ℕ, zero, suc, String, true, not, ◌&&◌, none, some, List, [], ◌∷◌, ◌++◌, ◌==◌, if◌then◌else◌,
}
use sovr_protocol.Prelude.Maps.{Map}
use sovr_protocol.Prelude.Result.{is_ok, Result, ok}
use sovr_protocol.Prelude.Value.{Value, bool, str, obj, get, set_field, fields_of}
use sovr_protocol.Server.EventStore.{StoreError}
use sovr_protocol.Server.CapabilityEngine.{CapabilityEngine, check}
use sovr_protocol.Execution.Kernel.{CommandEnvelope, KernelState, Refusal, required_capability}
use sovr_protocol.Execution.Kernel.Execute.{checks, run_checks, definition_of, execute}
use sovr_protocol.Server.CommandBus.{
  BusCommand, GateResult, CommandCoverage, BusEnvironment, Moment, CommandBus, BusAnswer, knows,
  normalize_command_envelope, get_command_coverage, identity_gate, capability_gate, policy_gate,
  constitutional_gate, kernel_at,
}
use sovr_protocol.Server.CommandBus.Submit.{refuses, execute_unknown_command, finished}

unfoldable pub first_checks :
    ℕ → List (Result Refusal (Unit {0})) → List (Result Refusal (Unit {0}))
first_checks zero cs = []
first_checks (suc n) [] = []
first_checks (suc n) (c ∷ cs) = c ∷ first_checks n cs

-- The kernel asks the engine behind its first eight checks, unless the command is internal, and what
-- the engine keeps of its answer stays.
unfoldable pub engine_after :
    BusEnvironment → Moment → CommandEnvelope → KernelState → CapabilityEngine → CapabilityEngine
engine_after env t c s e =
    let k = kernel_at env t e in
    let required = required_capability c (definition_of k c) in
    let asked = if c.capability_id == "" then required else c.capability_id in
    let after = (check env.capabilities t.now c.identity_context.actor_id asked c.scope e).1 in
    if is_ok (run_checks (first_checks 8 (checks k s.registry c)))
      && not (required == "system.internal" && c.identity_context.actor_type == "system")
    then after
    else e

unfoldable pub run_kernel :
    BusEnvironment → Moment → CommandEnvelope → Map GateResult → CommandBus → BusAnswer × CommandBus
run_kernel env t c gates s =
    finished c gates
      (record s { capability_engine = engine_after env t c s.kernel_state s.capability_engine })
      (execute (kernel_at env t s.capability_engine) s.kernel_state c)

abbrev pub set_meta : Value → String → Value → Value
set_meta meta k v = obj (set_field (fields_of meta) k v)

-- `commandForExecution`
unfoldable pub with_meta : Moment → CommandCoverage → CommandEnvelope → CommandEnvelope
with_meta t coverage c =
    let meta = obj (fields_of c.meta) in
    let exempt =
      set_meta
        (set_meta (set_meta meta "lifecycle_exempt" (bool true)) "lifecycle_exempt_reason"
          (get coverage.exemption "lifecycle_exempt_reason"))
        "lifecycle_exempt_governance_ref"
        (get coverage.exemption "lifecycle_exempt_governance_ref") in
    record c {
      meta =
          set_meta (if coverage.is_exempt then exempt else meta) "policy_decision_id"
            (str t.decision_id);
    }

abbrev uncovered : String → String
uncovered name =
    join "UncoveredCommandError: Command "
      (join name " has no state machine coverage and is not declared lifecycle_exempt")

-- A gate that is failed ends the command; behind one that is passed comes the rest.
abbrev pub gated :
    CommandEnvelope
    → Map GateResult
    → GateResult
    → CommandBus
    → Result StoreError BusAnswer × CommandBus
    → Result StoreError BusAnswer × CommandBus
gated c gates g s rest = if g.passed then rest else (ok (refuses c gates g.reason none), s)

abbrev pub lifted : BusAnswer × CommandBus → Result StoreError BusAnswer × CommandBus
lifted (answer, s) = (ok answer, s)

unfoldable pub constitutional_step :
    BusEnvironment
    → Moment
    → CommandEnvelope
    → Map GateResult
    → CommandBus
    → Result StoreError BusAnswer × CommandBus
constitutional_step env t c gates s =
    let g = constitutional_gate c in
    let all = gates ++ ("constitutional", g) ∷ [] in
    gated c all g s (lifted (run_kernel env t c all s))

unfoldable pub coverage_step :
    BusEnvironment
    → Moment
    → BusCommand
    → Map GateResult
    → CommandBus
    → Result StoreError BusAnswer × CommandBus
coverage_step env t b gates s =
    let c = b.envelope in
    let coverage = get_command_coverage env t.kernel c.command_name in
    if not (knows t.kernel c.command_name)
    then execute_unknown_command t b gates s
    else if not coverage.has_machine && not coverage.is_exempt
    then (ok (refuses c gates (some (uncovered c.command_name)) (some "UncoveredCommandError")), s)
    else constitutional_step env t (with_meta t coverage c) gates s

unfoldable pub policy_step :
    BusEnvironment
    → Moment
    → BusCommand
    → Map GateResult
    → CommandBus
    → Result StoreError BusAnswer × CommandBus
policy_step env t b gates s =
    let g = policy_gate env b.envelope in
    let all = gates ++ ("policy", g) ∷ [] in gated b.envelope all g s (coverage_step env t b all s)

unfoldable pub capability_step :
    BusEnvironment
    → Moment
    → BusCommand
    → Map GateResult
    → CommandBus
    → Result StoreError BusAnswer × CommandBus
capability_step env t b gates s =
    let (g, engine) = capability_gate env t.now b.envelope s.capability_engine in
    let all = gates ++ ("capability_scope", g) ∷ [] in
    let s' = record s { capability_engine = engine } in
    gated b.envelope all g s' (policy_step env t b all s')

unfoldable pub submit_normalized :
    BusEnvironment → Moment → BusCommand → CommandBus → Result StoreError BusAnswer × CommandBus
submit_normalized env t b s =
    let g = identity_gate t.kernel b.envelope in
    let all = ("identity", g) ∷ [] in gated b.envelope all g s (capability_step env t b all s)

unfoldable pub submit :
    BusEnvironment → Moment → BusCommand → CommandBus → Result StoreError BusAnswer × CommandBus
submit env t b s = submit_normalized env t (normalize_command_envelope t.kernel b) s
