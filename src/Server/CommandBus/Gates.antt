-- ===== src/Server/CommandBus/Gates.antt =====
-- The ways that `submit` of packages/runtime/src/server/commandBus.ts can go.
use sovr_protocol.Prelude.{
  ◌≡◌, refl, String, true, false, not, ◌&&◌, ◌||◌, [], if-cases, arith, Option,
}
use sovr_protocol.Prelude.Maps.{Map}
use sovr_protocol.Prelude.Result.{Result, ok}
use sovr_protocol.Server.EventStore.{StoreError}
use sovr_protocol.Server.CapabilityEngine.{CapabilityEngine}
use sovr_protocol.Execution.Kernel.{CommandEnvelope}
use sovr_protocol.Server.CommandBus.{
  BusCommand, GateResult, BusEnvironment, Moment, CommandBus, BusAnswer, knows,
  get_command_coverage, identity_gate, capability_gate, policy_gate, constitutional_gate,
}
use sovr_protocol.Server.CommandBus.Submit.{refuses, execute_unknown_command}
use sovr_protocol.Server.CommandBus.Submit.Steps.{
  run_kernel, with_meta, lifted, constitutional_step, coverage_step, policy_step, capability_step,
  submit_normalized,
}

-- A gate, or the coverage, ended the command before the kernel.
pub record IsStopped (s : CommandBus) (out : Result StoreError BusAnswer × CommandBus)
    : Type 0 where
  pub answer : BusAnswer
  pub answered : out.0 ≡ ok answer
  pub refused : answer.accepted ≡ false
  pub silent : answer.events ≡ []
  pub unchanged : out.1.kernel_state ≡ s.kernel_state
  pub unprojected : out.1.projected ≡ s.projected

pub record IsUnknown (t : Moment) (b : BusCommand) (s : CommandBus)
    (out : Result StoreError BusAnswer × CommandBus) : Type 0 where
  pub gates : Map GateResult
  pub engine : CapabilityEngine
  pub unknown : knows t.kernel b.envelope.command_name ≡ false
  pub same : out ≡ execute_unknown_command t b gates (record s { capability_engine = engine })

abbrev pub covered_command : BusEnvironment → Moment → CommandEnvelope → CommandEnvelope
covered_command env t c = with_meta t (get_command_coverage env t.kernel c.command_name) c

-- Every gate let the command through, in this order, to the kernel.
pub record IsPassed (env : BusEnvironment) (t : Moment) (c : CommandEnvelope)
    (engine : CapabilityEngine) : Type 0 where
  pub identified : (identity_gate t.kernel c).passed ≡ true
  pub capable : (capability_gate env t.now c engine).0.passed ≡ true
  pub permitted : (policy_gate env c).passed ≡ true
  pub known : knows t.kernel c.command_name ≡ true
  pub covered :
      ((get_command_coverage env t.kernel c.command_name).has_machine
        || (get_command_coverage env t.kernel c.command_name).is_exempt)
      ≡ true
  pub constitutional : (constitutional_gate (covered_command env t c)).passed ≡ true

pub record IsRun (env : BusEnvironment) (t : Moment) (b : BusCommand) (s : CommandBus)
    (out : Result StoreError BusAnswer × CommandBus) : Type 0 where
  pub gates : Map GateResult
  pub passed : IsPassed env t b.envelope s.capability_engine
  pub same :
      out
      ≡ lifted (
          run_kernel env t (covered_command env t b.envelope) gates (record s {
            capability_engine = (capability_gate env t.now b.envelope s.capability_engine).1;
          }))

pub data Ends (env : BusEnvironment) (t : Moment) (b : BusCommand) (s : CommandBus)
    (out : Result StoreError BusAnswer × CommandBus) : Type 0 where
  stopped : IsStopped s out → Ends env t b s out
  unknown : IsUnknown t b s out → Ends env t b s out
  ran : IsRun env t b s out → Ends env t b s out

module _ (env : BusEnvironment) (t : Moment) (b : BusCommand) (s : CommandBus) where
  refuses-Ends :
      (gates : Map GateResult) (error kind : Option String) (engine : CapabilityEngine)
      → Ends env t b s
          (ok (refuses b.envelope gates error kind), record s { capability_engine = engine })
  refuses-Ends gates error kind engine = Ends.stopped (record {
    answer = refuses b.envelope gates error kind;
    answered = refl;
    refused = refl;
    silent = refl;
    unchanged = refl;
    unprojected = refl;
  })

  pub submit_normalized-Ends : Ends env t b s (submit_normalized env t b s)
  unfolding submit_normalized capability_step policy_step coverage_step constitutional_step
      with_meta
  submit_normalized-Ends =
      let c = b.envelope in
      let coverage = get_command_coverage env t.kernel c.command_name in
      let engine = (capability_gate env t.now c s.capability_engine).1 in
      if-cases (Ends env t b s) (identity_gate t.kernel c).passed
        (λ p1.
          if-cases (Ends env t b s) (capability_gate env t.now c s.capability_engine).0.passed
            (λ p2.
              if-cases (Ends env t b s) (policy_gate env c).passed
                (λ p4.
                  if-cases (Ends env t b s) (not (knows t.kernel c.command_name))
                    (λ p. Ends.unknown (record {
                      gates = _;
                      engine = engine;
                      unknown = ground (arith, p);
                      same = refl;
                    }))
                    (λ p.
                      if-cases (Ends env t b s) (not coverage.has_machine && not coverage.is_exempt)
                        (λ q. refuses-Ends _ _ _ engine)
                        (λ q.
                          if-cases (Ends env t b s)
                            (constitutional_gate (covered_command env t c)).passed
                            (λ p5. Ends.ran (record {
                              gates = _;
                              passed = record {
                                identified = p1;
                                capable = p2;
                                permitted = p4;
                                known = ground (arith, p);
                                covered = ground (arith, q);
                                constitutional = p5;
                              };
                              same = refl;
                            }))
                            (λ p5. refuses-Ends _ _ _ engine))))
                (λ p4. refuses-Ends _ _ _ engine))
            (λ p2. refuses-Ends _ _ _ engine))
        (λ p1. refuses-Ends _ _ _ s.capability_engine)
