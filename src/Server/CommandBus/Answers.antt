-- ===== src/Server/CommandBus/Answers.antt =====
-- What the answer of `submit` of packages/runtime/src/server/commandBus.ts says of the command.
use sovr_protocol.Prelude.{
  ◌≡◌, sym, ap, subst, ◌∙◌, ◌⊎◌, inl, inr, String, true, false, ◌++◌, ◌==◌, arith,
}
use sovr_protocol.Prelude.Result.{ok, err, ok_injective}
use sovr_protocol.Execution.StateRegistry.Laws.{state_at}
use sovr_protocol.Execution.AtomicCommit.States.{IsNamed}
use sovr_protocol.Execution.Kernel.{CommandEnvelope, KernelState, Refusal}
use sovr_protocol.Execution.Kernel.Execute.{Acceptance, execute}
use sovr_protocol.Execution.Kernel.Safety.{audit_envelopes, execute_refused}
use sovr_protocol.Server.CommandBus.{
  BusCommand, BusEnvironment, Moment, CommandBus, BusAnswer, knows, normalize_command_envelope,
  policy_gate, constitutional_gate, amount_of, grants_authority,
}
use sovr_protocol.Server.CommandBus.Submit.{project}
use sovr_protocol.Server.CommandBus.Submit.Steps.{with_meta, submit}
use sovr_protocol.Server.CommandBus.Gates.{IsPassed, covered_command}
use sovr_protocol.Server.CommandBus.Effects.{
  IsUnknownAnswer, IsCommitted, Verdict, held, unlisted, committed, refused, kernel_for,
  submit-Verdict,
}

module _ (env : BusEnvironment) (t : Moment) (b : BusCommand) (s : CommandBus) where
  abbrev pub normal : BusCommand
  normal = normalize_command_envelope t.kernel b

  -- The verdict is on the answer that is at hand.
  verdict_on :
      (answer : BusAnswer)
      → (submit env t b s).0 ≡ ok answer
      → Verdict env t normal s answer (submit env t b s).1
  verdict_on answer h =
      let (given, answered, verdict) = submit-Verdict env t b s in
      subst (λ a. Verdict env t normal s a (submit env t b s).1) (ok_injective (sym answered ∙ h))
        verdict

  accepted_verdict :
      (answer : BusAnswer) (after : CommandBus)
      → Verdict env t normal s answer after
      → answer.accepted ≡ true
      → IsPassed env t normal.envelope s.capability_engine
        × IsCommitted
            (kernel_for env t normal s)
            (covered_command env t normal.envelope)
            s.kernel_state
            s.projected
            answer
            after.kernel_state
  accepted_verdict answer after (held neg silent same) h = absurd (ground (arith, neg, h))
  accepted_verdict answer after (unlisted e k) h = absurd (ground (arith, k.unaccepted, h))
  accepted_verdict answer after (committed p k) h = (p, k)
  accepted_verdict answer after (refused p k) h = absurd (ground (arith, k.unaccepted, h))

  -- A command that is accepted has passed the gates on identity, capability, policy and the
  -- constitution, is in the registry and covered, and the kernel has committed it.
  pub submit_accepted :
      (answer : BusAnswer)
      → (submit env t b s).0 ≡ ok answer
      → answer.accepted ≡ true
      → IsPassed env t normal.envelope s.capability_engine
        × IsCommitted
            (kernel_for env t normal s)
            (covered_command env t normal.envelope)
            s.kernel_state
            s.projected
            answer
            (submit env t b s).1.kernel_state
  submit_accepted answer h accepted =
      accepted_verdict answer (submit env t b s).1 (verdict_on answer h) accepted

  abbrev pub IsKept : KernelState → Type 0
  IsKept after =
      (after.store ≡ s.kernel_state.store)
      × ((j : String) → state_at after.registry j ≡ state_at s.kernel_state.registry j)

  -- The kernel refused: the states are as they were, and the audit events of its checks are logged.
  abbrev pub IsAuditedRefusal : KernelState → Type 0
  IsAuditedRefusal after =
      let k = kernel_for env t normal s in
      let c = covered_command env t normal.envelope in
      (x : Refusal) × ((execute k s.kernel_state c).0 ≡ err x)
      × (after.store.events
          ≡ s.kernel_state.store.events ++ audit_envelopes k s.kernel_state.registry c)
      × ((j : String) → state_at after.registry j ≡ state_at s.kernel_state.registry j)

  abbrev pub IsMisprojected : Type 0
  IsMisprojected =
      (a : Acceptance) × ((execute (kernel_for env t normal s) s.kernel_state
          (covered_command env t normal.envelope)).0
        ≡ ok a)
      × ((project a.events s.projected).0 ≡ false)

  refused_verdict :
      (answer : BusAnswer) (after : CommandBus)
      → IsNamed s.kernel_state.registry
      → Verdict env t normal s answer after
      → answer.accepted ≡ false
      → IsKept after.kernel_state
        ⊎ IsAuditedRefusal after.kernel_state
        ⊎ ((knows t.kernel normal.envelope.command_name ≡ false)
            × IsUnknownAnswer t normal s.kernel_state answer after.kernel_state)
        ⊎ IsMisprojected
  refused_verdict answer after named (held neg silent same) h =
      inl (ap (λ k. k.store) same, λ j. ap (λ k. state_at k.registry j) same)
  refused_verdict answer after named (unlisted e k) h = inr (inr (inl (e, k)))
  refused_verdict answer after named (committed p k) h = elim k.outcome [
    | inl o ↦ absurd (ground (arith, o.0, h))
    | inr o ↦ inr (inr (inr (k.acceptance, k.executed, o.2)))
  ]
  refused_verdict answer after named (refused p k) h =
      let (store, states) =
        execute_refused (kernel_for env t normal s) s.kernel_state
          (covered_command env t normal.envelope) named k.executed in
      inr
        (inl (k.refusal, k.executed, k.log, λ j. ap (λ x. state_at x.registry j) k.left ∙ states j))

  -- Where no stored state is the empty text, a command that is rejected has left the store and
  -- every state as they were; or the kernel has refused it, every state is as it was, and exactly
  -- the audit events of the kernel's checks are the new end of the log; or it is not in the
  -- registry, and only that is logged; or the kernel has committed it all the same, and a
  -- projection threw on one of its events.
  pub submit_rejected :
      (answer : BusAnswer)
      → IsNamed s.kernel_state.registry
      → (submit env t b s).0 ≡ ok answer
      → answer.accepted ≡ false
      → IsKept (submit env t b s).1.kernel_state
        ⊎ IsAuditedRefusal (submit env t b s).1.kernel_state
        ⊎ ((knows t.kernel normal.envelope.command_name ≡ false)
            × IsUnknownAnswer t normal s.kernel_state answer (submit env t b s).1.kernel_state)
        ⊎ IsMisprojected
  submit_rejected answer named h neg =
      refused_verdict answer (submit env t b s).1 named (verdict_on answer h) neg

  constitutional_gate_agent :
      (c : CommandEnvelope)
      → (c.identity_context.actor_type == "ai_agent") ≡ true
      → (constitutional_gate c).passed ≡ true
      → grants_authority c.command_name ≡ false
  unfolding constitutional_gate
  constitutional_gate_agent c agent h = ground (arith, agent, h)

  policy_gate_agent :
      (c : CommandEnvelope)
      → (c.identity_context.actor_type == "ai_agent") ≡ true
      → (policy_gate env c).passed ≡ true
      → env.exceeds (amount_of c.payload) 1000000 ≡ false
  unfolding policy_gate
  policy_gate_agent c agent h = ground (arith, agent, h)

  -- Where a command of an AI agent is accepted, its normalised name contains none of
  -- capability.grant, capability.bind and trust_anchor.register, and the test whether `Number` of
  -- its amount is greater than 1000000, which NaN does not pass, is false.
  pub submit_agent :
      (answer : BusAnswer)
      → (submit env t b s).0 ≡ ok answer
      → answer.accepted ≡ true
      → (b.envelope.identity_context.actor_type == "ai_agent") ≡ true
      → (grants_authority normal.envelope.command_name ≡ false)
        × (env.exceeds (amount_of normal.envelope.payload) 1000000 ≡ false)
  unfolding normalize_command_envelope with_meta
  submit_agent answer h accepted agent =
      let (p, k) = submit_accepted answer h accepted in
      (
        constitutional_gate_agent (covered_command env t normal.envelope) agent p.constitutional,
        policy_gate_agent normal.envelope agent p.permitted,
      )
