-- ===== src/Server/CommandBus/Effects.antt =====
-- What `submit` of packages/runtime/src/server/commandBus.ts leaves in the store and in the registry.
use Prim.Native.String.{◌++◌ as join}
use sovr_protocol.Prelude.{
  ◌≡◌, refl, sym, ap, subst, ◌∙◌, ◌⊎◌, inl, inr, Bool, true, false, none, some, List, [], ◌∷◌, ◌++◌,
  arith,
}
use sovr_protocol.Prelude.Maps.{Map}
use sovr_protocol.Prelude.Result.{Result, ok, err}
use sovr_protocol.Server.EventStore.{EventStore, Envelope, StoreError, make_envelope, append}
use sovr_protocol.Server.EventStore.Atomic.{append_unlinked, append_many_atomic_appends}
use sovr_protocol.Execution.Kernel.{
  CommandEnvelope, Kernel, KernelState, Refusal, rejected, validation_error, identity_violation,
  capability_violation, invalid_transition, thrown, commit_failure,
}
use sovr_protocol.Execution.Kernel.Execute.{Acceptance, execute}
use sovr_protocol.Execution.Kernel.Safety.{audit_envelopes, execute_accepted, execute_refused_log}
use sovr_protocol.Server.CommandBus.{
  BusCommand, GateResult, BusEnvironment, Moment, CommandBus, BusAnswer, knows,
  normalize_command_envelope, capability_gate, kernel_at,
}
use sovr_protocol.Server.CommandBus.Submit.{
  refuses, unknown_input, unknown_answer, execute_unknown_command, finished, projection_answer,
  refusal_answer, project,
}
use sovr_protocol.Server.CommandBus.Submit.Steps.{
  run_kernel, engine_after, submit_normalized, submit,
}
use sovr_protocol.Server.CommandBus.Gates.{
  IsStopped, IsUnknown, IsRun, IsPassed, Ends, stopped, unknown, ran, covered_command,
  submit_normalized-Ends,
}

causes_itself :
    (t : Moment) (b : BusCommand)
    → (unknown_input t b).causation_id ≡ (unknown_input t b).correlation_id
unfolding unknown_input
causes_itself t b = refl

unknown_answered :
    (b : BusCommand) (gates : Map GateResult) (s : CommandBus)
    (out : Result StoreError (List Envelope) × EventStore) {es : List Envelope}
    → out.0 ≡ ok es
    → (answer : BusAnswer) × ((unknown_answer b gates s out).0 ≡ ok answer)
      × (answer.accepted ≡ false)
      × (answer.events ≡ es)
      × ((unknown_answer b gates s out).1.kernel_state.store ≡ out.1)
      × ((unknown_answer b gates s out).1.kernel_state.registry ≡ s.kernel_state.registry)
unknown_answered b gates s (ok events, store) h = (
  record (refuses b.envelope gates (some (join "Unknown command " b.envelope.command_name)) none) {
    events = events;
  },
  refl,
  refl,
  ground (arith, h),
  refl,
  refl,
)
unknown_answered b gates s (err x, store) h = cc

pub record IsUnknownAnswer (t : Moment) (b : BusCommand) (s : KernelState) (answer : BusAnswer)
    (after : KernelState) : Type 0 where
  pub unaccepted : answer.accepted ≡ false
  pub events : answer.events ≡ make_envelope t.stamp (unknown_input t b) ∷ []
  pub log : after.store.events ≡ s.store.events ++ answer.events
  pub registry : after.registry ≡ s.registry

execute_unknown_command-IsUnknownAnswer :
    (t : Moment) (b : BusCommand) (gates : Map GateResult) (s : CommandBus)
    → let out = execute_unknown_command t b gates s in
      (answer : BusAnswer) × (out.0 ≡ ok answer)
      × IsUnknownAnswer t b s.kernel_state answer out.1.kernel_state
unfolding execute_unknown_command append
execute_unknown_command-IsUnknownAnswer t b gates s =
    let store = s.kernel_state.store in
    let input = unknown_input t b in
    let taken = append_unlinked store t.stamp input t.kernel.disk (causes_itself t b) in
    let (answer, answered, refused, events, kept, registry) =
      unknown_answered b gates s (append store t.stamp input t.kernel.disk) taken in
    let (same, log, count, published) =
      append_many_atomic_appends store ((t.stamp, input) ∷ []) false t.kernel.disk taken in
    (
      answer,
      answered,
      record {
        unaccepted = refused;
        events = events;
        log = ap (λ x. x.events) kept ∙ log ∙ ap (λ es. store.events ++ es) (sym events);
        registry = registry;
      },
    )

-- What an accepted run of the kernel answers, unless a projection throws on one of its events.
pub record IsCommitted (k : Kernel) (c : CommandEnvelope) (s : KernelState) (done : List Envelope)
    (answer : BusAnswer) (after : KernelState) : Type 0 where
  pub acceptance : Acceptance
  pub executed : (execute k s c).0 ≡ ok acceptance
  pub left : after ≡ (execute k s c).1
  pub log :
      after.store.events ≡ (s.store.events ++ audit_envelopes k s.registry c) ++ acceptance.events
  pub outcome :
      ((answer.accepted ≡ true) × (answer.events ≡ acceptance.events))
      ⊎ ((answer.accepted ≡ false)
          × (answer.events ≡ [])
          × ((project acceptance.events done).0 ≡ false))

-- A run of the kernel that ended with a refusal, which the audit events of its checks show.
pub record IsRefused (k : Kernel) (c : CommandEnvelope) (s : KernelState) (answer : BusAnswer)
    (after : KernelState) : Type 0 where
  pub refusal : Refusal
  pub executed : (execute k s c).0 ≡ err refusal
  pub unaccepted : answer.accepted ≡ false
  pub silent : answer.events ≡ []
  pub left : after ≡ (execute k s c).1
  pub log : after.store.events ≡ s.store.events ++ audit_envelopes k s.registry c

refusal_answer_unaccepted :
    (c : CommandEnvelope) (gates : Map GateResult) (x : Refusal)
    → ((refusal_answer c gates x).accepted ≡ false) × ((refusal_answer c gates x).events ≡ [])
refusal_answer_unaccepted c gates (rejected code reason) = (refl, refl)
refusal_answer_unaccepted c gates (validation_error code message) = (refl, refl)
refusal_answer_unaccepted c gates (identity_violation message) = (refl, refl)
refusal_answer_unaccepted c gates (capability_violation message) = (refl, refl)
refusal_answer_unaccepted c gates (invalid_transition message) = (refl, refl)
refusal_answer_unaccepted c gates (thrown message) = (refl, refl)
refusal_answer_unaccepted c gates (commit_failure x) = (refl, refl)

projection_answer_outcome :
    (c : CommandEnvelope) (gates : Map GateResult) (a : Acceptance) (projected : Bool)
    → let answer = projection_answer c gates a projected in
      ((answer.accepted ≡ true) × (answer.events ≡ a.events))
      ⊎ ((answer.accepted ≡ false) × (answer.events ≡ []) × (projected ≡ false))
projection_answer_outcome c gates a true = inl (refl, refl)
projection_answer_outcome c gates a false = inr (refl, refl, refl)

module _ (env : BusEnvironment) (k : Kernel) (c : CommandEnvelope) (gates : Map GateResult)
    (s : CommandBus) where
  finished-cases :
      (out : Result Refusal Acceptance × KernelState)
      → execute k s.kernel_state c ≡ out
      → let (answer, after) = finished c gates s out in
        IsCommitted k c s.kernel_state s.projected answer after.kernel_state
        ⊎ IsRefused k c s.kernel_state answer after.kernel_state
  finished-cases (ok a, left) h = inl (record {
    acceptance = a;
    executed = ap (λ o. o.0) h;
    left = sym (ap (λ o. o.1) h);
    log =
        ap (λ o. o.1.store.events) (sym h)
        ∙ (execute_accepted k s.kernel_state c {a = a} (ap (λ o. o.0) h)).3;
    outcome = projection_answer_outcome c gates a (project a.events s.projected).0;
  })
  finished-cases (err x, left) h = inr (record {
    refusal = x;
    executed = ap (λ o. o.0) h;
    unaccepted = (refusal_answer_unaccepted c gates x).0;
    silent = (refusal_answer_unaccepted c gates x).1;
    left = sym (ap (λ o. o.1) h);
    log =
        ap (λ o. o.1.store.events) (sym h)
        ∙ execute_refused_log k s.kernel_state c {x = x} (ap (λ o. o.0) h);
  })

abbrev pub kernel_for : BusEnvironment → Moment → BusCommand → CommandBus → Kernel
kernel_for env t b s = kernel_at env t (capability_gate env t.now b.envelope s.capability_engine).1

-- How a submission ends, by the answer and by what it leaves.
pub data Verdict (env : BusEnvironment) (t : Moment) (b : BusCommand) (s : CommandBus)
    (answer : BusAnswer) (after : CommandBus) : Type 0 where
  held :
      answer.accepted ≡ false
      → answer.events ≡ []
      → after.kernel_state ≡ s.kernel_state
      → Verdict env t b s answer after
  unlisted :
      knows t.kernel b.envelope.command_name ≡ false
      → IsUnknownAnswer t b s.kernel_state answer after.kernel_state
      → Verdict env t b s answer after
  committed :
      IsPassed env t b.envelope s.capability_engine
      → IsCommitted
          (kernel_for env t b s)
          (covered_command env t b.envelope)
          s.kernel_state
          s.projected
          answer
          after.kernel_state
      → Verdict env t b s answer after
  refused :
      IsPassed env t b.envelope s.capability_engine
      → IsRefused
          (kernel_for env t b s)
          (covered_command env t b.envelope)
          s.kernel_state
          answer
          after.kernel_state
      → Verdict env t b s answer after

abbrev IsDecided :
    BusEnvironment
    → Moment
    → BusCommand
    → CommandBus
    → Result StoreError BusAnswer × CommandBus
    → Type 0
IsDecided env t b s out =
    (answer : BusAnswer) × (out.0 ≡ ok answer) × Verdict env t b s answer out.1

module _ (env : BusEnvironment) (t : Moment) (b : BusCommand) (s : CommandBus) where
  stopped-IsDecided :
      (out : Result StoreError BusAnswer × CommandBus) → IsStopped s out → IsDecided env t b s out
  stopped-IsDecided out h = (h.answer, h.answered, Verdict.held h.refused h.silent h.unchanged)

  unknown-IsDecided :
      (out : Result StoreError BusAnswer × CommandBus)
      → IsUnknown t b s out
      → IsDecided env t b s out
  unknown-IsDecided out h =
      let (answer, answered, k) =
        execute_unknown_command-IsUnknownAnswer t b h.gates
          (record s { capability_engine = h.engine }) in
      subst (IsDecided env t b s) (sym h.same) (answer, answered, Verdict.unlisted h.unknown k)

  ran-IsDecided :
      (out : Result StoreError BusAnswer × CommandBus)
      → IsRun env t b s out
      → IsDecided env t b s out
  unfolding run_kernel
  ran-IsDecided out h =
      let engine = (capability_gate env t.now b.envelope s.capability_engine).1 in
      let c = covered_command env t b.envelope in
      let k = kernel_for env t b s in
      let s' : CommandBus = record s {
        capability_engine = engine_after env t c s.kernel_state engine;
      } in
      let out' = finished c h.gates s' (execute k s.kernel_state c) in
      subst (IsDecided env t b s) (sym h.same)
        (elim (finished-cases env k c h.gates s' (execute k s.kernel_state c) refl) [
          | inl x ↦ (out'.0, refl, Verdict.committed h.passed x)
          | inr x ↦ (out'.0, refl, Verdict.refused h.passed x)
        ])

  Ends-IsDecided :
      (out : Result StoreError BusAnswer × CommandBus)
      → Ends env t b s out
      → IsDecided env t b s out
  Ends-IsDecided out (stopped h) = stopped-IsDecided out h
  Ends-IsDecided out (unknown h) = unknown-IsDecided out h
  Ends-IsDecided out (ran h) = ran-IsDecided out h

pub submit-Verdict :
    (env : BusEnvironment) (t : Moment) (b : BusCommand) (s : CommandBus)
    → (answer : BusAnswer) × ((submit env t b s).0 ≡ ok answer)
      × Verdict env t (normalize_command_envelope t.kernel b) s answer (submit env t b s).1
unfolding submit
submit-Verdict env t b s =
    let n = normalize_command_envelope t.kernel b in
    Ends-IsDecided env t n s (submit_normalized env t n s) (submit_normalized-Ends env t n s)
