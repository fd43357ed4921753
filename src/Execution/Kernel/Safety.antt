-- ===== src/Execution/Kernel/Safety.antt =====
-- What a command leaves behind in packages/runtime/src/execution/kernel-executor.ts, refused and
-- accepted.
use sovr_protocol.Prelude.{
  ℕ, suc, ◌≡◌, refl, ap, ◌∙◌, sym, inl, inr, String, true, Option, List, [], ◌∷◌, ◌++◌, map, All,
  length, arith,
}
use sovr_protocol.Prelude.Result.{Result, ok, err, Result-cases}
use sovr_protocol.Server.EventStore.{EventStore, Envelope, AppendInput, Stamp, StoreError}
use sovr_protocol.Server.EventStore.Atomic.{
  envelope_of, append_many_atomic_error, append_many_atomic_appends,
}
use sovr_protocol.Execution.StateRegistry.{StateRegistry}
use sovr_protocol.Execution.StateRegistry.Laws.{state_at}
use sovr_protocol.Execution.AtomicCommit.{AtomicStateUpdate, apply_updates}
use sovr_protocol.Execution.AtomicCommit as AtomicCommit
use sovr_protocol.Execution.AtomicCommit.States.{IsNamed, execute_restores_states}
use sovr_protocol.Execution.Kernel.{CommandEnvelope, Kernel, KernelState, Refusal}
use sovr_protocol.Execution.Kernel.Audits.{AuditEvent, audit_input, audits_of}
use sovr_protocol.Execution.Kernel.Audits.Log.{append_each_appends}
use sovr_protocol.Execution.Kernel.Plan.{PlannedTransition}
use sovr_protocol.Execution.Kernel.Plan.Events.{updates_of}
use sovr_protocol.Execution.Kernel.Execute.{
  checks, emissions, audits, admit, stamped, append_events, Acceptance, conclude, commit, audited,
  execute,
}

conclude_refused :
    (ts : List PlannedTransition)
    (out : Result StoreError (List Envelope × List AtomicStateUpdate) × StateRegistry × EventStore)
    {x : Refusal}
    → (conclude ts out).0 ≡ err x
    → (cause : StoreError) × (out.0 ≡ err cause)
      × ((conclude ts out).1.registry ≡ out.1)
      × ((conclude ts out).1.store ≡ out.2)
conclude_refused ts (ok (events, us), r, s) h = cc
conclude_refused ts (err cause, r, s) h = (cause, refl, refl, refl)

conclude_accepted :
    (ts : List PlannedTransition)
    (out : Result StoreError (List Envelope × List AtomicStateUpdate) × StateRegistry × EventStore)
    {a : Acceptance}
    → (conclude ts out).0 ≡ ok a
    → (us : List AtomicStateUpdate) × (out.0 ≡ ok (a.events, us))
      × (a.transitions ≡ ts)
      × ((conclude ts out).1.registry ≡ out.1)
      × ((conclude ts out).1.store ≡ out.2)
conclude_accepted ts (ok (events, us), r, s) {a} h =
    (us, ground (arith, h), ground (arith, h), refl, refl)
conclude_accepted ts (err cause, r, s) h = cc

module _ {S E A : Type 0} (append_many_atomic : S → Result E A × S) where
  atomic_commit_refused :
      (resolver : Option String → String → Option String) (r : StateRegistry) (s : S)
      (us : List AtomicStateUpdate) {x : E}
      → (AtomicCommit.execute append_many_atomic resolver r s us).0 ≡ err x
      → (append_many_atomic s).0 ≡ err x
  unfolding AtomicCommit.execute
  atomic_commit_refused resolver r s us h = elim (Result-cases (append_many_atomic s).0) [
    | inl (a, e) ↦ ground (arith, e, h)
    | inr (x, e) ↦ ground (arith, e, h)
  ]

  atomic_commit_accepted :
      (resolver : Option String → String → Option String) (r : StateRegistry) (s : S)
      (us vs : List AtomicStateUpdate) {a : A}
      → (AtomicCommit.execute append_many_atomic resolver r s us).0 ≡ ok (a, vs)
      → let out = AtomicCommit.execute append_many_atomic resolver r s us in
        ((append_many_atomic s).0 ≡ ok a)
        × (out.1 ≡ apply_updates r us)
        × (out.2 ≡ (append_many_atomic s).1)
  unfolding AtomicCommit.execute
  atomic_commit_accepted resolver r s us vs h = elim (Result-cases (append_many_atomic s).0) [
    | inl (a, e) ↦ (ground (arith, e, h), rw e refl, rw e refl)
    | inr (x, e) ↦ ground (arith, e, h)
  ]

-- Whatever the outcome, the store is as `appendManyAtomic` left it.
pub conclude_stored :
    (ts : List PlannedTransition)
    (out : Result StoreError (List Envelope × List AtomicStateUpdate) × StateRegistry × EventStore)
    → (conclude ts out).1.store ≡ out.2
conclude_stored ts (ok (events, us), r, s) = refl
conclude_stored ts (err x, r, s) = refl

pub atomic_commit_stored :
    {S E A : Type 0} (append_many_atomic : S → Result E A × S)
    (resolver : Option String → String → Option String) (r : StateRegistry) (s : S)
    (us : List AtomicStateUpdate)
    → (AtomicCommit.execute append_many_atomic resolver r s us).2 ≡ (append_many_atomic s).1
unfolding AtomicCommit.execute
atomic_commit_stored append_many_atomic resolver r s us =
    elim (Result-cases (append_many_atomic s).0) [ inl (a, e) ↦ rw e refl | inr (x, e) ↦ rw e refl ]

commit_refused_states :
    (k : Kernel) (n : ℕ) (s : KernelState) (request : CommandEnvelope)
    (plan : Result Refusal (List PlannedTransition × List AppendInput)) {x : Refusal}
    → IsNamed s.registry
    → (commit k n s request plan).0 ≡ err x
    → (j : String) → state_at (commit k n s request plan).1.registry j ≡ state_at s.registry j
commit_refused_states k n s request (err y) named h j = refl
commit_refused_states k n s request (ok (ts, inputs)) named h j =
    let us = updates_of request ts in
    let append = append_events k n inputs in
    let out = AtomicCommit.execute append k.initial_state s.registry s.store us in
    let (cause, failed, registry, store) = conclude_refused ts out h in
    let e = atomic_commit_refused append k.initial_state s.registry s.store us failed in
    let (answer, states, kept) =
      execute_restores_states append k.initial_state s.registry s.store us named e in
    ap (λ r. state_at r j) registry ∙ states j

commit_refused_store :
    (k : Kernel) (n : ℕ) (s : KernelState) (request : CommandEnvelope)
    (plan : Result Refusal (List PlannedTransition × List AppendInput)) {x : Refusal}
    → (commit k n s request plan).0 ≡ err x
    → (commit k n s request plan).1.store ≡ s.store
commit_refused_store k n s request (err y) h = refl
commit_refused_store k n s request (ok (ts, inputs)) h =
    let us = updates_of request ts in
    let append = append_events k n inputs in
    let out = AtomicCommit.execute append k.initial_state s.registry s.store us in
    let (cause, failed, registry, store) = conclude_refused ts out h in
    store
    ∙ atomic_commit_stored append k.initial_state s.registry s.store us
    ∙ append_many_atomic_error s.store (stamped k.stamps n inputs) true k.disk
        (atomic_commit_refused append k.initial_state s.registry s.store us failed)

-- The audit events of a command as the store keeps them.
abbrev pub audit_envelopes : Kernel → StateRegistry → CommandEnvelope → List Envelope
audit_envelopes k r request = map envelope_of (stamped k.stamps 0 (audits k r request))

stamped_audits_unlinked :
    (stamps : ℕ → Stamp) (n : ℕ) (es : List AuditEvent)
    → All (λ i. i.1.causation_id ≡ i.1.correlation_id) (stamped stamps n (map audit_input es))
unfolding stamped audit_input
stamped_audits_unlinked stamps n [] = tt
stamped_audits_unlinked stamps n (e ∷ es) = (refl, stamped_audits_unlinked stamps (suc n) es)

audited_appends :
    (k : Kernel) (s : KernelState) (request : CommandEnvelope)
    → (audited k s request).store.events ≡ s.store.events ++ audit_envelopes k s.registry request
unfolding audited audits
audited_appends k s request =
    let es = audits_of (checks k s.registry request) (emissions k request) in
    append_each_appends k.disk (stamped k.stamps 0 (map audit_input es)) s.store
      (stamped_audits_unlinked k.stamps 0 es)

pub execute_refused_log :
    (k : Kernel) (s : KernelState) (request : CommandEnvelope) {x : Refusal}
    → (execute k s request).0 ≡ err x
    → (execute k s request).1.store.events ≡ s.store.events ++ audit_envelopes k s.registry request
unfolding execute
execute_refused_log k s request h =
    ap (λ t. t.events)
      (commit_refused_store k (length (audits k s.registry request)) (audited k s request) request
        (admit k s.registry request) h)
    ∙ audited_appends k s request

-- Where no stored state is the empty text, a command that is refused, by any check, by the plan, or
-- by the event store, leaves every aggregate in the state that it had, and at the end of the log
-- exactly the audit events of the checks that ran, in their order, and none of its plan's.
pub execute_refused :
    (k : Kernel) (s : KernelState) (request : CommandEnvelope) {x : Refusal}
    → IsNamed s.registry
    → (execute k s request).0 ≡ err x
    → let after = (execute k s request).1 in
      (after.store.events ≡ s.store.events ++ audit_envelopes k s.registry request)
      × ((j : String) → state_at after.registry j ≡ state_at s.registry j)
unfolding execute audited
execute_refused k s request named h = (
  execute_refused_log k s request h,
  commit_refused_states k (length (audits k s.registry request)) (audited k s request) request
      (admit k s.registry request) named h,
)

commit_accepted :
    (k : Kernel) (n : ℕ) (s : KernelState) (request : CommandEnvelope)
    (plan : Result Refusal (List PlannedTransition × List AppendInput)) {a : Acceptance}
    → (commit k n s request plan).0 ≡ ok a
    → let after = (commit k n s request plan).1 in
      (inputs : List AppendInput) × (plan ≡ ok (a.transitions, inputs))
      × (a.events ≡ map envelope_of (stamped k.stamps n inputs))
      × (after.store.events ≡ s.store.events ++ a.events)
      × (after.registry ≡ apply_updates s.registry (updates_of request a.transitions))
commit_accepted k n s request (err y) h = cc
commit_accepted k n s request (ok (ts, inputs)) {a} h =
    let us = updates_of request ts in
    let append = append_events k n inputs in
    let out = AtomicCommit.execute append k.initial_state s.registry s.store us in
    let (vs, answered, same, registry, store) = conclude_accepted ts out {a = a} h in
    let (appended, applied, kept) =
      atomic_commit_accepted append k.initial_state s.registry s.store us vs answered in
    let (events, log, count, published) =
      append_many_atomic_appends s.store (stamped k.stamps n inputs) true k.disk appended in
    (
      inputs,
      ap (λ t. ok (t, inputs)) (sym same),
      events,
      ap (λ t. t.events) (store ∙ kept) ∙ log,
      registry ∙ applied ∙ ap (λ t. apply_updates s.registry (updates_of request t)) (sym same),
    )

-- A command that is accepted has put at the end of the log first the audit events of its checks and
-- then exactly the events of its plan, with the stamps that follow; it answers the events of the
-- plan, and has applied exactly the state updates of the transitions that it answers.
pub execute_accepted :
    (k : Kernel) (s : KernelState) (request : CommandEnvelope) {a : Acceptance}
    → (execute k s request).0 ≡ ok a
    → let after = (execute k s request).1 in
      (inputs : List AppendInput) × (admit k s.registry request ≡ ok (a.transitions, inputs))
      × (a.events
          ≡ map envelope_of (stamped k.stamps (length (audits k s.registry request)) inputs))
      × (after.store.events ≡ (s.store.events ++ audit_envelopes k s.registry request) ++ a.events)
      × (after.registry ≡ apply_updates s.registry (updates_of request a.transitions))
unfolding execute audited
execute_accepted k s request {a} h =
    let (inputs, plan, events, log, registry) =
      commit_accepted k (length (audits k s.registry request)) (audited k s request) request
        (admit k s.registry request) {a = a} h in
    (inputs, plan, events, log ∙ ap (λ es. es ++ a.events) (audited_appends k s request), registry)
