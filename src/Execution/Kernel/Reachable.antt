-- ===== src/Execution/Kernel/Reachable.antt =====
-- The states that packages/runtime/src/execution/kernel-executor.ts can reach, command after command.
use sovr_protocol.Prelude.{
  ℕ, length, ◌≡◌, refl, ◌∙◌, sym, subst, inl, inr, String, Bool, true, false, Option, List, [], ◌∷◌,
  arith, ◌==◌, eq_iff, All, Bool-cases,
}
use sovr_protocol.Prelude.Maps.{lookup}
use sovr_protocol.Prelude.Result.{Result, ok, err, Result-cases}
use sovr_protocol.Server.EventStore.{EventStore, AppendInput, empty_store}
use sovr_protocol.Server.EventStore.Indexes.{
  IsIndexed, empty_store-IsIndexed, append_many_atomic-IsIndexed,
}
use sovr_protocol.Server.EventStore.Causation.{IsCausal, append_many_atomic-IsCausal}
use sovr_protocol.Execution.StateRegistry.{
  StateRegistry, StateTransition, new_registry, key, set_state,
}
use sovr_protocol.Execution.StateRegistry.Laws.{state_at, state_at-set_state}
use sovr_protocol.Execution.AtomicCommit.{AtomicStateUpdate, apply_updates}
use sovr_protocol.Execution.AtomicCommit as AtomicCommit
use sovr_protocol.Execution.AtomicCommit.States.{IsNamed}
use sovr_protocol.Execution.Kernel.{CommandEnvelope, Kernel, KernelState, Refusal}
use sovr_protocol.Execution.Kernel.Audits.Log.{append_each-IsIndexed, append_each-IsCausal}
use sovr_protocol.Execution.Kernel.Plan.{PlannedTransition}
use sovr_protocol.Execution.Kernel.Plan.Events.{updates_of}
use sovr_protocol.Execution.Kernel.Execute.{
  audits, admit, stamped, append_events, commit, audited, execute,
}
use sovr_protocol.Execution.Kernel.Safety.{
  conclude_stored, atomic_commit_stored, execute_refused, execute_accepted,
}

-- From an empty registry and an empty store that checks causation, by commands that the kernel
-- accepts or refuses; each command meets a kernel of its own time.
pub data Reachable : KernelState → Type 0 where
  started :
      (publisher : Bool)
      → Reachable (record { registry = new_registry; store = empty_store true publisher })
  executed :
      (k : Kernel) (s : KernelState) (request : CommandEnvelope)
      → Reachable s
      → Reachable (execute k s request).1

set_state-IsNamed :
    (r : StateRegistry) (aggregate id state : String) (domain : Option String)
    (t : Option StateTransition)
    → IsNamed r
    → (state == "") ≡ false
    → IsNamed (set_state r aggregate id state domain t)
set_state-IsNamed r aggregate id state domain t h e j f =
    elim (Bool-cases (key aggregate id domain == j)) [
      | inl m ↦ absurd (
          ground
            (arith, e, f, m, state_at-set_state r aggregate id state domain t j, eq_iff state ""))
      | inr m ↦ h j (ground (arith, f, m, state_at-set_state r aggregate id state domain t j))
    ]

apply_updates-IsNamed :
    (r : StateRegistry) (us : List AtomicStateUpdate)
    → All (λ u. (u.state == "") ≡ false) us
    → IsNamed r
    → IsNamed (apply_updates r us)
unfolding apply_updates
apply_updates-IsNamed r [] n h = h
apply_updates-IsNamed r (u ∷ us) n h =
    apply_updates-IsNamed (set_state r u.aggregate u.id u.state u.domain u.transition) us n.1
      (set_state-IsNamed r u.aggregate u.id u.state u.domain u.transition h n.0)

updates_of_lem :
    (request : CommandEnvelope) (ts : List PlannedTransition)
    → All (λ u. (u.state == "") ≡ false) (updates_of request ts)
unfolding updates_of
updates_of_lem request [] = tt
updates_of_lem request (t ∷ ts) = elim (Bool-cases (t.to_state == "")) [
  | inl e ↦ rw e (updates_of_lem request ts)
  | inr e ↦ rw e (e, updates_of_lem request ts)
]

commit-store :
    (P : EventStore → Type 0) (k : Kernel) (n : ℕ) (s : KernelState) (request : CommandEnvelope)
    (plan : Result Refusal (List PlannedTransition × List AppendInput))
    → ((inputs : List AppendInput) → P (append_events k n inputs s.store).1)
    → P s.store
    → P (commit k n s request plan).1.store
commit-store P k n s request (err x) appended h = h
commit-store P k n s request (ok (ts, inputs)) appended h =
    let us = updates_of request ts in
    subst P
      (sym (
        conclude_stored ts
          (AtomicCommit.execute (append_events k n inputs) k.initial_state s.registry s.store us)
        ∙ atomic_commit_stored (append_events k n inputs) k.initial_state s.registry s.store us))
      (appended inputs)

execute-IsNamed :
    (k : Kernel) (s : KernelState) (request : CommandEnvelope)
    → IsNamed s.registry
    → IsNamed (execute k s request).1.registry
execute-IsNamed k s request h = elim (Result-cases (execute k s request).0) [
  | inl (a, e) ↦
      let (inputs, plan, events, log, registry) = execute_accepted k s request {a = a} e in
      subst IsNamed (sym registry) (
        apply_updates-IsNamed s.registry (updates_of request a.transitions)
          (updates_of_lem request a.transitions) h)
  | inr (x, e) ↦
      let (store, states) = execute_refused k s request h e in λ j f. h j (sym (states j) ∙ f)
]

-- In every state that the kernel reaches, whose log has the audit events of its checks too, no
-- aggregate has the empty text for its state, the counter and the three indexes of the event store
-- are in step with its log, and every event after the first is a root or is caused by an event or a
-- command that is earlier in the log.
pub Reachable-IsSound :
    {s : KernelState} → Reachable s → IsNamed s.registry × IsIndexed s.store × IsCausal s.store
unfolding execute audited new_registry state_at lookup empty_store
Reachable-IsSound (started publisher) =
    ((λ j e. cc), empty_store-IsIndexed true publisher, record { strict = refl; caused = tt })
Reachable-IsSound (executed k s request before) =
    let (named, indexed, causal) = Reachable-IsSound before in
    let plan = admit k s.registry request in
    let events = audits k s.registry request in
    let n = length events in
    let t = audited k s request in
    let stored = append_each-IsIndexed k.disk (stamped k.stamps 0 events) s.store indexed in
    let linked = append_each-IsCausal k.disk (stamped k.stamps 0 events) s.store causal in
    (
      execute-IsNamed k s request named,
      commit-store IsIndexed k n t request plan
          (λ inputs.
            append_many_atomic-IsIndexed t.store (stamped k.stamps n inputs) true k.disk stored)
          stored,
      commit-store IsCausal k n t request plan
          (λ inputs.
            append_many_atomic-IsCausal t.store (stamped k.stamps n inputs) true k.disk linked)
          linked,
    )
