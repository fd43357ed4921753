-- ===== src/Execution/Kernel/Denials.antt =====
-- What packages/runtime/src/execution/kernel-executor.ts logs of a command that the authority boundary
-- denies.
pub mod Others
pub mod Reports
use Prim.Native.String.{◌++◌ as join}
use sovr_protocol.Prelude.{
  length, ℕ, suc, ◌≡◌, refl, ap, ◌∙◌, inl, inr, String, Bool, true, false, Option, none, some, List,
  [], ◌∷◌, ◌++◌, ◌&&◌, includes, map, All, arith, append-nil, Bool-cases, if-cases,
}
use sovr_protocol.Prelude.Result.{Result, ok, err, is_ok, ◌>>=◌}
use sovr_protocol.Prelude.Value.{Value, has_field, fields_of, Items, nil, cons, get, truthy}
use sovr_protocol.Prelude.Text.{text_of}
use sovr_protocol.Server.EventStore.{EventStore, Envelope, StoreError, AppendInput, make_envelope}
use sovr_protocol.Execution.StateRegistry.{StateRegistry}
use sovr_protocol.Execution.AtomicCommit.{AtomicStateUpdate}
use sovr_protocol.Execution.AtomicCommit as AtomicCommit
use sovr_protocol.Execution.AuthorityBoundary.{
  AuthorityCheckInput, AuthorityCheckResult, AuthorityViolationType, AuthorityViolationEvent,
  CapabilityGrant, CapabilityConstraints, Environment, granted, denied, deny, constrained,
  capability_exempt_commands, is_internal_system_command, find_matching_grant, constraints_of,
  matched, with_grants, is_expired, is_revoked,
}
use sovr_protocol.Execution.AuthorityBoundary as AuthorityBoundary
use sovr_protocol.Execution.EventEnforcement.{EnforcementResult}
use sovr_protocol.Execution.Kernel.{
  CommandEnvelope, Kernel, KernelState, Refusal, rejected, validation_error, identity_violation,
  authority_boundary_violation, require, enforced, authorised, rule_passed, run_rules,
  evaluate_instructions, identity_check, capability_check,
}
use sovr_protocol.Execution.Kernel.Audits.{AuditEvent, audit_input, authority_audit, audits_of}
use sovr_protocol.Execution.Kernel.Execute.{
  checks, emissions, run_checks, admit, boundary_check, boundary_audits, authority_check,
  authority_audits, gate_check, gate_audits, sovereignty_check, definition_of, execute, commit,
  audited, audits, stamped, append_events, conclude, is_identified,
}
use sovr_protocol.Server.EventStore.Atomic.{envelope_of}
use sovr_protocol.Execution.Invariants.{enforce_command}
use sovr_protocol.Execution.Kernel.Safety.{execute_refused_log}
use sovr_protocol.Execution.Kernel.Admission.{authority_input}
use sovr_protocol.Execution.Kernel.Plan.{PlannedTransition, find_transition}
use sovr_protocol.Execution.Kernel.Plan.Events.{
  added, joined, plan_event, plan_events, plan_transitions_and_events, success_events, updates_of,
}
use sovr_protocol.Execution.Kernel.Denials.Others.{
  is_denial, denies, denies-require, denies_bind, denies_boundary, denies_identity, denies-enforced,
  denies_later, denies-conclude,
}
use sovr_protocol.Execution.Kernel.Denials.Reports.{denial, check-IsReported}

-- A check that cannot deny has passed where the checks from it on deny.
passed_by :
    (c : Result Refusal (Unit {0})) (cs : List (Result Refusal (Unit {0}))) {x : Refusal}
    → denies c ≡ false
    → run_checks (c ∷ cs) ≡ err x
    → is_denial x ≡ true
    → (is_ok c ≡ true) × (run_checks cs ≡ err x)
unfolding run_checks
passed_by (ok u) cs h e d = (refl, e)
passed_by (err y) cs h e d = absurd (ground (arith, h, e, d))

bind_denied {ℓ κ} :
    {A : Type ℓ} {B : Type κ} (m : Result Refusal A) (f : A → Result Refusal B) {x : Refusal}
    → ((a : A) → denies (f a) ≡ false)
    → (m >>= f) ≡ err x
    → is_denial x ≡ true
    → m ≡ err x
bind_denied (ok a) f h e d = absurd (ground (arith, h a, e, d))
bind_denied (err y) f h e d = ground (arith, e)

never_denies :
    (cs : List (Result Refusal (Unit {0})))
    → All (λ c. denies c ≡ false) cs
    → denies (run_checks cs) ≡ false
unfolding run_checks
never_denies [] h = refl
never_denies (c ∷ cs) h = denies_bind c (λ _. run_checks cs) h.0 (λ _. never_denies cs h.1)

-- The check that denies is the one before checks that cannot.
denied_by :
    (c : Result Refusal (Unit {0})) (cs : List (Result Refusal (Unit {0}))) {x : Refusal}
    → denies (run_checks cs) ≡ false
    → run_checks (c ∷ cs) ≡ err x
    → is_denial x ≡ true
    → c ≡ err x
unfolding run_checks
denied_by (ok u) cs h e d = absurd (ground (arith, h, e, d))
denied_by (err y) cs h e d = ground (arith, e)

boundary_quiet :
    (request : CommandEnvelope)
    → is_ok (boundary_check request) ≡ true
    → boundary_audits request ≡ []
unfolding boundary_check boundary_audits
boundary_quiet request h = ground (arith, h)

commit_denied :
    (k : Kernel) (n : ℕ) (s : KernelState) (request : CommandEnvelope)
    (plan : Result Refusal (List PlannedTransition × List AppendInput)) {x : Refusal}
    → (commit k n s request plan).0 ≡ err x
    → is_denial x ≡ true
    → plan ≡ err x
commit_denied k n s request (err y) h d = ground (arith, h)
commit_denied k n s request (ok (ts, inputs)) h d =
    let out =
      AtomicCommit.execute (append_events k n inputs) k.initial_state s.registry s.store
        (updates_of request ts) in
    absurd (ground (arith, h, d, denies-conclude ts out))

audits_of_passed :
    (c : Result Refusal (Unit {0})) (cs : List (Result Refusal (Unit {0}))) (e : List AuditEvent)
    (es : List (List AuditEvent))
    → is_ok c ≡ true
    → audits_of (c ∷ cs) (e ∷ es) ≡ e ++ audits_of cs es
unfolding audits_of
audits_of_passed c cs e es h = rw h refl

audits_of_refused :
    (c : Result Refusal (Unit {0})) (cs : List (Result Refusal (Unit {0}))) (e : List AuditEvent)
    (es : List (List AuditEvent)) {x : Refusal}
    → c ≡ err x
    → audits_of (c ∷ cs) (e ∷ es) ≡ e
unfolding audits_of
audits_of_refused c cs e es h = rw h (append-nil e)

module _ (k : Kernel) (r : StateRegistry) (request : CommandEnvelope) where
  abbrev def : Value
  def = definition_of k request

  -- The checks from the sixth on, and what they would append.
  abbrev later : List (Result Refusal (Unit {0}))
  later =
      enforced (enforce_command (has_field (fields_of k.corpus.commands)) request.command_name)
      ∷ gate_check k request def
      ∷ sovereignty_check k r request def
      ∷ capability_check k request def
      ∷ evaluate_instructions k request
      ∷ []

  abbrev later_emissions : List (List AuditEvent)
  later_emissions = [] ∷ gate_audits k request def ∷ [] ∷ [] ∷ [] ∷ []

  -- A denied command has passed the four checks before, and its audit events are the boundary's.
  denied_audits :
      {reason : String}
      → run_checks (checks k r request) ≡ err (rejected authority_boundary_violation reason)
      → (authority_check k request def ≡ err (rejected authority_boundary_violation reason))
        × (audits_of (checks k r request) (emissions k request) ≡ authority_audits k request def)
  denied_audits {reason} h =
      let x = rejected authority_boundary_violation reason in
      let (gate, sovereign, capable, valid, plan) = denies_later k r request def in
      let c5 = authority_check k request def in
      let c4 = identity_check request def in
      let c3 = boundary_check request in
      let c2 = require (is_identified request) (identity_violation "missing identity_context") in
      let c1 =
        require (truthy def)
          (validation_error "UNKNOWN_COMMAND" (join "Unknown command " request.command_name)) in
      let cs5 = c5 ∷ later in
      let e5 = authority_audits k request def in
      let es5 = e5 ∷ later_emissions in
      let (p1, h2) =
        passed_by c1 (c2 ∷ c3 ∷ c4 ∷ cs5) {x = x} (denies-require (truthy def) _ refl) h refl in
      let (p2, h3) =
        passed_by c2 (c3 ∷ c4 ∷ cs5) {x = x} (denies-require (is_identified request) _ refl) h2
          refl in
      let (p3, h4) = passed_by c3 (c4 ∷ cs5) {x = x} (denies_boundary request) h3 refl in
      let (p4, h5) = passed_by c4 cs5 {x = x} (denies_identity request def) h4 refl in
      let none_later = never_denies later (
        denies-enforced
            (enforce_command (has_field (fields_of k.corpus.commands)) request.command_name),
        (gate, (sovereign, (capable, (valid, tt)))),
      ) in
      let refused = denied_by c5 later {x = x} none_later h5 refl in
      (
        refused,
        audits_of_passed c1 (c2 ∷ c3 ∷ c4 ∷ cs5) [] ([] ∷ boundary_audits request ∷ [] ∷ es5) p1
            ∙ audits_of_passed c2 (c3 ∷ c4 ∷ cs5) [] (boundary_audits request ∷ [] ∷ es5) p2
            ∙ audits_of_passed c3 (c4 ∷ cs5) (boundary_audits request) ([] ∷ es5) p3
            ∙ ap (λ b. b ++ audits_of (c4 ∷ cs5) ([] ∷ es5)) (boundary_quiet request p3)
            ∙ audits_of_passed c4 cs5 [] es5 p4
            ∙ audits_of_refused c5 later e5 later_emissions {x = x} refused,
      )

-- A command that the authority boundary denies leaves exactly one event at the end of the log: the
-- boundary's, with the command, the actor, the aggregate, the capability that was asked for, and the
-- reason of the answer in its payload.
pub execute_denied :
    (k : Kernel) (s : KernelState) (request : CommandEnvelope) {reason : String}
    → (execute k s request).0 ≡ err (rejected authority_boundary_violation reason)
    → (v : AuthorityViolationType) × ((execute k s request).1.store.events
        ≡ s.store.events
          ++ make_envelope
              (k.stamps 0)
              (audit_input (authority_audit (denial (authority_input k request) v reason)))
            ∷ [])
unfolding execute admit authority_check authority_audits audits stamped
execute_denied k s request {reason} h =
    let x = rejected authority_boundary_violation reason in
    let r = s.registry in
    let plan =
      commit_denied k (length (audits k r request)) (audited k s request) request
        (admit k r request) {x = x} h refl in
    let run =
      bind_denied (run_checks (checks k r request))
        (λ _. plan_transitions_and_events k r request (definition_of k request)) {x = x}
        (λ _. (denies_later k r request (definition_of k request)).4) plan refl in
    let (refused, events) = denied_audits k r request {reason = reason} run in
    let input = authority_input k request in
    let (v, one) = check-IsReported k.authority input reason refused in
    (
      v,
      execute_refused_log k s request {x = x} h
          ∙ ap (λ es. s.store.events ++ map envelope_of (stamped k.stamps 0 (map audit_input es)))
              (events ∙ ap (λ es. map authority_audit es) one),
    )
