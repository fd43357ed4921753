-- ===== src/Execution/Kernel/Denials/Others.antt =====
-- The refusals of packages/runtime/src/execution/kernel-executor.ts that are not the one of the authority
-- boundary.
use sovr_protocol.Prelude.{
  ℕ, suc, ◌≡◌, refl, inl, inr, String, Bool, true, false, List, [], ◌∷◌, arith, Bool-cases,
}
use sovr_protocol.Prelude.Result.{Result, ok, err, ◌>>=◌}
use sovr_protocol.Prelude.Value.{Value, Items, nil, cons, get, truthy}
use sovr_protocol.Prelude.Text.{text_of}
use sovr_protocol.Server.EventStore.{EventStore, Envelope, StoreError}
use sovr_protocol.Execution.StateRegistry.{StateRegistry}
use sovr_protocol.Execution.AtomicCommit.{AtomicStateUpdate}
use sovr_protocol.Execution.EventEnforcement.{EnforcementResult}
use sovr_protocol.Execution.Kernel.{
  CommandEnvelope, Kernel, Refusal, rejected, authority_boundary_violation, require, enforced,
  rule_passed, run_rules, evaluate_instructions, identity_check, capability_check,
}
use sovr_protocol.Execution.Kernel.Execute.{boundary_check, gate_check, sovereignty_check, conclude}
use sovr_protocol.Execution.Kernel.Plan.{PlannedTransition, find_transition}
use sovr_protocol.Execution.Kernel.Plan.Events.{
  added, joined, plan_event, plan_events, plan_transitions_and_events, success_events,
}

-- Whether a refusal is the one of the authority boundary, and whether a call ends with it.
abbrev pub is_denial : Refusal → Bool
is_denial (rejected authority_boundary_violation reason) = true
is_denial _ = false

abbrev pub denies {ℓ} : {A : Type ℓ} → Result Refusal A → Bool
denies (ok a) = false
denies (err x) = is_denial x

pub denies_bind {ℓ κ} :
    {A : Type ℓ} {B : Type κ} (m : Result Refusal A) (f : A → Result Refusal B)
    → denies m ≡ false
    → ((a : A) → denies (f a) ≡ false)
    → denies (m >>= f) ≡ false
denies_bind (ok a) f h k = k a
denies_bind (err x) f h k = h

pub denies-require :
    (test : Bool) (x : Refusal) → is_denial x ≡ false → denies (require test x) ≡ false
denies-require true x h = refl
denies-require false x h = h

denies_rule :
    (command : String) (rule : Value) (r : Result String Bool)
    → denies (rule_passed command rule r) ≡ false
denies_rule command rule (err x) = refl
denies_rule command rule (ok true) = refl
denies_rule command rule (ok false) = refl

denies_rules :
    (k : Kernel) (request : CommandEnvelope) (rules : List Value)
    → denies (run_rules k request rules) ≡ false
denies_rules k request [] = refl
denies_rules k request (rule ∷ rules) =
    denies_bind (rule_passed request.command_name rule (k.evaluate request rule))
      (λ _. run_rules k request rules)
      (denies_rule request.command_name rule (k.evaluate request rule))
      (λ _. denies_rules k request rules)

denies_transition :
    (k : Kernel) (r : StateRegistry) (request : CommandEnvelope) (event : String) (domain : Value)
    (aggregate id : String)
    → denies (find_transition k r request event domain aggregate id) ≡ false
unfolding find_transition
denies_transition k r request event domain aggregate id = ground arith

denies_plan :
    (k : Kernel) (r : StateRegistry) (request : CommandEnvelope) (def : Value) (i : ℕ)
    (names : Items)
    → denies (plan_events k r request def i names) ≡ false
unfolding plan_events plan_event
denies_plan k r request def i nil = refl
denies_plan k r request def i (cons name names) =
    let event = text_of name in
    let event_def = get k.corpus.events event in
    let rest = plan_events k r request def (suc i) names in
    let later = denies_plan k r request def (suc i) names in
    elim (Bool-cases (truthy event_def)) [
      | inr e ↦ rw e later
      | inl e ↦ rw e (
          denies_bind (plan_event k r request def i event event_def) (joined rest)
            (denies_bind _ _ (denies_transition k r request event _ _ _) (λ t. refl))
            (λ a. denies_bind rest (added a.0 a.1) later (λ b. refl)))
    ]

pub denies_boundary : (request : CommandEnvelope) → denies (boundary_check request) ≡ false
unfolding boundary_check
denies_boundary request = ground arith

pub denies_identity :
    (request : CommandEnvelope) (def : Value) → denies (identity_check request def) ≡ false
unfolding identity_check
denies_identity request def = ground arith

pub denies-enforced : (e : EnforcementResult) → denies (enforced e) ≡ false
denies-enforced e = denies-require e.allowed _ refl

-- Behind the authority check, no check and no plan ends with its refusal.
pub denies_later :
    (k : Kernel) (r : StateRegistry) (request : CommandEnvelope) (def : Value)
    → (denies (gate_check k request def) ≡ false)
      × (denies (sovereignty_check k r request def) ≡ false)
      × (denies (capability_check k request def) ≡ false)
      × (denies (evaluate_instructions k request) ≡ false)
      × (denies (plan_transitions_and_events k r request def) ≡ false)
unfolding gate_check sovereignty_check capability_check evaluate_instructions
    plan_transitions_and_events
denies_later k r request def = (
  denies-require _ _ refl,
  ground arith,
  denies-require _ _ refl,
  denies_rules k request _,
  denies_plan k r request def 1 (success_events def),
)

pub denies-conclude :
    (ts : List PlannedTransition)
    (out : Result StoreError (List Envelope × List AtomicStateUpdate) × StateRegistry × EventStore)
    → denies (conclude ts out).0 ≡ false
denies-conclude ts (ok (events, us), r, s) = refl
denies-conclude ts (err x, r, s) = refl
