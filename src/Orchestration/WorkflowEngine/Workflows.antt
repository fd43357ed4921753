-- ===== src/Orchestration/WorkflowEngine/Workflows.antt =====
-- What the steps of an intent leave behind, in
-- packages/runtime/src/orchestration/workflow-engine/index.ts.
pub mod Plans
use Prim.Native.String.{◌++◌ as join}
use mathlib.Core.List.{map-append}
use sovr_protocol.Prelude.{
  ℕ, suc, ◌+◌, ◌≤◌, ◌≡◌, inl, inr, refl, sym, ap, subst, ◌∙◌, String, true, Option, none, some,
  List, [], ◌∷◌, ◌++◌, ◌==◌, map, arith, length, length-append, select-append, All, All-append,
  append_assoc, append-nil, Bool-cases, Option-cases, select,
}
use sovr_protocol.Prelude.Result.{Result, ok, err, Result-cases}
use sovr_protocol.Orchestration.{
  SovrCommand, SovrEvent, CommandRoute, ExecutionStep, ExecutionPlan, Intent, WorkflowResult,
  failed, completed,
}
use sovr_protocol.Orchestration.CommandRouter.{evaluate_authorization}
use sovr_protocol.Orchestration.TransactionCoordinator.{
  Environment, Moment, TransactionContext, TransactionCoordinator, event_type_of, genesis_hash,
}
use sovr_protocol.Orchestration.TransactionCoordinator.Transactions
use sovr_protocol.Orchestration.TransactionCoordinator.Safety.{
  Judge, judged_by, IsChainFrom, IsChainFrom-append, IsSanctioned, Outcome, execute-Outcome,
  execute-gateway,
}
use sovr_protocol.Orchestration.WorkflowEngine.{
  WorkflowEngine, moves_money, command_of, Ending, finished, stopped, threw, execute_step,
  verdict_of, run_steps, result_after, result_with, execute_plan, execute_with, execute,
}

-- The mutations of some transactions, all together.
abbrev pub total : List TransactionContext → ℕ
total [] = 0
total (tx ∷ txs) = length tx.mutations + total txs

total-append : (xs ys : List TransactionContext) → total (xs ++ ys) ≡ total xs + total ys
total-append [] ys = omega arith
total-append (x ∷ xs) ys = omega (arith, total-append xs ys)

-- Some events and transactions have been added behind those that were there, and the chain holds
-- where it held before.
pub record IsAdvance (judge : Judge) (t t' : TransactionCoordinator) : Type 0 where
  pub kept : t'.gateway ≡ t.gateway
  pub new : List SovrEvent
  pub added : List TransactionContext
  pub events : t'.dispatcher.events ≡ t.dispatcher.events ++ new
  pub log : t'.transaction_log ≡ t.transaction_log ++ added
  pub chained :
      IsChainFrom genesis_hash t.dispatcher.events → IsChainFrom genesis_hash t'.dispatcher.events
  pub sanctioned : All (IsSanctioned judge) added

IsAdvance-refl : (judge : Judge) (t : TransactionCoordinator) → IsAdvance judge t t
IsAdvance-refl judge t = record {
  kept = refl;
  new = [];
  added = [];
  events = sym (append-nil t.dispatcher.events);
  log = sym (append-nil t.transaction_log);
  chained = λ h. h;
  sanctioned = tt;
}

IsAdvance-trans :
    {judge : Judge} {t u v : TransactionCoordinator}
    → IsAdvance judge t u
    → IsAdvance judge u v
    → IsAdvance judge t v
IsAdvance-trans {judge} {t} {u} {v} a b = record {
  kept = b.kept ∙ a.kept;
  new = a.new ++ b.new;
  added = a.added ++ b.added;
  events = ground (arith, a.events, b.events, append_assoc t.dispatcher.events a.new b.new);
  log = ground (arith, a.log, b.log, append_assoc t.transaction_log a.added b.added);
  chained = λ h. b.chained (a.chained h);
  sanctioned = All-append (IsSanctioned judge) a.added b.added a.sanctioned b.sanctioned;
}

-- The events of the steps, and the mutations that they make.
abbrev pub IsComplete : List ExecutionStep → List SovrEvent → List TransactionContext → Type 0
IsComplete steps new added =
    (map (λ (e : SovrEvent). e.event_type) new
      ≡ map (λ (s : ExecutionStep). event_type_of s.command_type) steps)
    × (total added ≡ length (select moves_money steps))

-- A command is authorized only on a route that allows mutations exactly where the command asks.
evaluate_authorization_allows :
    (c : SovrCommand) (r : CommandRoute)
    → (evaluate_authorization c r).authorized ≡ true
    → r.ledger_mutation_allowed ≡ (c.authorization == "LEDGER_MUTATION_AUTHORIZED")
unfolding evaluate_authorization
evaluate_authorization_allows c r h = ground (arith, h)

pub asks :
    (m : Moment) (s : ExecutionStep) (intent : Intent) (text : String)
    → ((command_of m s intent text).authorization == "LEDGER_MUTATION_AUTHORIZED") ≡ moves_money s
unfolding command_of
asks m s intent text = elim (Bool-cases (moves_money s)) [ inl f ↦ rw f | inr f ↦ rw f ]

mutations_of :
    (m : Moment) (s : ExecutionStep) (intent : Intent) (text : String) {judge : Judge}
    (tx : TransactionContext)
    → tx.command ≡ command_of m s intent text
    → IsSanctioned judge tx
    → total (tx ∷ []) ≡ length (select moves_money (s ∷ []))
unfolding select
mutations_of m s intent text tx e k =
    let asked : (tx.command.authorization == "LEDGER_MUTATION_AUTHORIZED") ≡ moves_money s =
      ap (λ (c : SovrCommand). c.authorization == "LEDGER_MUTATION_AUTHORIZED") e
      ∙ asks m s intent text in
    let allowed : tx.route.ledger_mutation_allowed ≡ moves_money s =
      evaluate_authorization_allows tx.command tx.route
        (ap (λ v. v.authorized) k.fits ∙ k.authorized)
      ∙ asked in
    ground (arith, asked, allowed, k.mutated)

-- A command leaves an advance; one that completes has the event and the mutations of its step.
abbrev StepLeaves :
    Judge
    → TransactionCoordinator
    → ExecutionStep
    → Result String WorkflowResult
    → TransactionCoordinator
    → Type 0
StepLeaves judge t s r t' =
    (a : IsAdvance judge t t') × (verdict_of r ≡ none
      → (length a.new ≡ 1) × IsComplete (s ∷ []) a.new a.added)

Outcome-StepLeaves :
    (judge : Judge) (m : Moment) (s : ExecutionStep) (intent : Intent) (text : String)
    (t : TransactionCoordinator) (out : WorkflowResult × TransactionCoordinator)
    → out.1.gateway ≡ t.gateway
    → Outcome judge t.dispatcher.events t.transaction_log (command_of m s intent text) out
    → StepLeaves judge t s (ok out.0) out.1
unfolding select command_of
Outcome-StepLeaves judge m s intent text t out g (inl k) = (
  record {
    kept = g;
    new = [];
    added = [];
    events = k.events ∙ sym (append-nil t.dispatcher.events);
    log = k.log ∙ sym (append-nil t.transaction_log);
    chained = λ h. rw k.events h;
    sanctioned = tt;
  },
  λ h. absurd (ground (arith, h, k.status)),
)
Outcome-StepLeaves judge m s intent text t out g (inr (inl k)) = (
  record {
    kept = g;
    new = k.event ∷ [];
    added = [];
    events = k.events;
    log = k.log ∙ sym (append-nil t.transaction_log);
    chained =
        λ h. rw k.events (IsChainFrom-append genesis_hash t.dispatcher.events k.event h k.previous);
    sanctioned = tt;
  },
  λ h. absurd (ground (arith, h, k.status)),
)
Outcome-StepLeaves judge m s intent text t out g (inr (inr k)) = (
  record {
    kept = g;
    new = k.event ∷ [];
    added = k.transaction ∷ [];
    events = k.events;
    log = k.log;
    chained =
        λ h. rw k.events (IsChainFrom-append genesis_hash t.dispatcher.events k.event h k.previous);
    sanctioned = (k.sanctioned, tt);
  },
  λ h. (
    refl,
    (ap (λ x. x ∷ []) k.typed, mutations_of m s intent text k.transaction k.commanded k.sanctioned),
  ),
)

execute_step-StepLeaves :
    (env : Environment) (m : Moment) (s : ExecutionStep) (intent : Intent)
    (t : TransactionCoordinator)
    → let (r, t') = execute_step env m s intent t in StepLeaves (judged_by env t.gateway) t s r t'
unfolding execute_step
execute_step-StepLeaves env m s intent t = elim (Result-cases (env.json intent.policy_context)) [
  | inr (x, e) ↦
      rw (e, execute_step)
        ((IsAdvance-refl (judged_by env t.gateway) t, λ h. absurd (ground (arith, h))))
  | inl (text, e) ↦
      rw (e, execute_step)
        (Outcome-StepLeaves (judged_by env t.gateway) m s intent text t
          (Transactions.execute env m (command_of m s intent text) t)
          (execute-gateway env m (command_of m s intent text) t)
          (execute-Outcome env m (command_of m s intent text) t))
]

-- What a run of the steps from the number `i` leaves behind.
abbrev pub RunLeaves :
    Judge
    → TransactionCoordinator
    → List ExecutionStep
    → ℕ
    → Ending × ℕ × TransactionCoordinator
    → Type 0
RunLeaves judge t steps i (ending, at, t') =
    (a : IsAdvance judge t t') × (at ≤ i + length a.new)
    × (ending ≡ finished → IsComplete steps a.new a.added)
    × ((r : WorkflowResult) → ending ≡ stopped r → r.status ≡ failed)

verdict_of_ending :
    (r : Result String WorkflowResult) {ending : Ending}
    → verdict_of r ≡ some ending
    → (ending ≡ finished → ⊥)
      × ((out : WorkflowResult) → ending ≡ stopped out → out.status ≡ failed)
verdict_of_ending (err x) h = ((λ f. ground (arith, h, f)), λ out f. ground (arith, h, f))
verdict_of_ending (ok out) h = ((λ f. ground (arith, h, f)), λ out' f. ground (arith, h, f))

IsComplete-append :
    (xs ys : List ExecutionStep) (new new' : List SovrEvent)
    (added added' : List TransactionContext)
    → IsComplete xs new added
    → IsComplete ys new' added'
    → IsComplete (xs ++ ys) (new ++ new') (added ++ added')
unfolding select
IsComplete-append xs ys new new' added added' h k = (
  map-append type_of new new' ∙ ground (arith, h.0, k.0) ∙ sym (map-append planned xs ys),
  ground (
    arith,
    h.1,
    k.1,
    total-append added added',
    select-append moves_money xs ys,
    length-append (select moves_money xs) (select moves_money ys),
  ),
)
  where
    type_of : SovrEvent → String
    type_of e = e.event_type

    planned : ExecutionStep → String
    planned s = event_type_of s.command_type

pub run_steps-RunLeaves :
    (env : Environment) (moments : ℕ → Moment) (intent : Intent) (i : ℕ)
    (steps : List ExecutionStep) (t : TransactionCoordinator)
    → RunLeaves (judged_by env t.gateway) t steps i (run_steps env moments intent i steps t)
unfolding run_steps IsAdvance-refl IsAdvance-trans select execute_step
run_steps-RunLeaves env moments intent i [] t =
    (IsAdvance-refl (judged_by env t.gateway) t, omega arith, (λ _. (refl, refl)), λ r h. cc)
run_steps-RunLeaves env moments intent i (s ∷ steps) t =
    let (r, t') = execute_step env (moments i) s intent t in
    let (a, one) = execute_step-StepLeaves env (moments i) s intent t in
    let (b, reached, all, broken) =
      subst
        (λ g.
          RunLeaves (judged_by env g) t' steps (suc i)
            (run_steps env moments intent (suc i) steps t'))
        a.kept (run_steps-RunLeaves env moments intent (suc i) steps t') in
    elim (Option-cases (verdict_of r)) [
      | inl e ↦
          rw (e, run_steps)
            ((
              IsAdvance-trans a b,
              omega (arith, reached, (one e).0, length-append {0} a.new b.new),
              (λ h. IsComplete-append (s ∷ []) steps a.new b.new a.added b.added (one e).1 (all h)),
              broken,
            ))
      | inr (ending, e) ↦
          rw (e, run_steps)
            ((
              a,
              omega arith,
              (λ h. absurd ((verdict_of_ending r e).0 h)),
              (verdict_of_ending r e).1,
            ))
    ]
