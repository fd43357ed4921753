-- ===== src/Orchestration/TransactionCoordinator/Safety.antt =====
-- What a command leaves behind in
-- packages/runtime/src/orchestration/transaction-coordinator/index.ts, on each of its ways.
use sovr_protocol.Prelude.{
  ◌≡◌, ◌↔◌, ◌⊎◌, inl, inr, refl, sym, subst, String, true, ◌&&◌, List, [], ◌∷◌, ◌++◌, ◌==◌, eq_iff,
  arith, length, Bool-cases, if◌then◌else◌,
}
use sovr_protocol.Prelude.Result.{Result, ok, err, Result-cases}
use sovr_protocol.Prelude.Value.{Fields, field, end}
use sovr_protocol.Orchestration.{
  SovrCommand, SovrEvent, CommandRoute, AuthorizationResult, WorkflowResult, failed, completed,
}
use sovr_protocol.Orchestration.CommandRouter.{route, route_of, log_route, evaluate_authorization}
use sovr_protocol.Orchestration.PolicyGateway.{PolicyGateway, evaluate}
use sovr_protocol.Orchestration.EventDispatcher.{
  EventDispatcher, dispatch, broken_after, broken_links, validate_chain,
}
use sovr_protocol.Orchestration.TransactionCoordinator.{
  Environment, Moment, AuditOutcome, TransactionContext, TransactionCoordinator, genesis_hash,
  head_hash, event_payload, hashed_fields, text_field, or_text, failure, rejected, create_event,
  made_event, event_type_of,
}
use sovr_protocol.Orchestration.TransactionCoordinator.Transactions.{
  refused_with, performed_with, mutations_for, record_audit, result_of, refuse, perform, execute,
}

-- Each event names the hash of the one before it, the first of them the hash `before`.
abbrev pub IsChainFrom : String → List SovrEvent → Type 0
IsChainFrom before [] = Unit
IsChainFrom before (e ∷ es) = (e.previous_hash ≡ before) × IsChainFrom e.event_hash es

pub IsChainFrom-append :
    (before : String) (es : List SovrEvent) (e : SovrEvent)
    → IsChainFrom before es
    → e.previous_hash ≡ head_hash before es
    → IsChainFrom before (es ++ e ∷ [])
unfolding head_hash
IsChainFrom-append before [] e h k = (k, tt)
IsChainFrom-append before (x ∷ es) e h k = (h.0, IsChainFrom-append x.event_hash es e h.1 k)

-- The links between the events of a list, whatever the first of them names.
abbrev pub IsLinked : List SovrEvent → Type 0
IsLinked [] = Unit
IsLinked (e ∷ es) = IsChainFrom e.event_hash es

broken_after_iff :
    (e : SovrEvent) (es : List SovrEvent) → (broken_after e es ≡ []) ↔ IsChainFrom e.event_hash es
unfolding broken_after
broken_after_iff e [] = ((λ h. tt), λ h. refl)
broken_after_iff e (x ∷ es) = elim (Bool-cases (x.previous_hash == e.event_hash)) [
  | inl m ↦ rw m (
      (
        (λ h. ((eq_iff x.previous_hash e.event_hash).0 m, (broken_after_iff x es).0 h)),
        λ h. (broken_after_iff x es).1 h.1,
      ))
  | inr m ↦ rw m (
      (
        (λ h. absurd (ground (arith, h))),
        λ h. absurd (ground (arith, m, h.0, eq_iff x.previous_hash e.event_hash)),
      ))
]

empty_iff : (d : EventDispatcher) → ((validate_chain d).0 ≡ true) ↔ (broken_links d.events ≡ [])
unfolding validate_chain
empty_iff d = ((λ h. ground (arith, h)), λ h. ground (arith, h))

-- The check of the chain answers valid exactly when every event but the first names the hash of the
-- one before it.
pub validate_chain_iff : (d : EventDispatcher) → ((validate_chain d).0 ≡ true) ↔ IsLinked d.events
unfolding broken_links
validate_chain_iff d = linked d.events (empty_iff d)
  where
    linked :
        (es : List SovrEvent)
        → ((validate_chain d).0 ≡ true) ↔ (broken_links es ≡ [])
        → ((validate_chain d).0 ≡ true) ↔ IsLinked es
    linked [] h = ((λ _. tt), λ _. h.1 refl)
    linked (e ∷ es) h =
        ((λ v. (broken_after_iff e es).0 (h.0 v)), λ l. h.1 ((broken_after_iff e es).1 l))

-- What the policies of a gateway answer of a command.
abbrev pub Judge : Type 0
Judge = SovrCommand → AuthorizationResult

abbrev pub judged_by : Environment → PolicyGateway → Judge
judged_by env g c = evaluate env.exceeds c g

-- A logged transaction was authorized twice, once by the policies, and has one event; it has a
-- mutation only where its route allows that and its command asks for it.
pub record IsSanctioned (judge : Judge) (tx : TransactionContext) : Type 0 where
  pub judged : judge tx.command ≡ tx.policy_result
  pub authorized : tx.authorization.authorized ≡ true
  pub permitted : tx.policy_result.authorized ≡ true
  pub counted : length tx.events ≡ 1
  pub fits : evaluate_authorization tx.command tx.route ≡ tx.authorization
  pub mutated : length tx.mutations ≡ (
      if tx.route.ledger_mutation_allowed
        && tx.command.authorization == "LEDGER_MUTATION_AUTHORIZED"
      then 1
      else 0)

-- The three things that a command can do: nothing, where `JSON.stringify` throws; a refusal; or a
-- transaction.
pub record IsKept (es : List SovrEvent) (txs : List TransactionContext)
    (out : WorkflowResult × TransactionCoordinator) : Type 0 where
  pub events : out.1.dispatcher.events ≡ es
  pub log : out.1.transaction_log ≡ txs
  pub status : out.0.status ≡ failed

pub record IsRefused (es : List SovrEvent) (txs : List TransactionContext)
    (out : WorkflowResult × TransactionCoordinator) : Type 0 where
  pub event : SovrEvent
  pub events : out.1.dispatcher.events ≡ es ++ event ∷ []
  pub previous : event.previous_hash ≡ head_hash genesis_hash es
  pub log : out.1.transaction_log ≡ txs
  pub status : out.0.status ≡ failed

pub record IsPerformed (judge : Judge) (es : List SovrEvent) (txs : List TransactionContext)
    (c : SovrCommand) (out : WorkflowResult × TransactionCoordinator) : Type 0 where
  pub event : SovrEvent
  pub events : out.1.dispatcher.events ≡ es ++ event ∷ []
  pub previous : event.previous_hash ≡ head_hash genesis_hash es
  pub typed : event.event_type ≡ event_type_of c.command_type
  pub transaction : TransactionContext
  pub log : out.1.transaction_log ≡ txs ++ transaction ∷ []
  pub commanded : transaction.command ≡ c
  pub sanctioned : IsSanctioned judge transaction
  pub status : out.0.status ≡ completed

-- An event that continues the chain.
abbrev Continues : String → List SovrEvent → Result String SovrEvent → Type 0
Continues event_type es (ok e) =
    (e.previous_hash ≡ head_hash genesis_hash es) × (e.event_type ≡ event_type)
Continues event_type es (err x) = Unit

create_event-Continues :
    (env : Environment) (m : Moment) (c : SovrCommand) (event_type : String) (extra : Fields)
    (es : List SovrEvent)
    → Continues event_type es (create_event env m c event_type extra es)
unfolding create_event made_event
create_event-Continues env m c event_type extra es =
    elim (Result-cases (
      env.json
        (hashed_fields m c event_type (head_hash genesis_hash es) (event_payload c extra)))) [
          | inl (text, e) ↦ rw e ((refl, refl))
          | inr (x, e) ↦ rw e tt
        ]

refused_with_cases :
    (m : Moment) (c : SovrCommand) (outcome : AuditOutcome) (rule reason event_type : String)
    (t : TransactionCoordinator) (r : Result String SovrEvent)
    → Continues event_type t.dispatcher.events r
    → let out = refused_with m c outcome rule reason t r in
      IsKept t.dispatcher.events t.transaction_log out
      ⊎ IsRefused t.dispatcher.events t.transaction_log out
unfolding refused_with dispatch record_audit result_of
refused_with_cases m c outcome rule reason event_type t (err x) h =
    inl (record { events = refl; log = refl; status = refl })
refused_with_cases m c outcome rule reason event_type t (ok e) h =
    elim (Bool-cases t.audit_enabled) [
      | inl a ↦ inr (record { event = e; events = rw a; previous = h.0; log = rw a; status = refl })
      | inr a ↦ inr (record { event = e; events = rw a; previous = h.0; log = rw a; status = refl })
    ]

performed_with_cases :
    (judge : Judge) (m : Moment) (c : SovrCommand) (r : CommandRoute)
    (authorization policy_result : AuthorizationResult) (t : TransactionCoordinator)
    (made : Result String SovrEvent)
    → authorization.authorized ≡ true
    → policy_result.authorized ≡ true
    → judge c ≡ policy_result
    → evaluate_authorization c r ≡ authorization
    → Continues (event_type_of c.command_type) t.dispatcher.events made
    → let out = performed_with m c r authorization policy_result t made in
      IsKept t.dispatcher.events t.transaction_log out
      ⊎ IsPerformed judge t.dispatcher.events t.transaction_log c out
unfolding performed_with dispatch record_audit result_of
performed_with_cases judge m c r authorization policy_result t (err x) a p j f h =
    inl (record { events = refl; log = refl; status = refl })
performed_with_cases judge m c r authorization policy_result t (ok e) a p j f h =
    let tx : TransactionContext = record {
      command = c;
      route = r;
      authorization = authorization;
      policy_result = policy_result;
      events = e ∷ [];
      mutations = mutations_for m c r;
    } in
    let sanctioned : IsSanctioned judge tx = record {
      judged = j;
      authorized = a;
      permitted = p;
      counted = refl;
      fits = f;
      mutated = ground arith;
    } in
    inr (record {
      event = e;
      events = ground arith;
      previous = h.0;
      typed = h.1;
      transaction = tx;
      log = ground arith;
      commanded = refl;
      sanctioned = sanctioned;
      status = refl;
    })

-- What a command does to the events and to the transactions that were there before it.
abbrev pub Outcome :
    Judge
    → List SovrEvent
    → List TransactionContext
    → SovrCommand
    → WorkflowResult × TransactionCoordinator
    → Type 0
Outcome judge es txs c out =
    IsKept es txs out ⊎ IsRefused es txs out ⊎ IsPerformed judge es txs c out

refuse-Outcome :
    (judge : Judge) (env : Environment) (m : Moment) (c : SovrCommand) (event_type : String)
    (outcome : AuditOutcome) (rule reason : String) (v : AuthorizationResult)
    (t : TransactionCoordinator)
    → Outcome judge t.dispatcher.events t.transaction_log c
        (refuse env m c event_type outcome rule reason v t)
unfolding refuse
refuse-Outcome judge env m c event_type outcome rule reason v t =
    let extra =
      field "reason" (text_field v.reason) (field "violation" (text_field v.violation) end) in
    let made = create_event env m c event_type extra t.dispatcher.events in
    elim (refused_with_cases m c outcome (or_text v.violation rule) (or_text v.reason reason)
      event_type t made (create_event-Continues env m c event_type extra t.dispatcher.events)) [
        | inl k ↦ inl k
        | inr k ↦ inr (inl k)
      ]

perform-Outcome :
    (judge : Judge) (env : Environment) (m : Moment) (c : SovrCommand) (r : CommandRoute)
    (authorization verdict : AuthorizationResult) (t : TransactionCoordinator)
    → authorization.authorized ≡ true
    → verdict.authorized ≡ true
    → judge c ≡ verdict
    → evaluate_authorization c r ≡ authorization
    → Outcome judge t.dispatcher.events t.transaction_log c
        (perform env m c r authorization verdict t)
unfolding perform
perform-Outcome judge env m c r authorization verdict t a p j f =
    let event_type = event_type_of c.command_type in
    let made = create_event env m c event_type end t.dispatcher.events in
    elim (performed_with_cases judge m c r authorization verdict t made a p j f
      (create_event-Continues env m c event_type end t.dispatcher.events)) [
        | inl k ↦ inl k
        | inr k ↦ inr (inr k)
      ]

refused_with-gateway :
    (m : Moment) (c : SovrCommand) (outcome : AuditOutcome) (rule reason : String)
    (t : TransactionCoordinator) (r : Result String SovrEvent)
    → (refused_with m c outcome rule reason t r).1.gateway ≡ t.gateway
unfolding refused_with dispatch record_audit result_of
refused_with-gateway m c outcome rule reason t (err x) = refl
refused_with-gateway m c outcome rule reason t (ok e) = elim (Bool-cases t.audit_enabled) [
  | inl a ↦ rw a refl
  | inr a ↦ rw a refl
]

performed_with-gateway :
    (m : Moment) (c : SovrCommand) (r : CommandRoute)
    (authorization policy_result : AuthorizationResult) (t : TransactionCoordinator)
    (made : Result String SovrEvent)
    → (performed_with m c r authorization policy_result t made).1.gateway ≡ t.gateway
unfolding performed_with dispatch record_audit result_of
performed_with-gateway m c r authorization policy_result t (err x) = refl
performed_with-gateway m c r authorization policy_result t (ok e) = ground arith

-- No command changes the policies.
pub execute-gateway :
    (env : Environment) (m : Moment) (c : SovrCommand) (t : TransactionCoordinator)
    → (execute env m c t).1.gateway ≡ t.gateway
unfolding execute route refuse perform
execute-gateway env m c t =
    let r = route_of t.router c in
    let authorization = evaluate_authorization c r in
    let verdict = evaluate env.exceeds c t.gateway in
    let routed = record t { router = log_route m.routed_at c t.router } in
    let extra = λ (v : AuthorizationResult).
      field "reason" (text_field v.reason) (field "violation" (text_field v.violation) end) in
    ground (
      arith,
      performed_with-gateway m c r authorization verdict routed
          (create_event env m c (event_type_of c.command_type) end t.dispatcher.events),
      refused_with-gateway m c rejected (or_text verdict.violation "POLICY_VIOLATION")
          (or_text verdict.reason "Policy check failed") routed
          (create_event env m c "PolicyRejected" (extra verdict) t.dispatcher.events),
      refused_with-gateway m c failure (or_text authorization.violation "UNAUTHORIZED")
          (or_text authorization.reason "Authorization failed") routed
          (create_event env m c "CommandRejected" (extra authorization) t.dispatcher.events),
    )

-- A command whose event cannot be made changes nothing and fails. Any other puts exactly one event
-- at the end of the chain, with the hash of the one before it: a refused command fails and logs no
-- transaction; a command that completes logs one, which its route and the policies have let through.
pub execute-Outcome :
    (env : Environment) (m : Moment) (c : SovrCommand) (t : TransactionCoordinator)
    → Outcome (judged_by env t.gateway) t.dispatcher.events t.transaction_log c (execute env m c t)
unfolding execute route
execute-Outcome env m c t =
    let r = route_of t.router c in
    let authorization = evaluate_authorization c r in
    let verdict = evaluate env.exceeds c t.gateway in
    let routed = record t { router = log_route m.routed_at c t.router } in
    let judge = judged_by env t.gateway in
    let Out = Outcome judge t.dispatcher.events t.transaction_log c in
    let performed = perform env m c r authorization verdict routed in
    let barred =
      refuse env m c "PolicyRejected" rejected "POLICY_VIOLATION" "Policy check failed" verdict
        routed in
    let denied =
      refuse env m c "CommandRejected" failure "UNAUTHORIZED" "Authorization failed" authorization
        routed in
    let judged = if verdict.authorized then performed else barred in
    elim (Bool-cases authorization.authorized) [
      | inr a ↦
          subst (λ b. Out (if b then judged else denied)) (sym a)
            (refuse-Outcome judge env m c "CommandRejected" failure "UNAUTHORIZED"
              "Authorization failed" authorization routed)
      | inl a ↦
          subst (λ b. Out (if b then judged else denied)) (sym a)
            (elim (Bool-cases verdict.authorized) [
              | inr p ↦
                  subst (λ b. Out (if b then performed else barred)) (sym p)
                    (refuse-Outcome judge env m c "PolicyRejected" rejected "POLICY_VIOLATION"
                      "Policy check failed" verdict routed)
              | inl p ↦
                  subst (λ b. Out (if b then performed else barred)) (sym p)
                    (perform-Outcome judge env m c r authorization verdict routed a p refl refl)
            ])
    ]
