-- ===== src/Execution/Kernel.antt =====
-- packages/runtime/src/execution/kernel-executor.ts: one command through the checks of the kernel, in
-- their order, to its plan and the atomic commit of it. The compiled registries, the capability
-- engine's `check` and the rule evaluator are parameters, and the identifiers and time stamps come
-- from outside. The events that the checks append are in Audits.
use Prim.Native.String.{◌++◌ as join, find, slice, len}
pub mod Audits
pub mod Plan
pub mod Execute
pub mod Safety
pub mod Admission
pub mod Denials
pub mod Reachable
mod Examples
use sovr_protocol.Prelude.{
  ℕ, zero, suc, ◌+◌, ◌-◌, String, Bool, true, false, not, ◌&&◌, ◌||◌, Option, none, some, List, [],
  ◌∷◌, ◌++◌, map, ◌==◌, leb, or_default, select, is_some, if◌then◌else◌,
}
use sovr_protocol.Prelude.Maps.{Map}
use sovr_protocol.Prelude.Result.{Result, ok, err, ◌>>=◌}
use sovr_protocol.Prelude.Value.{
  Value, undefined, null, str, arr, obj, Items, nil, cons, Fields, field, end, get, has_field,
  truthy, coalesce, or_else, values, set_field, fields_of, find_item, includes_text, is_text,
}
use sovr_protocol.Prelude.Text.{text_of}
use sovr_protocol.Server.EventStore.{
  EventStore, Envelope, AppendInput, Stamp, Disk, StoreError, append_many_atomic,
}
use sovr_protocol.Execution.StateRegistry.{StateRegistry, StateTransition, has_state, get_state}
use sovr_protocol.Execution.AtomicCommit.{AtomicStateUpdate}
use sovr_protocol.Execution.AtomicCommit as AtomicCommit
use sovr_protocol.Execution.AuthorityBoundary.{Environment, AuthorityCheckResult, granted, denied}
use sovr_protocol.Execution.AuthorityBoundary as AuthorityBoundary
use sovr_protocol.Execution.ExecutionGates.{Evaluator, GateDefinition, GateCheckResult}
use sovr_protocol.Execution.ExecutionGates as ExecutionGates
use sovr_protocol.Execution.EventEnforcement.{EnforcementResult}
use sovr_protocol.Execution.Invariants.{
  enforce_capability_boundary, enforce_command, enforce_sovereignty,
}

-- A missing identifier is the empty text. `optional` has those of session_id, agent_id,
-- model_version and delegation_chain that are given.
pub record IdentityContext : Type 0 where
  pub identity_id : String
  pub actor_id : String
  pub actor_type : String
  pub optional : Fields

abbrev pub identity_value : IdentityContext → Value
identity_value who = obj (
    field "identity_id" (str who.identity_id)
      (field "actor_id" (str who.actor_id) (field "actor_type" (str who.actor_type) who.optional)))

pub record CommandEnvelope : Type 0 where
  pub command_name : String
  pub command_id : String
  pub correlation_id : String
  pub source_domain : String
  pub identity_context : IdentityContext
  pub capability_id : String
  pub scope : String
  pub payload : Value
  pub meta : Value

pub data RejectionCode : Type 0 where
  invariant_violation authority_boundary_violation execution_gate_failed : RejectionCode

-- How `execute` ends without a commit: a result with status REJECTED, or an error that it throws.
pub data Refusal : Type 0 where
  rejected : RejectionCode → String → Refusal
  validation_error : String → String → Refusal
  identity_violation : String → Refusal
  capability_violation : String → Refusal
  invalid_transition : String → Refusal
  thrown : String → Refusal
  commit_failure : StoreError → Refusal

-- The registries are the generated files; `rules` are the validation rules of a command.
pub record Corpus : Type 0 where
  pub commands : Value
  pub events : Value
  pub machines : Items
  pub rules : String → List Value

pub record Kernel : Type 0 where
  pub corpus : Corpus
  pub authority : Environment
  pub evaluators : Map Evaluator
  pub gates_of : Value → List GateDefinition
  pub initial_state : Option String → String → Option String
  pub capability_check : String → String → String → Bool
  pub evaluate : CommandEnvelope → Value → Result String Bool
  pub random_uuid : ℕ → String
  pub stamps : ℕ → Stamp
  pub disk : Disk

pub record KernelState : Type 0 where
  pub registry : StateRegistry
  pub store : EventStore

abbrev pub contains : String → String → Bool
contains s t = leb (find s t) (len s)

-- `/capability\.(grant|bind|revoke)|trust_anchor\.register/`
abbrev pub is_authority_mutation : String → Bool
is_authority_mutation name =
    contains name "capability.grant"
    || contains name "capability.bind"
    || contains name "capability.revoke"
    || contains name "trust_anchor.register"

-- `name.split('.')[1]`
abbrev pub second_part : String → Option String
second_part name =
    let rest = slice name (find name "." + 1) (len name) in
    if contains name "." then some (slice rest 0 (find rest ".")) else none

abbrev pub required_capability : CommandEnvelope → Value → String
required_capability request def = text_of (
    coalesce (get (get def "authorization_requirements") "capability")
      (coalesce (get (get def "issuer") "minimum_capability") (str request.capability_id)))

unfoldable pub resolve_aggregate_id : String → CommandEnvelope → Value → String → String
resolve_aggregate_id uuid request def aggregate =
    let p = request.payload in
    let name = text_of (or_else (get def "aggregate_id_field") (str (join aggregate "_id"))) in
    text_of (
      coalesce (get p name) (
        coalesce (get p (join aggregate "_id")) (
          coalesce (get p "asset_id") (
            coalesce (get p "reservation_id")
              (coalesce (get p "journal_id") (coalesce (get p "order_id") (str uuid)))))))

unfoldable pub command_aggregate_id : Kernel → CommandEnvelope → Value → String
unfolding resolve_aggregate_id
command_aggregate_id k request def = resolve_aggregate_id (k.random_uuid 0) request def (
    text_of (
      coalesce (get def "aggregate")
        (str (or_default (second_part request.command_name) "command"))))

abbrev pub require : Bool → Refusal → Result Refusal (Unit {0})
require test x = if test then ok tt else err x

abbrev pub enforced : EnforcementResult → Result Refusal (Unit {0})
enforced r = require r.allowed (rejected invariant_violation (or_default r.reason ""))

abbrev pub authorised : Result String AuthorityCheckResult → Result Refusal (Unit {0})
authorised (ok (granted id)) = ok tt
authorised (ok (denied v reason)) = err (rejected authority_boundary_violation reason)
authorised (err x) = err (thrown x)

unfoldable pub identity_check : CommandEnvelope → Value → Result Refusal (Unit {0})
identity_check request def =
    let actor_type = request.identity_context.actor_type in
    elim (get (get def "issuer") "actor_types") [
      | arr (cons x xs) ↦ require (includes_text (cons x xs) actor_type) (
          identity_violation
            (join "actor_type " (join actor_type (join " not allowed for " request.command_name))))
      | _ ↦ ok tt
    ]

unfoldable pub capability_check : Kernel → CommandEnvelope → Value → Result Refusal (Unit {0})
capability_check k request def =
    let required = required_capability request def in
    let asked = if request.capability_id == "" then required else request.capability_id in
    require
      ((required == "system.internal") && (request.identity_context.actor_type == "system")
        || k.capability_check request.identity_context.actor_id asked request.scope)
      (capability_violation (join "capability denied: " asked))

abbrev pub rule_passed : String → Value → Result String Bool → Result Refusal (Unit {0})
rule_passed command rule (err x) = err (thrown x)
rule_passed command rule (ok passed) = require passed (
    validation_error (text_of (coalesce (get rule "error_code") (str "VALIDATION_FAILED")))
      (text_of (coalesce (get rule "error_message") (str (join "Validation failed for " command)))))

abbrev pub run_rules : Kernel → CommandEnvelope → List Value → Result Refusal (Unit {0})
run_rules k request [] = ok tt
run_rules k request (rule ∷ rules) =
    rule_passed request.command_name rule (k.evaluate request rule) >>= λ _.
    run_rules k request rules

-- The sort puts the rules on balanced postings first and keeps the order otherwise.
unfoldable pub evaluate_instructions : Kernel → CommandEnvelope → Result Refusal (Unit {0})
evaluate_instructions k request =
    let rules = k.corpus.rules request.command_name in
    let balanced : Value → Bool = λ r. is_text (get r "type") "BALANCED_POSTINGS" in
    run_rules k request (select balanced rules ++ select (λ r. not (balanced r)) rules)
