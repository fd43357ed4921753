-- ===== src/Orchestration.antt =====
-- packages/runtime/src/orchestration/types.ts: what the parts of the orchestration exchange. Domains
-- and command types are texts, as they are not checked at run time.
pub mod CommandRouter
pub mod PolicyGateway
pub mod EventDispatcher
pub mod EventHash
pub mod TransactionCoordinator
pub mod WorkflowEngine
use sovr_protocol.Prelude.{ℕ, String, Bool, Option, List}
use sovr_protocol.Prelude.Value.{Value}

pub data WorkflowStatus : Type 0 where
  idle running completed failed compensating : WorkflowStatus

pub record SovrCommand : Type 0 where
  pub command_id : String
  pub command_type : String
  pub actor : String
  pub timestamp : String
  pub intent_id : String
  pub policy_context : String
  pub payload : Value
  pub authorization : String
  pub hash : String
  pub domain : String
  pub correlation_id : Option String
  pub causation_id : Option String

pub record SovrEvent : Type 0 where
  pub event_id : String
  pub event_type : String
  pub command_id : String
  pub previous_hash : String
  pub event_hash : String
  pub timestamp : String
  pub payload : Value
  pub ledger_reference : String
  pub source_domain : String
  pub aggregate_id : String
  pub schema_version : String

pub record ExecutionStep : Type 0 where
  pub step_id : String
  pub command_type : String
  pub domain : String
  pub payload : Value
  pub depends_on : List String
  pub timeout_ms : ℕ

pub record ExecutionPlan : Type 0 where
  pub plan_id : String
  pub intent_id : String
  pub steps : List ExecutionStep
  pub estimated_duration_ms : ℕ
  pub requires_approval : Bool
  pub max_retries : ℕ

pub record Intent : Type 0 where
  pub intent_id : String
  pub intent_type : String
  pub actor : String
  pub timestamp : String
  pub payload : Value
  pub policy_context : Value
  pub execution_plan : Option ExecutionPlan

pub data PolicyAction : Type 0 where
  allow deny escalate : PolicyAction

pub record PolicyRule : Type 0 where
  pub rule_id : String
  pub condition : String
  pub action : PolicyAction
  pub domain : String
  pub max_amount : Option String
  pub allowed_actors : Option (List String)

pub record AuthorizationResult : Type 0 where
  pub authorized : Bool
  pub reason : Option String
  pub violation : Option String
  pub grant_id : Option String

pub record LedgerMutation : Type 0 where
  pub mutation_id : String
  pub account_id : String
  pub direction : Value
  pub amount : String
  pub currency : String
  pub journal_entry_id : String

pub record CommandRoute : Type 0 where
  pub command_type : String
  pub domain : String
  pub handler : String
  pub required_capability : String
  pub policy_gate_required : Bool
  pub ledger_mutation_allowed : Bool

pub record WorkflowResult : Type 0 where
  pub workflow_id : String
  pub status : WorkflowStatus
  pub commands_emitted : ℕ
  pub events_emitted : ℕ
  pub ledger_mutations : ℕ
  pub errors : List String
  pub started_at : String
  pub completed_at : Option String
