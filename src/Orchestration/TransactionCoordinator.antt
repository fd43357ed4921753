-- ===== src/Orchestration/TransactionCoordinator.antt =====
-- packages/runtime/src/orchestration/transaction-coordinator/index.ts, over the router, the gateway and
-- the dispatcher of this folder: a command is routed, judged by the policies, and turned into an
-- event of the chain. `JSON.stringify`, `Number` and the random identifiers are parameters; what goes
-- to the console is the list `printed`.
pub mod Transactions
pub mod Safety
use Prim.Native.String.{◌++◌ as join}
use sovr_protocol.Prelude.{
  ℕ, String, Bool, true, false, ◌&&◌, Option, none, some, List, [], ◌∷◌, ◌++◌, ◌==◌, map, length,
  or_default, if◌then◌else◌,
}
use sovr_protocol.Prelude.Maps.{Map, lookup}
use sovr_protocol.Prelude.Result.{Result, ok, err, ◌>>=◌}
use sovr_protocol.Prelude.Value.{
  Value, undefined, str, obj, Fields, field, end, get, set_field, fields_of, or_else,
}
use sovr_protocol.Prelude.Text.{text_of}
use sovr_protocol.Orchestration.{
  SovrCommand, SovrEvent, CommandRoute, AuthorizationResult, LedgerMutation, WorkflowResult,
  WorkflowStatus, failed, completed,
}
use sovr_protocol.Orchestration.CommandRouter.{CommandRouter, route}
use sovr_protocol.Orchestration.PolicyGateway.{PolicyGateway, evaluate}
use sovr_protocol.Orchestration.EventDispatcher.{EventDispatcher, dispatch}
use sovr_protocol.Orchestration.EventHash.{compute_hash}

-- `json` is `JSON.stringify`, which may throw; `units` has the code units of a text; `exceeds` is a
-- comparison of numbers.
pub record Environment : Type 0 where
  pub json : Value → Result String String
  pub units : String → List ℕ
  pub exceeds : Value → Value → Bool

-- The clock and the random identifiers of one call. `createEvent` makes two identifiers and reads the
-- clock twice: once for the text that it hashes, once for the event.
pub record Moment : Type 0 where
  pub started_at : String
  pub routed_at : String
  pub hashed_id : String
  pub hashed_at : String
  pub event_id : String
  pub timestamp : String
  pub mutation_id : String
  pub journal_entry_id : String
  pub record_id : String
  pub completed_at : String

pub data AuditOutcome : Type 0 where
  success failure rejected : AuditOutcome

pub record AuditRecord : Type 0 where
  pub record_id : String
  pub command_id : String
  pub event_ids : List String
  pub actor : String
  pub action : String
  pub outcome : AuditOutcome
  pub constitutional_rules : List String
  pub ledger_mutations : List LedgerMutation

pub record TransactionContext : Type 0 where
  pub command : SovrCommand
  pub route : CommandRoute
  pub authorization : AuthorizationResult
  pub policy_result : AuthorizationResult
  pub events : List SovrEvent
  pub mutations : List LedgerMutation

pub record TransactionCoordinator : Type 0 where
  pub router : CommandRouter
  pub gateway : PolicyGateway
  pub dispatcher : EventDispatcher
  pub audit_enabled : Bool
  pub transaction_log : List TransactionContext
  pub printed : List AuditRecord

-- `a || b` on texts that may be missing
abbrev pub or_text : Option String → String → String
or_text none t = t
or_text (some s) t = if s == "" then t else s

abbrev pub text_field : Option String → Value
text_field none = undefined
text_field (some s) = str s

-- `{ ...fields, ...others }`
unfoldable pub spread : Fields → Fields → Fields
spread fields end = fields
spread fields (field name v others) = spread (set_field fields name v) others

abbrev pub genesis_hash : String
genesis_hash = "0000000000000000000000000000000000000000000000000000000000000000"

unfoldable pub head_hash : String → List SovrEvent → String
head_hash before [] = before
head_hash before (e ∷ es) = head_hash e.event_hash es

unfoldable pub event_payload : SovrCommand → Fields → Value
event_payload c extra = obj (
    spread
      (set_field (set_field (fields_of c.payload) "command_type" (str c.command_type)) "actor"
        (str c.actor))
      extra)

abbrev pub hashed_fields : Moment → SovrCommand → String → String → Value → Value
hashed_fields m c event_type previous payload = obj (
    field "event_id" (str m.hashed_id) (
      field "event_type" (str event_type) (
        field "command_id" (str c.command_id) (
          field "previous_hash" (str previous)
            (field "timestamp" (str m.hashed_at) (field "payload" payload end))))))

unfoldable pub made_event : Moment → SovrCommand → String → String → Value → String → SovrEvent
made_event m c event_type previous payload hash = record {
  event_id = m.event_id;
  event_type = event_type;
  command_id = c.command_id;
  previous_hash = previous;
  event_hash = hash;
  timestamp = m.timestamp;
  payload = payload;
  ledger_reference = c.command_id;
  source_domain = c.domain;
  aggregate_id = text_of (or_else (get c.payload "aggregate_id") (str c.intent_id));
  schema_version = "1.0.0";
}

unfoldable pub create_event :
    Environment → Moment → SovrCommand → String → Fields → List SovrEvent → Result String SovrEvent
create_event env m c event_type extra all_events =
    let previous = head_hash genesis_hash all_events in
    let payload = event_payload c extra in
    env.json (hashed_fields m c event_type previous payload) >>= λ text.
    ok (made_event m c event_type previous payload (compute_hash (env.units text)))

abbrev pub event_types : Map String
event_types =
    ("CREATE_VAULT_INTENT", "VaultIntentCreated")
    ∷ ("OPEN_VAULT", "VaultCreated")
    ∷ ("LOCK_VAULT", "VaultLocked")
    ∷ ("RELEASE_VAULT", "VaultReleased")
    ∷ ("CREATE_ALLOCATION_REQUEST", "TreasuryIntentCreated")
    ∷ ("APPROVE_ALLOCATION", "TreasuryApproved")
    ∷ ("EXECUTE_ALLOCATION", "TreasuryAllocationExecuted")
    ∷ ("VERIFY_BALANCE", "TreasuryBalanceVerified")
    ∷ ("CREATE_PAYMENT_INTENT", "PaymentIntentCreated")
    ∷ ("AUTHORIZE_PAYMENT", "PaymentAuthorized")
    ∷ ("EXECUTE_INTERNAL_SETTLEMENT", "PaymentSettled")
    ∷ ("VERIFY_PAYMENT_STATE", "PaymentStateVerified")
    ∷ []

unfoldable pub event_type_of : String → String
event_type_of command_type = or_default (lookup command_type event_types) "UnknownCommandExecuted"

unfoldable pub create_ledger_mutation : Moment → SovrCommand → LedgerMutation
create_ledger_mutation m c = record {
  mutation_id = m.mutation_id;
  account_id = text_of (
      or_else (or_else (get c.payload "account_id") (get c.payload "aggregate_id"))
        (str "unknown"));
  direction = or_else (get c.payload "direction") (str "CREDIT");
  amount = text_of (or_else (or_else (get c.payload "amount") (get c.payload "value")) (str "0"));
  currency = text_of (or_else (get c.payload "currency") (str "USD"));
  journal_entry_id = m.journal_entry_id;
}
