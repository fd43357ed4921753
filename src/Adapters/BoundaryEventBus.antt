-- ===== src/Adapters/BoundaryEventBus.antt =====
-- packages/runtime/src/adapters/BoundaryEventBus.ts and RailDriverRegistry.ts: the drivers by their
-- rails, a submission to one of them, and the commands that answers of rails become. The rails, the
-- clock and the command bus are the world `W` of a section. A driver stands under one rail, and the
-- listeners of the registry are the one of the bus, on audit records.
use Prim.Native.String.{◌++◌ as join}
pub mod Audit
mod Examples
use sovr_protocol.Prelude.{
  ℕ, zero, suc, String, Bool, true, false, not, Option, none, some, List, [], ◌∷◌, ◌++◌, map,
  length, or_default, ◌==◌, if◌then◌else◌,
}
use sovr_protocol.Prelude.Maps.{Map, insert, lookup}
use sovr_protocol.Prelude.Result.{Result, ok, err}
use sovr_protocol.Prelude.Value.{Value, undefined, bool, str, obj, field, end}
use sovr_protocol.Prelude.Text.{join_with}
use sovr_protocol.Adapters.RailDriver.{
  RailDriverConfig, RailDriver, RailPayload, RailSubmissionResult, RailAuditRecord,
  SubmissionStatus, submitted, rejected, pending, unknown_external_state, CircuitState, closed,
  open_circuit, half_open,
}
use sovr_protocol.Adapters.RailDriver as RailDriver

pub record BusCall : Type 0 where
  pub command_name : String
  pub command_id : String
  pub correlation_id : String
  pub actor_id : String
  pub aggregate_id : String
  pub payload : Value

pub record RegisteredDriver : Type 0 where
  pub config : RailDriverConfig
  pub driver : RailDriver

pub record InboundRailEvent : Type 0 where
  pub rail_id : String
  pub event_type : String
  pub external_reference : String
  pub correlation_id : String
  pub raw_payload : Value

-- The registry, with what the bus keeps; `dispatched` is what the command bus was called with.
pub record BoundaryEventBus : Type 0 where
  pub system_actor_id : String
  pub drivers : Map RegisteredDriver
  pub audit_log : List RailAuditRecord
  pub dispatched : List BusCall

unfoldable pub new_bus : String → BoundaryEventBus
new_bus actor = record { system_actor_id = actor; drivers = []; audit_log = []; dispatched = [] }

unfoldable pub register_driver : String → RegisteredDriver → BoundaryEventBus → BoundaryEventBus
register_driver rail_id d b = record b { drivers = insert rail_id d b.drivers }

-- The answer of `validateCredentials`, which may throw
unfoldable pub register_if :
    Result String Bool → String → RegisteredDriver → BoundaryEventBus → BoundaryEventBus
register_if (ok true) rail_id d b = register_driver rail_id d b
register_if (ok false) rail_id d b = b
register_if (err e) rail_id d b = b

unfoldable pub get_registered_rails : BoundaryEventBus → List String
get_registered_rails b = map (λ e. e.0) b.drivers

abbrev not_registered : String → BoundaryEventBus → String
not_registered rail_id b = join "Rail '" (
    join rail_id
      (join "' is not registered. Available: " (join_with ", " (get_registered_rails b))))

unfoldable pub require_driver : String → BoundaryEventBus → Result String RegisteredDriver
require_driver rail_id b = elim (lookup rail_id b.drivers) [
  | some d ↦ ok d
  | none ↦ err (not_registered rail_id b)
]

abbrev pub is_healthy : RegisteredDriver → Bool
is_healthy d = elim d.driver.circuit_state [ open_circuit ↦ false | _ ↦ true ]

unfoldable pub health_check : BoundaryEventBus → Map (CircuitState × Bool)
health_check b = map (λ e. (e.0, (e.1.driver.circuit_state, is_healthy e.1))) b.drivers

abbrev pub status_text : SubmissionStatus → String
status_text submitted = "SUBMITTED"
status_text rejected = "REJECTED"
status_text pending = "PENDING"
status_text unknown_external_state = "UNKNOWN_EXTERNAL_STATE"

abbrev pub command_of : SubmissionStatus → String
command_of submitted = "payment.rail.submitted"
command_of rejected = "payment.rail.rejected"
command_of pending = "payment.rail.pending"
command_of unknown_external_state = "payment.rail.unknown_state"

abbrev text_or_undefined : Option String → Value
text_or_undefined none = undefined
text_or_undefined (some s) = str s

-- Times and durations of the payload are left out.
unfoldable pub call_of : String → String → RailPayload → RailSubmissionResult → BusCall
call_of actor rail_id p r = record {
  command_name = command_of r.status;
  command_id = join "boundary:" (join p.command_id (join ":" (status_text r.status)));
  correlation_id = p.correlation_id;
  actor_id = actor;
  aggregate_id = join "payment:" p.command_id;
  payload = obj (
      field "originalCommandId" (str p.command_id) (
        field "railId" (str rail_id) (
          field "status" (str (status_text r.status)) (
            field "externalReference" (text_or_undefined r.external_reference) (
              field "errorCode" (text_or_undefined r.error_code) (
                field "errorMessage" (text_or_undefined r.error_message)
                  (field "retryable" (bool r.retryable) end)))))));
}

abbrev pub inbound_commands : Map String
inbound_commands =
    ("settlement", "payment.rail.settled")
    ∷ ("return", "payment.rail.returned")
    ∷ ("reversal", "payment.rail.reversed")
    ∷ ("confirmation", "payment.rail.confirmed")
    ∷ ("rejection", "payment.rail.rejected")
    ∷ ("noc", "payment.rail.noc_received")
    ∷ []

unfoldable pub inbound_call : String → InboundRailEvent → BusCall
inbound_call actor e = record {
  command_name = or_default (lookup e.event_type inbound_commands) "payment.rail.status_update";
  command_id = join "inbound:" (join e.rail_id (join ":" e.external_reference));
  correlation_id = e.correlation_id;
  actor_id = actor;
  aggregate_id = join "payment:" e.external_reference;
  payload = obj (
      field "railId" (str e.rail_id) (
        field "externalReference" (str e.external_reference)
          (field "eventType" (str e.event_type) (field "rawPayload" e.raw_payload end))));
}

-- The records that a driver has emitted since it had `n`.
unfoldable pub emitted {ℓ} : {A : Type ℓ} → ℕ → List A → List A
emitted zero rs = rs
emitted (suc n) [] = []
emitted (suc n) (r ∷ rs) = emitted n rs

unfoldable pub unregistered : String → BoundaryEventBus → RailSubmissionResult
unregistered rail_id b = record {
  status = rejected;
  external_reference = none;
  raw_response = undefined;
  error_code = some "RAIL_NOT_REGISTERED";
  error_message = some (not_registered rail_id b);
  retryable = false;
  rail_id = rail_id;
}

-- `rails` are the calls of the rails, and `dispatch` is the command bus; both may throw.
module _ {W : Type 0} (now : W → ℕ) (sleep : ℕ → W → W)
    (rails : String → RailPayload → W → Result String RailSubmissionResult × W)
    (dispatch : BusCall → W → Result String (Unit {0}) × W) where
  -- A command bus that throws takes the answer of the rail with it.
  abbrev pub answered_by :
      Result String (Unit {0}) → RailSubmissionResult → Result String RailSubmissionResult
  answered_by (ok u) r = ok r
  answered_by (err e) r = err e

  unfoldable pub send :
      BusCall → BoundaryEventBus → W → Result String (Unit {0}) × BoundaryEventBus × W
  send call b w =
      let (answer, w') = dispatch call w in
      (answer, record b { dispatched = b.dispatched ++ call ∷ [] }, w')

  abbrev pub heard : String → RegisteredDriver → RailDriver → BoundaryEventBus → BoundaryEventBus
  heard rail_id d after b = record b {
    drivers = insert rail_id (record d { driver = after }) b.drivers;
    audit_log = b.audit_log ++ emitted (length d.driver.audits) after.audits;
  }

  abbrev pub submitted_to :
      String
      → RailPayload
      → BoundaryEventBus
      → W
      → Option RegisteredDriver
      → Result String RailSubmissionResult × BoundaryEventBus × W
  submitted_to rail_id payload b w none = (ok (unregistered rail_id b), b, w)
  submitted_to rail_id payload b w (some d) =
      let (r, after, w') =
        RailDriver.submit now sleep (rails rail_id) d.config payload d.driver w in
      let (answer, b', w'') =
        send (call_of b.system_actor_id rail_id payload r) (heard rail_id d after b) w' in
      (answered_by answer r, b', w'')

  unfoldable pub submit_to_rail :
      String
      → RailPayload
      → BoundaryEventBus
      → W
      → Result String RailSubmissionResult × BoundaryEventBus × W
  submit_to_rail rail_id payload b w = submitted_to rail_id payload b w (lookup rail_id b.drivers)

  unfoldable pub on_inbound_rail_event :
      InboundRailEvent → BoundaryEventBus → W → Result String (Unit {0}) × BoundaryEventBus × W
  on_inbound_rail_event e b w = send (inbound_call b.system_actor_id e) b w

unfoldable pub clear_audit_log : BoundaryEventBus → BoundaryEventBus
clear_audit_log b = record b { audit_log = [] }
