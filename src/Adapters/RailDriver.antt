-- ===== src/Adapters/RailDriver.antt =====
-- packages/runtime/src/adapters/base/BaseRailDriver.ts: a submission to an external rail, with its
-- circuit breaker, its retries, its metrics and its audit records. The rail, the timer that races it
-- and the clock are the world `W` of a section; a call that times out is one that throws. Durations
-- and time stamps of the records are left out, and the circuit's own signals are kept apart from the
-- audit records.
use Prim.Native.String.{◌++◌ as join}
pub mod Circuit
pub mod Attempts
mod Examples
use sovr_protocol.Prelude.{
  ℕ, zero, suc, ◌+◌, ◌-◌, ◌*◌, ◌/◌, String, Bool, true, false, Option, none, some, List, [], ◌∷◌,
  ◌++◌, ltb, leb, or_default, if◌then◌else◌,
}
use sovr_protocol.Prelude.Result.{Result, ok, err}
use sovr_protocol.Prelude.Value.{Value, undefined}
use sovr_protocol.Prelude.Text.{show_ℕ}

pub record RailDriverConfig : Type 0 where
  pub rail_id : String
  pub rail_name : String
  pub timeout : ℕ
  pub max_retries : ℕ
  pub retry_backoff : ℕ
  pub circuit_breaker_threshold : ℕ
  pub circuit_breaker_reset_ms : ℕ

pub data CircuitState : Type 0 where
  closed open_circuit half_open : CircuitState

pub record RailPayload : Type 0 where
  pub command_id : String
  pub correlation_id : String
  pub actor_id : String
  pub amount : Value
  pub source : Value
  pub destination : Value
  pub metadata : Value
  pub rail_hint : Option String

pub data SubmissionStatus : Type 0 where
  submitted rejected pending unknown_external_state : SubmissionStatus

pub record RailSubmissionResult : Type 0 where
  pub status : SubmissionStatus
  pub external_reference : Option String
  pub raw_response : Value
  pub error_code : Option String
  pub error_message : Option String
  pub retryable : Bool
  pub rail_id : String

pub data AuditEvent : Type 0 where
  pre_submission post_submission retry circuit_open : AuditEvent

pub record RailAuditRecord : Type 0 where
  pub rail_id : String
  pub command_id : String
  pub correlation_id : String
  pub event : AuditEvent
  pub status : Option SubmissionStatus
  pub external_reference : Option String
  pub error_code : Option String
  pub attempt : Option ℕ

pub data Signal : Type 0 where
  circuit_half_open circuit_closed : Signal
  circuit_opened : ℕ → Signal

pub record RailDriver : Type 0 where
  pub circuit_state : CircuitState
  pub failure_count : ℕ
  pub last_failure_at : ℕ
  pub total_submissions : ℕ
  pub total_successes : ℕ
  pub total_failures : ℕ
  pub audits : List RailAuditRecord
  pub signals : List Signal

unfoldable pub new_driver : RailDriver
new_driver = record {
  circuit_state = closed;
  failure_count = 0;
  last_failure_at = 0;
  total_submissions = 0;
  total_successes = 0;
  total_failures = 0;
  audits = [];
  signals = [];
}

-- Whether a call is let through, the message, and the driver behind the check.
unfoldable pub check_circuit : RailDriverConfig → ℕ → RailDriver → Bool × String × RailDriver
check_circuit config now d = elim d.circuit_state [
  | closed ↦ (true, "ok", d)
  | half_open ↦ (true, "half_open_probe", d)
  | open_circuit ↦
      if leb (d.last_failure_at + config.circuit_breaker_reset_ms) now
      then (
        true,
        "half_open_probe",
        record d { circuit_state = half_open; signals = d.signals ++ circuit_half_open ∷ [] },
      )
      else (
        false,
        join "Circuit OPEN for " (
            join config.rail_id (
              join ". Retry in " (
                join
                  (show_ℕ
                    ((d.last_failure_at + config.circuit_breaker_reset_ms - now + 999) / 1000))
                  "s"))),
        d,
      )
]

unfoldable pub record_success : RailDriver → RailDriver
record_success d = elim d.circuit_state [
  | closed ↦ record d { failure_count = 0 }
  | _ ↦ record d {
    failure_count = 0;
    circuit_state = closed;
    signals = d.signals ++ circuit_closed ∷ [];
  }
]

unfoldable pub record_failure : RailDriverConfig → ℕ → RailDriver → RailDriver
record_failure config now d =
    let failed = record d { failure_count = d.failure_count + 1; last_failure_at = now } in
    let opened = record failed {
      circuit_state = open_circuit;
      signals = d.signals ++ circuit_opened (d.failure_count + 1) ∷ [];
    } in
    if leb config.circuit_breaker_threshold (d.failure_count + 1)
    then elim d.circuit_state [ open_circuit ↦ failed | _ ↦ opened ]
    else failed

unfoldable pub audit_log : RailAuditRecord → RailDriver → RailDriver
audit_log r d = record d { audits = d.audits ++ r ∷ [] }

abbrev pub audit_of : RailDriverConfig → RailPayload → AuditEvent → RailAuditRecord
audit_of config payload event = record {
  rail_id = config.rail_id;
  command_id = payload.command_id;
  correlation_id = payload.correlation_id;
  event = event;
  status = none;
  external_reference = none;
  error_code = none;
  attempt = none;
}

abbrev pub post_of : RailDriverConfig → RailPayload → ℕ → RailSubmissionResult → RailAuditRecord
post_of config payload attempt r = record (audit_of config payload post_submission) {
  status = some r.status;
  external_reference = r.external_reference;
  error_code = elim r.status [ rejected ↦ r.error_code | _ ↦ none ];
  attempt = some attempt;
}

abbrev pub retry_of : RailDriverConfig → RailPayload → ℕ → String → RailAuditRecord
retry_of config payload attempt message = record (audit_of config payload retry) {
  error_code = some message;
  attempt = some attempt;
}

-- The counters, by the status of a call that answered.
unfoldable pub count_outcome : RailDriverConfig → ℕ → SubmissionStatus → RailDriver → RailDriver
unfolding record_success record_failure
count_outcome config now status d =
    let won = record_success d in
    let lost = record_failure config now d in
    elim status [
      | submitted ↦ record won { total_successes = won.total_successes + 1 }
      | pending ↦ record won { total_successes = won.total_successes + 1 }
      | rejected ↦ record lost { total_failures = lost.total_failures + 1 }
      | unknown_external_state ↦ d
    ]

unfoldable pub settle :
    RailDriverConfig → RailPayload → ℕ → ℕ → RailSubmissionResult → RailDriver → RailDriver
unfolding count_outcome audit_log
settle config payload attempt now r d =
    audit_log (post_of config payload attempt r) (count_outcome config now r.status d)

-- All retries exhausted: whether the submission reached the rail is not known.
unfoldable pub exhaust :
    RailDriverConfig → RailPayload → Option String → RailDriver → RailSubmissionResult × RailDriver
unfolding audit_log
exhaust config payload last_error d =
    let code : String = elim last_error [
      | none ↦ "RETRIES_EXHAUSTED"
      | some m ↦ "DRIVER_EXCEPTION"
    ] in
    (
      record {
        status = unknown_external_state;
        external_reference = none;
        raw_response = undefined;
        error_code = some code;
        error_message = some (or_default last_error "All retry attempts exhausted");
        retryable = true;
        rail_id = config.rail_id;
      },
      audit_log
          (record (audit_of config payload post_submission) {
            status = some unknown_external_state;
            error_code = some code;
          })
          (record d { total_failures = d.total_failures + 1 }),
    )

unfoldable pub refuse_open :
    RailDriverConfig → RailPayload → String → RailDriver → RailSubmissionResult × RailDriver
unfolding audit_log
refuse_open config payload message d = (
  record {
    status = rejected;
    external_reference = none;
    raw_response = undefined;
    error_code = some "CIRCUIT_BREAKER_OPEN";
    error_message = some message;
    retryable = true;
    rail_id = config.rail_id;
  },
  audit_log
      (record (audit_of config payload circuit_open) { error_code = some "CIRCUIT_BREAKER_OPEN" })
      d,
)

-- `submit_to_rail` is the driver's own call, raced against the timer; `sleep` lets time pass.
module _ {W : Type 0} (now : W → ℕ) (sleep : ℕ → W → W)
    (submit_to_rail : RailPayload → W → Result String RailSubmissionResult × W) where
  -- A call that threw: the failure is counted, and a wait follows when another attempt does.
  unfoldable pub recover :
      RailDriverConfig → RailPayload → ℕ → String → RailDriver → W → RailDriver × W
  unfolding record_failure audit_log
  recover config payload attempt message d w =
      let failed = record_failure config (now w) d in
      if ltb attempt config.max_retries
      then (
        audit_log (retry_of config payload attempt message) failed,
        sleep (config.retry_backoff * attempt) w,
      )
      else (failed, w)

  -- The loop, with the attempts that are left.
  unfoldable pub run_attempts :
      RailDriverConfig
      → RailPayload
      → ℕ
      → ℕ
      → Option String
      → RailDriver
      → W
      → RailSubmissionResult × RailDriver × W
  unfolding recover settle exhaust
  run_attempts config payload zero attempt last_error d w =
      let (r, d') = exhaust config payload last_error d in (r, d', w)
  run_attempts config payload (suc left) attempt last_error d w =
      let (answer, w') = submit_to_rail payload w in
      elim answer [
        | ok r ↦
            (record r { rail_id = config.rail_id }, settle config payload attempt (now w') r d, w')
        | err message ↦
            let (d', w'') = recover config payload attempt message d w' in
            run_attempts config payload left (attempt + 1) (some message) d' w''
      ]

  unfoldable pub submit :
      RailDriverConfig → RailPayload → RailDriver → W → RailSubmissionResult × RailDriver × W
  unfolding check_circuit audit_log refuse_open
  submit config payload d w =
      let (allowed, message, checked) =
        check_circuit config (now w) (record d { total_submissions = d.total_submissions + 1 }) in
      let (refusal, refused) = refuse_open config payload message checked in
      if allowed
      then run_attempts config payload config.max_retries 1 none
          (audit_log (audit_of config payload pre_submission) checked) w
      else (refusal, refused, w)
