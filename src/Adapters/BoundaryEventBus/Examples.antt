-- ===== src/Adapters/BoundaryEventBus/Examples.antt =====
-- A rail that takes each payment, and a confirmation that comes back from it.
use sovr_protocol.Prelude.{ℕ, ◌+◌, ◌≡◌, refl, String, false, true, none, some, [], ◌∷◌, ◌++◌}
use sovr_protocol.Prelude.Maps.{lookup, insert}
use sovr_protocol.Prelude.Result.{Result, ok}
use sovr_protocol.Prelude.Value.{undefined}
use sovr_protocol.Adapters.RailDriver.{
  RailDriverConfig, RailPayload, RailSubmissionResult, submitted, pre_submission, post_submission,
  circuit_open, new_driver, check_circuit, audit_log, run_attempts,
}
use sovr_protocol.Adapters.RailDriver as RailDriver
use sovr_protocol.Adapters.RailDriver.Attempts.{events_of, retries, repeated, failed_calls}
use sovr_protocol.Adapters.BoundaryEventBus.{
  BusCall, BoundaryEventBus, RegisteredDriver, InboundRailEvent, new_bus, register_driver, call_of,
  emitted, send, submit_to_rail, on_inbound_rail_event,
}
use sovr_protocol.Adapters.BoundaryEventBus.Audit.{submit_to_rail_known}

abbrev config : RailDriverConfig
config = record {
  rail_id = "fednow";
  rail_name = "FedNow";
  timeout = 5000;
  max_retries = 3;
  retry_backoff = 100;
  circuit_breaker_threshold = 2;
  circuit_breaker_reset_ms = 60000;
}

abbrev payload : RailPayload
payload = record {
  command_id = "c1";
  correlation_id = "corr-1";
  actor_id = "alice";
  amount = undefined;
  source = undefined;
  destination = undefined;
  metadata = undefined;
  rail_hint = none;
}

abbrev now : ℕ → ℕ
now t = t

abbrev sleep : ℕ → ℕ → ℕ
sleep ms t = t + ms

abbrev rails : String → RailPayload → ℕ → Result String RailSubmissionResult × ℕ
rails rail_id p t = (
  ok (record {
    status = submitted;
    external_reference = some "ext-1";
    raw_response = undefined;
    error_code = none;
    error_message = none;
    retryable = false;
    rail_id = rail_id;
  }),
  t + 10,
)

abbrev dispatch : BusCall → ℕ → Result String (Unit {0}) × ℕ
dispatch call t = (ok tt, t)

abbrev bus : BoundaryEventBus
bus = register_driver "fednow" (record { config = config; driver = new_driver }) (new_bus "system")

abbrev confirmation : InboundRailEvent
confirmation = record {
  rail_id = "fednow";
  event_type = "confirmation";
  external_reference = "ext-1";
  correlation_id = "corr-1";
  raw_payload = undefined;
}

abbrev after : BoundaryEventBus
after =
    (on_inbound_rail_event now sleep rails dispatch confirmation
      (submit_to_rail now sleep rails dispatch "fednow" payload bus 0).1 10).1

log : events_of after.audit_log ≡ pre_submission ∷ post_submission ∷ []
unfolding on_inbound_rail_event submit_to_rail send call_of emitted register_driver new_bus lookup
    insert RailDriver.submit check_circuit run_attempts audit_log new_driver
log = refl

abbrev fednow : RegisteredDriver
fednow = record { config = config; driver = new_driver }

found : lookup "fednow" bus.drivers ≡ some fednow
unfolding register_driver new_bus lookup insert
found = refl

submit_to_rail_known_example :
    let sent = (submit_to_rail now sleep rails dispatch "fednow" payload bus 0).1 in
    let out = RailDriver.submit now sleep (rails "fednow") config payload new_driver 0 in
    let call = call_of bus.system_actor_id "fednow" payload out.0 in
    let allowed = (check_circuit config (now 0) new_driver).0 in
    let failed = failed_calls now sleep (rails "fednow") config payload 3 1 0 in
    (sent.dispatched ≡ bus.dispatched ++ call ∷ [])
    × (allowed ≡ false
        → (events_of sent.audit_log ≡ events_of bus.audit_log ++ circuit_open ∷ [])
          × (call.command_name ≡ "payment.rail.rejected"))
    × (allowed ≡ true
        → events_of sent.audit_log
          ≡ events_of bus.audit_log
            ++ pre_submission ∷ (retries (repeated 3 failed) ++ post_submission ∷ []))
submit_to_rail_known_example =
    submit_to_rail_known now sleep rails dispatch "fednow" payload bus 0 fednow found
