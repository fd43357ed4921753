-- ===== src/Adapters/RailDriver/Examples.antt =====
-- A rail that times out on every call, and its driver with three attempts and a threshold of two.
use sovr_protocol.Prelude.{ℕ, ◌+◌, ◌≡◌, refl, String, true, false, none, [], ◌∷◌, ◌++◌, arith}
use sovr_protocol.Prelude.Result.{Result, err}
use sovr_protocol.Prelude.Value.{undefined}
use sovr_protocol.Adapters.RailDriver.{
  RailDriverConfig, RailPayload, RailDriver, RailSubmissionResult, open_circuit, rejected,
  unknown_external_state, pre_submission, post_submission, circuit_open, new_driver, check_circuit,
  record_failure, audit_log, recover, exhaust, run_attempts, submit,
}
use sovr_protocol.Adapters.RailDriver.Circuit.{
  IsConsistent, new_driver-IsConsistent, submit-IsConsistent,
}
use sovr_protocol.Adapters.RailDriver.Attempts.{
  events_of, retries, repeated, failed_calls, submit_audits, submit_exhausts,
}

abbrev config : RailDriverConfig
config = record {
  rail_id = "fednow";
  rail_name = "FedNow";
  timeout = 5000;
  max_retries = 3;
  retry_backoff = 100;
  circuit_breaker_threshold = 2;
  circuit_breaker_reset_ms = 60000;
}

abbrev payload : RailPayload
payload = record {
  command_id = "c1";
  correlation_id = "corr-1";
  actor_id = "alice";
  amount = undefined;
  source = undefined;
  destination = undefined;
  metadata = undefined;
  rail_hint = none;
}

-- The world is its clock.
abbrev now : ℕ → ℕ
now t = t

abbrev sleep : ℕ → ℕ → ℕ
sleep ms t = t + ms

abbrev down : RailPayload → ℕ → Result String RailSubmissionResult × ℕ
down p t = (err "Rail fednow timeout after 5000ms", t + 5000)

abbrev outcome : RailSubmissionResult × RailDriver × ℕ
outcome = submit now sleep down config payload new_driver 0

opens_and_goes_on : outcome.1.circuit_state ≡ open_circuit
unfolding submit check_circuit run_attempts recover record_failure exhaust audit_log new_driver
opens_and_goes_on = refl

waits : outcome.2 ≡ 15300
unfolding submit check_circuit run_attempts recover record_failure exhaust audit_log new_driver
waits = refl

submit-IsConsistent_example : IsConsistent config outcome.1
submit-IsConsistent_example =
    submit-IsConsistent now sleep down config payload new_driver 0 (omega arith)
      (new_driver-IsConsistent config (omega arith))

submit_audits_example :
    let allowed = (check_circuit config (now 0) new_driver).0 in
    let failed = failed_calls now sleep down config payload config.max_retries 1 0 in
    (allowed ≡ false
      → (events_of outcome.1.audits ≡ events_of new_driver.audits ++ circuit_open ∷ [])
        × (outcome.0.status ≡ rejected)
        × (outcome.2 ≡ 0))
    × (allowed ≡ true
        → events_of outcome.1.audits
          ≡ events_of new_driver.audits
            ++ pre_submission
              ∷ (retries (repeated config.max_retries failed) ++ post_submission ∷ []))
submit_audits_example = submit_audits now sleep down config payload new_driver 0

submit_exhausts_example :
    (outcome.0.status ≡ unknown_external_state)
    × (outcome.1.failure_count ≡ new_driver.failure_count + config.max_retries)
    × (outcome.1.total_failures ≡ new_driver.total_failures + 1)
unfolding check_circuit new_driver
submit_exhausts_example =
    submit_exhausts now sleep down config payload new_driver 0
      (λ t. ("Rail fednow timeout after 5000ms", refl)) refl
