-- ===== src/Adapters/RailDriver/Circuit.antt =====
-- The circuit of packages/runtime/src/adapters/base/BaseRailDriver.ts and its counters, under every
-- submission.
use sovr_protocol.Prelude.{
  ℕ, zero, suc, ◌+◌, ◌≤◌, ◌<◌, ◌≡◌, ◌⊎◌, refl, String, Bool, true, false, Option, none, some, arith,
  ltb, Bool-cases, inl, inr,
}
use sovr_protocol.Prelude.Result.{Result, Result-cases}
use sovr_protocol.Adapters.RailDriver.{
  RailDriverConfig, RailPayload, RailDriver, RailSubmissionResult, SubmissionStatus, CircuitState,
  closed, open_circuit, half_open, submitted, rejected, pending, unknown_external_state,
  check_circuit, record_success, record_failure, audit_log, audit_of, pre_submission, count_outcome,
  settle, exhaust, refuse_open, recover, run_attempts, submit, new_driver,
}

abbrev pub is_closed : CircuitState → Bool
is_closed closed = true
is_closed _ = false

pub CircuitState-cases : (c : CircuitState) → (c ≡ closed) ⊎ (c ≡ open_circuit) ⊎ (c ≡ half_open)
CircuitState-cases closed = inl refl
CircuitState-cases open_circuit = inr (inl refl)
CircuitState-cases half_open = inr (inr refl)

-- The circuit is closed exactly while the failures in a row are below the threshold, and no more
-- outcomes are counted than submissions.
pub record IsConsistent (config : RailDriverConfig) (d : RailDriver) : Type 0 where
  pub guarded : is_closed d.circuit_state ≡ ltb d.failure_count config.circuit_breaker_threshold
  pub counted : d.total_successes + d.total_failures ≤ d.total_submissions

-- The same, while the outcome of the submission at hand is still open.
record IsPending (config : RailDriverConfig) (d : RailDriver) : Type 0 where
  guarded : is_closed d.circuit_state ≡ ltb d.failure_count config.circuit_breaker_threshold
  counted : d.total_successes + d.total_failures < d.total_submissions

pub new_driver-IsConsistent :
    (config : RailDriverConfig)
    → 1 ≤ config.circuit_breaker_threshold
    → IsConsistent config new_driver
unfolding new_driver
new_driver-IsConsistent config h = record { guarded = ground arith; counted = omega arith }

record_failure-IsPending :
    (config : RailDriverConfig) (now : ℕ) (d : RailDriver)
    → IsPending config d
    → IsPending config (record_failure config now d)
unfolding record_failure
record_failure-IsPending config now d p = record {
  guarded = ground (arith, p.guarded, CircuitState-cases d.circuit_state);
  counted = ground (arith, p.counted, CircuitState-cases d.circuit_state);
}

record_success-IsPending :
    (config : RailDriverConfig) (d : RailDriver)
    → 1 ≤ config.circuit_breaker_threshold
    → IsPending config d
    → IsPending config (record_success d)
unfolding record_success
record_success-IsPending config d h p = record {
  guarded = ground (arith, h, p.guarded, CircuitState-cases d.circuit_state);
  counted = ground (arith, p.counted, CircuitState-cases d.circuit_state);
}

pub SubmissionStatus-cases :
    (s : SubmissionStatus)
    → (s ≡ submitted) ⊎ (s ≡ pending) ⊎ (s ≡ rejected) ⊎ (s ≡ unknown_external_state)
SubmissionStatus-cases submitted = inl refl
SubmissionStatus-cases pending = inr (inl refl)
SubmissionStatus-cases rejected = inr (inr (inl refl))
SubmissionStatus-cases unknown_external_state = inr (inr (inr refl))

settle-IsConsistent :
    (config : RailDriverConfig) (payload : RailPayload) (attempt now : ℕ) (r : RailSubmissionResult)
    (d : RailDriver)
    → 1 ≤ config.circuit_breaker_threshold
    → IsPending config d
    → IsConsistent config (settle config payload attempt now r d)
unfolding settle count_outcome audit_log
settle-IsConsistent config payload attempt now r d h p =
    let won = record_success-IsPending config d h p in
    let lost = record_failure-IsPending config now d p in
    record {
      guarded =
          ground (arith, p.guarded, won.guarded, lost.guarded, SubmissionStatus-cases r.status);
      counted =
          ground (arith, p.counted, won.counted, lost.counted, SubmissionStatus-cases r.status);
    }

exhaust-IsConsistent :
    (config : RailDriverConfig) (payload : RailPayload) (last_error : Option String)
    (d : RailDriver)
    → IsPending config d
    → IsConsistent config (exhaust config payload last_error d).1
unfolding exhaust audit_log
exhaust-IsConsistent config payload last_error d p = record {
  guarded = p.guarded;
  counted = ground (arith, p.counted);
}

check_circuit-IsPending :
    (config : RailDriverConfig) (now : ℕ) (d : RailDriver)
    → IsPending config d
    → IsPending config (check_circuit config now d).2
unfolding check_circuit
check_circuit-IsPending config now d p = record {
  guarded = ground (arith, p.guarded, CircuitState-cases d.circuit_state);
  counted = ground (arith, p.counted, CircuitState-cases d.circuit_state);
}

module _ {W : Type 0} (now : W → ℕ) (sleep : ℕ → W → W)
    (submit_to_rail : RailPayload → W → Result String RailSubmissionResult × W) where
  recover-IsPending :
      (config : RailDriverConfig) (payload : RailPayload) (attempt : ℕ) (message : String)
      (d : RailDriver) (w : W)
      → IsPending config d
      → IsPending config (recover now sleep submit_to_rail config payload attempt message d w).0
  unfolding recover audit_log
  recover-IsPending config payload attempt message d w p =
      let failed = record_failure-IsPending config (now w) d p in
      elim (Bool-cases (ltb attempt config.max_retries)) [
        | inl e ↦ rw e (record { guarded = failed.guarded; counted = failed.counted })
        | inr e ↦ rw e failed
      ]

  run_attempts-IsConsistent :
      (config : RailDriverConfig) (payload : RailPayload) (left attempt : ℕ)
      (last_error : Option String) (d : RailDriver) (w : W)
      → 1 ≤ config.circuit_breaker_threshold
      → IsPending config d
      → IsConsistent config
          (run_attempts now sleep submit_to_rail config payload left attempt last_error d w).1
  unfolding run_attempts
  run_attempts-IsConsistent config payload zero attempt last_error d w h p =
      exhaust-IsConsistent config payload last_error d p
  run_attempts-IsConsistent config payload (suc left) attempt last_error d w h p =
      let (answer, w') = submit_to_rail payload w in
      elim (Result-cases answer) [
        | inl (r, e) ↦
            rw (e, run_attempts) (settle-IsConsistent config payload attempt (now w') r d h p)
        | inr (message, e) ↦
            let (d', w'') = recover now sleep submit_to_rail config payload attempt message d w' in
            rw (e, run_attempts)
              (run_attempts-IsConsistent config payload left (attempt + 1) (some message) d' w'' h
                (recover-IsPending config payload attempt message d w' p))
      ]

  -- With a threshold of at least one, every submission keeps this: the circuit is closed exactly while
  -- the failures in a row are below the threshold, and no more successes and failures are counted
  -- than submissions.
  pub submit-IsConsistent :
      (config : RailDriverConfig) (payload : RailPayload) (d : RailDriver) (w : W)
      → 1 ≤ config.circuit_breaker_threshold
      → IsConsistent config d
      → IsConsistent config (submit now sleep submit_to_rail config payload d w).1
  unfolding submit refuse_open audit_log
  submit-IsConsistent config payload d w h c =
      let begun = record d { total_submissions = d.total_submissions + 1 } in
      let pending_ : IsPending config begun = record {
        guarded = c.guarded;
        counted = ground (arith, c.counted);
      } in
      let p = check_circuit-IsPending config (now w) begun pending_ in
      let (allowed, message, checked) = check_circuit config (now w) begun in
      elim (Bool-cases allowed) [
        | inl e ↦ rw e (
            run_attempts-IsConsistent config payload config.max_retries 1 none
              (audit_log (audit_of config payload pre_submission) checked) w h
              (record { guarded = p.guarded; counted = p.counted }))
        | inr e ↦ rw e (record { guarded = p.guarded; counted = ground (arith, p.counted) })
      ]
