-- ===== src/Adapters/RailDriver/Attempts.antt =====
-- How often packages/runtime/src/adapters/base/BaseRailDriver.ts calls its rail, and the records that
-- it writes of it.
use sovr_protocol.Prelude.{
  ℕ, zero, suc, ◌+◌, ◌-◌, ◌*◌, ◌≡◌, refl, ap, sym, ◌∙◌, String, true, false, Option, none, some,
  List, [], ◌∷◌, ◌++◌, append_assoc, append-nil, arith, ltb, Bool-cases, if◌then◌else◌, inl, inr,
}
use sovr_protocol.Prelude.Result.{Result, ok, err, Result-cases}
use sovr_protocol.Adapters.RailDriver.{
  RailDriverConfig, RailPayload, RailDriver, RailSubmissionResult, RailAuditRecord, AuditEvent,
  SubmissionStatus, submitted, rejected, pending, unknown_external_state, pre_submission,
  post_submission, retry, circuit_open, check_circuit, record_success, record_failure, audit_log,
  audit_of, post_of, retry_of, count_outcome, settle, exhaust, refuse_open, recover, run_attempts,
  submit,
}
use sovr_protocol.Adapters.RailDriver.Circuit.{CircuitState-cases}

abbrev pub events_of : List RailAuditRecord → List AuditEvent
events_of [] = []
events_of (r ∷ rs) = r.event ∷ events_of rs

events_of-append :
    (xs ys : List RailAuditRecord) → events_of (xs ++ ys) ≡ events_of xs ++ events_of ys
events_of-append [] ys = refl
events_of-append (x ∷ xs) ys = ground (arith, events_of-append xs ys)

-- The calls that another one follows, of `failed` that threw where `left` were to be made.
abbrev pub repeated : ℕ → ℕ → ℕ
repeated left failed = if ltb failed left then failed else left - 1

-- n retries.
abbrev pub retries : ℕ → List AuditEvent
retries zero = []
retries (suc n) = retry ∷ retries n

record_failure-audits :
    (config : RailDriverConfig) (now : ℕ) (d : RailDriver)
    → (record_failure config now d).audits ≡ d.audits
unfolding record_failure
record_failure-audits config now d = ground (arith, CircuitState-cases d.circuit_state)

record_failure-count :
    (config : RailDriverConfig) (now : ℕ) (d : RailDriver)
    → (record_failure config now d).failure_count ≡ d.failure_count + 1
unfolding record_failure
record_failure-count config now d = ground (arith, CircuitState-cases d.circuit_state)

record_success-audits : (d : RailDriver) → (record_success d).audits ≡ d.audits
unfolding record_success
record_success-audits d = ground (arith, CircuitState-cases d.circuit_state)

count_outcome-audits :
    (config : RailDriverConfig) (now : ℕ) (status : SubmissionStatus) (d : RailDriver)
    → (count_outcome config now status d).audits ≡ d.audits
unfolding count_outcome
count_outcome-audits config now submitted d = record_success-audits d
count_outcome-audits config now pending d = record_success-audits d
count_outcome-audits config now rejected d = record_failure-audits config now d
count_outcome-audits config now unknown_external_state d = refl

settle-events :
    (config : RailDriverConfig) (payload : RailPayload) (attempt now : ℕ) (r : RailSubmissionResult)
    (d : RailDriver)
    → events_of (settle config payload attempt now r d).audits
      ≡ events_of d.audits ++ post_submission ∷ []
unfolding settle audit_log
settle-events config payload attempt now r d =
    events_of-append (count_outcome config now r.status d).audits
      (post_of config payload attempt r ∷ [])
    ∙ ap (λ rs. events_of rs ++ post_submission ∷ []) (count_outcome-audits config now r.status d)

exhaust-events :
    (config : RailDriverConfig) (payload : RailPayload) (last_error : Option String)
    (d : RailDriver)
    → events_of (exhaust config payload last_error d).1.audits
      ≡ events_of d.audits ++ post_submission ∷ []
unfolding exhaust audit_log
exhaust-events config payload last_error d = events_of-append d.audits _

-- Counting the submission first changes nothing in what the check answers and keeps.
check_circuit_lem :
    (config : RailDriverConfig) (now : ℕ) (d : RailDriver)
    → let out =
        check_circuit config now (record d { total_submissions = d.total_submissions + 1 }) in
      (out.0 ≡ (check_circuit config now d).0)
      × (out.2.audits ≡ d.audits)
      × (out.2.failure_count ≡ d.failure_count)
      × (out.2.total_failures ≡ d.total_failures)
unfolding check_circuit
check_circuit_lem config now d = (
  ground (arith, CircuitState-cases d.circuit_state),
  ground (arith, CircuitState-cases d.circuit_state),
  ground (arith, CircuitState-cases d.circuit_state),
  ground (arith, CircuitState-cases d.circuit_state),
)

module _ {W : Type 0} (now : W → ℕ) (sleep : ℕ → W → W)
    (submit_to_rail : RailPayload → W → Result String RailSubmissionResult × W) where
  -- How many calls of the rail throw before one answers, of those that are left, with a wait between
  -- two of them.
  unfoldable pub failed_calls : RailDriverConfig → RailPayload → ℕ → ℕ → W → ℕ
  failed_calls config payload zero attempt w = 0
  failed_calls config payload (suc left) attempt w =
      let (answer, w') = submit_to_rail payload w in
      let waited =
        if ltb attempt config.max_retries then sleep (config.retry_backoff * attempt) w' else w' in
      let later = failed_calls config payload left (attempt + 1) waited in
      elim answer [ ok r ↦ 0 | err message ↦ suc later ]

  recover-events :
      (config : RailDriverConfig) (payload : RailPayload) (attempt : ℕ) (message : String)
      (d : RailDriver) (w : W)
      → events_of (recover now sleep submit_to_rail config payload attempt message d w).0.audits
        ≡ events_of d.audits ++ (if ltb attempt config.max_retries then retry ∷ [] else [])
  unfolding recover audit_log
  recover-events config payload attempt message d w =
      let failed = record_failure config (now w) d in
      elim (Bool-cases (ltb attempt config.max_retries)) [
        | inl e ↦ rw e (
            events_of-append failed.audits (retry_of config payload attempt message ∷ [])
            ∙ ap (λ rs. events_of rs ++ retry ∷ []) (record_failure-audits config (now w) d))
        | inr e ↦ rw e (
            ground (arith, record_failure-audits config (now w) d, append-nil (events_of d.audits)))
      ]

  recover-waits :
      (config : RailDriverConfig) (payload : RailPayload) (attempt : ℕ) (message : String)
      (d : RailDriver) (w : W)
      → (recover now sleep submit_to_rail config payload attempt message d w).1
        ≡ (if ltb attempt config.max_retries then sleep (config.retry_backoff * attempt) w else w)
  unfolding recover
  recover-waits config payload attempt message d w =
      elim (Bool-cases (ltb attempt config.max_retries)) [ inl e ↦ rw e refl | inr e ↦ rw e refl ]

  failed_calls_spent :
      (config : RailDriverConfig) (payload : RailPayload) (attempt : ℕ) (w : W)
      → failed_calls config payload zero attempt w ≡ 0
  unfolding failed_calls
  failed_calls_spent config payload attempt w = refl

  failed_calls_answered :
      (config : RailDriverConfig) (payload : RailPayload) (left attempt : ℕ) (w : W)
      {r : RailSubmissionResult}
      → (submit_to_rail payload w).0 ≡ ok r
      → failed_calls config payload (suc left) attempt w ≡ 0
  unfolding failed_calls
  failed_calls_answered config payload left attempt w e = rw (e, failed_calls) refl

  failed_calls_threw :
      (config : RailDriverConfig) (payload : RailPayload) (left attempt : ℕ) (w : W)
      (message : String) (d : RailDriver)
      → (submit_to_rail payload w).0 ≡ err message
      → let w' = (submit_to_rail payload w).1 in
        failed_calls config payload (suc left) attempt w
        ≡ suc (
            failed_calls config payload left
              (attempt + 1)
              (recover now sleep submit_to_rail config payload attempt message d w').1)
  unfolding failed_calls
  failed_calls_threw config payload left attempt w message d e =
      rw (e, failed_calls)
        (ap (λ v. suc (failed_calls config payload left (attempt + 1) v))
          (sym (recover-waits config payload attempt message d (submit_to_rail payload w).1)))

  run_attempts-events :
      (config : RailDriverConfig) (payload : RailPayload) (left attempt : ℕ)
      (last_error : Option String) (d : RailDriver) (w : W)
      → attempt + left ≡ suc config.max_retries
      → events_of
          (run_attempts now sleep submit_to_rail config payload left attempt last_error d
            w).1.audits
        ≡ events_of d.audits
          ++ (retries (repeated left (failed_calls config payload left attempt w))
              ++ post_submission ∷ [])
  unfolding run_attempts
  run_attempts-events config payload zero attempt last_error d w h =
      rw (failed_calls_spent config payload attempt w) (exhaust-events config payload last_error d)
  run_attempts-events config payload (suc left) attempt last_error d w h =
      let (answer, w') = submit_to_rail payload w in
      elim (Result-cases answer) [
        | inl (r, e) ↦
            let none_failed = failed_calls_answered config payload left attempt w {r = r} e in
            let ready : ltb 0 (suc left) ≡ true = ground arith in
            rw (e, run_attempts, none_failed, ready)
              (settle-events config payload attempt (now w') r d)
        | inr (message, e) ↦
            let (d', w'') = recover now sleep submit_to_rail config payload attempt message d w' in
            let failed = failed_calls config payload left (attempt + 1) w'' in
            let before = events_of d.audits in
            let behind = λ (n : ℕ). retries n ++ post_submission ∷ [] in
            let rest =
              run_attempts-events config payload left (attempt + 1) (some message) d' w''
                (omega (arith, h)) in
            let step = recover-events config payload attempt message d w' in
            let threw = failed_calls_threw config payload left attempt w message d e in
            elim (Bool-cases (ltb attempt config.max_retries)) [
              | inl more ↦
                  let counted : repeated (suc left) (suc failed) ≡ suc (repeated left failed) =
                    ground (arith, h, more) in
                  rw (e, run_attempts)
                    (rest
                      ∙ ap (λ es. es ++ behind (repeated left failed))
                          (step ∙ ap (λ b. before ++ (if b then retry ∷ [] else [])) more)
                      ∙ append_assoc before (retry ∷ []) (behind (repeated left failed))
                      ∙ ap (λ n. before ++ behind n)
                          (sym (ap (λ f. repeated (suc left) f) threw ∙ counted)))
              | inr last ↦
                  let counted : repeated (suc left) (suc failed) ≡ repeated left failed =
                    ground (arith, h, last) in
                  rw (e, run_attempts)
                    (rest
                      ∙ ap (λ es. es ++ behind (repeated left failed))
                          (step
                            ∙ ap (λ b. before ++ (if b then retry ∷ [] else [])) last
                            ∙ append-nil before)
                      ∙ ap (λ n. before ++ behind n)
                          (sym (ap (λ f. repeated (suc left) f) threw ∙ counted)))
            ]
      ]

  recover-counts :
      (config : RailDriverConfig) (payload : RailPayload) (attempt : ℕ) (message : String)
      (d : RailDriver) (w : W)
      → let e = (recover now sleep submit_to_rail config payload attempt message d w).0 in
        (e.failure_count ≡ d.failure_count + 1) × (e.total_failures ≡ d.total_failures)
  unfolding recover audit_log record_failure
  recover-counts config payload attempt message d w = (
    ground (arith, CircuitState-cases d.circuit_state),
    ground (arith, CircuitState-cases d.circuit_state),
  )

  run_attempts_down :
      (config : RailDriverConfig) (payload : RailPayload) (left attempt : ℕ)
      (last_error : Option String) (d : RailDriver) (w : W)
      → ((v : W) → (m : String) × ((submit_to_rail payload v).0 ≡ err m))
      → let out =
          run_attempts now sleep submit_to_rail config payload left attempt last_error d w in
        (out.0.status ≡ unknown_external_state)
        × (out.1.failure_count ≡ d.failure_count + left)
        × (out.1.total_failures ≡ d.total_failures + 1)
  unfolding run_attempts exhaust audit_log
  run_attempts_down config payload zero attempt last_error d w down = (refl, omega arith, refl)
  run_attempts_down config payload (suc left) attempt last_error d w down =
      let (answer, w') = submit_to_rail payload w in
      let (message, e) = down w in
      let (d', w'') = recover now sleep submit_to_rail config payload attempt message d w' in
      let (unknown, counted, failures) =
        run_attempts_down config payload left (attempt + 1) (some message) d' w'' down in
      let (one, same) = recover-counts config payload attempt message d w' in
      (
        rw (e, run_attempts) unknown,
        rw (e, run_attempts) (omega (arith, counted, one)),
        rw (e, run_attempts) (omega (arith, failures, same)),
      )

  -- A submission that the circuit stops is answered REJECTED with one record, CIRCUIT_OPEN, and the
  -- rail is not called. Any other submission leaves a record before the first call; one retry record
  -- for each call that threw and that another call followed, which are all the calls that threw, or all
  -- but the last where the configured number was spent; and exactly one record behind the last call.
  pub submit_audits :
      (config : RailDriverConfig) (payload : RailPayload) (d : RailDriver) (w : W)
      → let allowed = (check_circuit config (now w) d).0 in
        let out = submit now sleep submit_to_rail config payload d w in
        let failed = failed_calls config payload config.max_retries 1 w in
        (allowed ≡ false
          → (events_of out.1.audits ≡ events_of d.audits ++ circuit_open ∷ [])
            × (out.0.status ≡ rejected)
            × (out.2 ≡ w))
        × (allowed ≡ true
            → events_of out.1.audits
              ≡ events_of d.audits
                ++ pre_submission
                  ∷ (retries (repeated config.max_retries failed) ++ post_submission ∷ []))
  unfolding submit refuse_open audit_log
  submit_audits config payload d w =
      let begun = record d { total_submissions = d.total_submissions + 1 } in
      let (allowed, message, checked) = check_circuit config (now w) begun in
      let (same, kept, failures, totals) = check_circuit_lem config (now w) d in
      let pre = audit_of config payload pre_submission in
      let n = repeated config.max_retries (failed_calls config payload config.max_retries 1 w) in
      let events =
        run_attempts-events config payload config.max_retries 1 none (audit_log pre checked) w
          (omega arith) in
      (
        (λ h. (
          rw (same ∙ h) (
              events_of-append checked.audits _
              ∙ ap (λ rs. events_of rs ++ circuit_open ∷ []) kept),
          rw (same ∙ h) refl,
          rw (same ∙ h) refl,
        )),
        (λ h. rw (same ∙ h) (
            events
            ∙ ground (
              arith,
              events_of-append checked.audits (pre ∷ []),
              kept,
              append_assoc (events_of d.audits) (pre_submission ∷ [])
                  (retries n ++ post_submission ∷ []),
            ))),
      )

  -- When the rail throws on every call, a submission that the circuit lets through adds exactly the
  -- configured number of attempts to the failures in a row, the circuit opening on the way or not;
  -- it is answered UNKNOWN_EXTERNAL_STATE and counted as one failed submission.
  pub submit_exhausts :
      (config : RailDriverConfig) (payload : RailPayload) (d : RailDriver) (w : W)
      → ((v : W) → (m : String) × ((submit_to_rail payload v).0 ≡ err m))
      → (check_circuit config (now w) d).0 ≡ true
      → let out = submit now sleep submit_to_rail config payload d w in
        (out.0.status ≡ unknown_external_state)
        × (out.1.failure_count ≡ d.failure_count + config.max_retries)
        × (out.1.total_failures ≡ d.total_failures + 1)
  unfolding submit audit_log
  submit_exhausts config payload d w down h =
      let begun = record d { total_submissions = d.total_submissions + 1 } in
      let (allowed, message, checked) = check_circuit config (now w) begun in
      let (same, kept, failures, totals) = check_circuit_lem config (now w) d in
      let (unknown, counted, failed) =
        run_attempts_down config payload config.max_retries 1 none
          (audit_log (audit_of config payload pre_submission) checked) w down in
      (
        rw (same ∙ h) unknown,
        rw (same ∙ h) (omega (arith, counted, failures)),
        rw (same ∙ h) (omega (arith, failed, totals)),
      )
