-- ===== src/Adapters/BoundaryEventBus/Audit.antt =====
-- The audit log of packages/runtime/src/adapters/BoundaryEventBus.ts, beside the commands that it sends.
use sovr_protocol.Prelude.{
  false, true, arith, ℕ, zero, suc, ◌≡◌, refl, sym, ap, ◌∙◌, String, Option, none, some, List, [],
  ◌∷◌, ◌++◌, length,
}
use sovr_protocol.Prelude.Maps.{lookup}
use sovr_protocol.Prelude.Result.{Result}
use sovr_protocol.Adapters.RailDriver.{
  RailPayload, RailSubmissionResult, RailAuditRecord, RailDriver, AuditEvent, pre_submission,
  post_submission, circuit_open, check_circuit, rejected,
}
use sovr_protocol.Adapters.RailDriver as RailDriver
use sovr_protocol.Adapters.RailDriver.Attempts.{
  events_of, retries, repeated, failed_calls, submit_audits,
}
use sovr_protocol.Adapters.BoundaryEventBus.{
  BusCall, RegisteredDriver, BoundaryEventBus, command_of, call_of, emitted, send, submitted_to,
  submit_to_rail,
}

emitted-append {ℓ} : {A : Type ℓ} (xs ys : List A) → emitted (length xs) (xs ++ ys) ≡ ys
unfolding emitted
emitted-append [] ys = refl
emitted-append (x ∷ xs) ys = emitted-append xs ys

events_of-emitted :
    (n : ℕ) (rs : List RailAuditRecord) → events_of (emitted n rs) ≡ emitted n (events_of rs)
unfolding emitted
events_of-emitted zero rs = refl
events_of-emitted (suc n) [] = refl
events_of-emitted (suc n) (r ∷ rs) = events_of-emitted n rs

length-events_of : (rs : List RailAuditRecord) → length (events_of rs) ≡ length rs
length-events_of [] = refl
length-events_of (r ∷ rs) = ap suc (length-events_of rs)

events_of-append :
    (xs ys : List RailAuditRecord) → events_of (xs ++ ys) ≡ events_of xs ++ events_of ys
events_of-append [] ys = refl
events_of-append (x ∷ xs) ys = ap (λ es. x.event ∷ es) (events_of-append xs ys)

-- The events that a driver has added are the ones that the bus hears.
heard-events :
    (log before after : List RailAuditRecord) (es : List AuditEvent)
    → events_of after ≡ events_of before ++ es
    → events_of (log ++ emitted (length before) after) ≡ events_of log ++ es
heard-events log before after es h =
    events_of-append log (emitted (length before) after)
    ∙ ap (λ xs. events_of log ++ xs)
        (events_of-emitted (length before) after
          ∙ ap (emitted (length before)) h
          ∙ ap (λ n. emitted n (events_of before ++ es)) (sym (length-events_of before))
          ∙ emitted-append (events_of before) es)

module _ {W : Type 0} (now : W → ℕ) (sleep : ℕ → W → W)
    (rails : String → RailPayload → W → Result String RailSubmissionResult × W)
    (dispatch : BusCall → W → Result String (Unit {0}) × W) where
  submitted_to-audits :
      (rail_id : String) (payload : RailPayload) (b : BoundaryEventBus) (w : W)
      (found : Option RegisteredDriver) (d : RegisteredDriver)
      → found ≡ some d
      → let after = (submitted_to now sleep rails dispatch rail_id payload b w found).1 in
        let out = RailDriver.submit now sleep (rails rail_id) d.config payload d.driver w in
        (after.dispatched ≡ b.dispatched ++ call_of b.system_actor_id rail_id payload out.0 ∷ [])
        × (after.audit_log ≡ b.audit_log ++ emitted (length d.driver.audits) out.1.audits)
  unfolding send
  submitted_to-audits rail_id payload b w none d e = cc
  submitted_to-audits rail_id payload b w (some d') d e = ground (arith, e)

  -- A submission to a rail that has a driver sends exactly one command, which tells the answer of the
  -- driver, and adds the driver's records to the log of the bus: where the circuit is open, only its
  -- record, and the command says rejected; else one before the first call, one retry for each call that
  -- threw and that another followed, and one behind the last.
  pub submit_to_rail_known :
      (rail_id : String) (payload : RailPayload) (b : BoundaryEventBus) (w : W)
      (d : RegisteredDriver)
      → lookup rail_id b.drivers ≡ some d
      → let after = (submit_to_rail now sleep rails dispatch rail_id payload b w).1 in
        let out = RailDriver.submit now sleep (rails rail_id) d.config payload d.driver w in
        let call = call_of b.system_actor_id rail_id payload out.0 in
        let allowed = (check_circuit d.config (now w) d.driver).0 in
        let tries = d.config.max_retries in
        let failed = failed_calls now sleep (rails rail_id) d.config payload tries 1 w in
        (after.dispatched ≡ b.dispatched ++ call ∷ [])
        × (allowed ≡ false
            → (events_of after.audit_log ≡ events_of b.audit_log ++ circuit_open ∷ [])
              × (call.command_name ≡ "payment.rail.rejected"))
        × (allowed ≡ true
            → events_of after.audit_log
              ≡ events_of b.audit_log
                ++ pre_submission ∷ (retries (repeated tries failed) ++ post_submission ∷ []))
  unfolding submit_to_rail call_of
  submit_to_rail_known rail_id payload b w d e =
      let out = RailDriver.submit now sleep (rails rail_id) d.config payload d.driver w in
      let tries = d.config.max_retries in
      let failed = failed_calls now sleep (rails rail_id) d.config payload tries 1 w in
      let (sent, log) = submitted_to-audits rail_id payload b w (lookup rail_id b.drivers) d e in
      let (closed, made) = submit_audits now sleep (rails rail_id) d.config payload d.driver w in
      (
        sent,
        (λ h. (
          ap events_of log
              ∙ heard-events b.audit_log d.driver.audits out.1.audits (circuit_open ∷ [])
                  (closed h).0,
          ap command_of (closed h).1,
        )),
        (λ h.
            ap events_of log
            ∙ heard-events b.audit_log d.driver.audits out.1.audits
                (pre_submission ∷ (retries (repeated tries failed) ++ post_submission ∷ []))
                (made h)),
      )
