-- ===== src/Execution/EventEnforcement/Audit.antt =====
-- What packages/runtime/src/execution/AuditTrailEnforcer.ts lets through.
use sovr_protocol.Prelude.{
  ◌≡◌, ◌↔◌, refl, String, Bool, true, false, not, ◌||◌, List, [], ◌∷◌, arith, ltb, length, is_some,
  select, All,
}
use sovr_protocol.Prelude.Value.{Value, get}
use sovr_protocol.Execution.EventEnforcement.{
  required_audit_fields, is_missing, is_object, has_rules, cites_itself, enforce_audit,
}

-- An event that can be audited: every required field is there and not empty, and its audit block names at least one rule, INV-005
-- among them where that is asked.
pub record IsAuditable (require_self_reference : Bool) (event : Value) : Type 0 where
  pub object : is_object event ≡ true
  pub complete : All (λ f. is_missing (get event f) ≡ false) required_audit_fields
  pub audited : is_object (get event "audit") ≡ true
  pub cited : has_rules (get (get event "audit") "constitutional_rules_referenced") ≡ true
  pub itself :
      (not require_self_reference
        || cites_itself (get (get event "audit") "constitutional_rules_referenced"))
      ≡ true

none_selected :
    (p : String → Bool) (fields : List String)
    → ltb 0 (length (select p fields)) ≡ false
    → All (λ f. p f ≡ false) fields
unfolding select
none_selected p [] h = tt
none_selected p (f ∷ fs) h =
    let kept : p f ≡ false = ground (arith, h) in
    (kept, none_selected p fs (ground (arith, h, kept)))

select_none :
    (p : String → Bool) (fields : List String)
    → All (λ f. p f ≡ false) fields
    → ltb 0 (length (select p fields)) ≡ false
unfolding select
select_none p [] h = refl
select_none p (f ∷ fs) h = ground (arith, h.0, select_none p fs h.1)

-- An event passes the audit check exactly when it is an object whose required fields are all there
-- and not empty, with an audit block that names at least one rule, INV-005 among them where that is
-- asked. A refused event has a reason and closes.
pub enforce_audit_iff :
    (require_self_reference : Bool) (event : Value)
    → let r = enforce_audit require_self_reference event in
      ((r.allowed ≡ true) ↔ IsAuditable require_self_reference event)
      × (is_some r.reason ≡ not r.allowed)
      × (r.fail_closed ≡ not r.allowed)
unfolding enforce_audit
enforce_audit_iff require_self_reference event =
    let missing : String → Bool = λ f. is_missing (get event f) in
    (
      (
        (λ h. record {
          object = ground (arith, h);
          complete = none_selected missing required_audit_fields (ground (arith, h));
          audited = ground (arith, h);
          cited = ground (arith, h);
          itself = ground (arith, h);
        }),
        (λ a. ground (
          arith,
          a.object,
          select_none missing required_audit_fields a.complete,
          a.audited,
          a.cited,
          a.itself,
        )),
      ),
      ground arith,
      ground arith,
    )
