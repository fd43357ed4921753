-- ===== src/Execution/EventEnforcement.antt =====
-- packages/runtime/src/execution/AuditTrailEnforcer.ts, EventOrderingEnforcer.ts with its in-memory
-- tracker, and EventStoreEnforcementWrapper.ts: what an event must be before a store is written. The
-- wrapped store is a parameter, and so is `Number` on a text, which answers a whole number or none.
use Prim.Native.String.{◌++◌ as join}
pub mod Audit
pub mod Ordering
mod Examples
use sovr_protocol.Prelude.{
  ℕ, suc, ◌+◌, String, Bool, true, false, not, ◌&&◌, ◌||◌, Option, none, some, List, [], ◌∷◌, ◌==◌,
  ltb, eqb, length, select, is_some, or_default, if◌then◌else◌,
}
use sovr_protocol.Prelude.Int.{ℤ, pos, negsuc, eqb_ℤ}
use sovr_protocol.Prelude.Maps.{Map, lookup, insert}
use sovr_protocol.Prelude.Result.{Result, ok, err}
use sovr_protocol.Prelude.Value.{
  Value, undefined, null, bool, num, frac, str, arr, obj, Items, nil, cons, get, truthy, is_nullish,
  coalesce,
}
use sovr_protocol.Prelude.Text.{text_of, show_ℕ, join_with}

-- `AuditEnforcementResult` and `OrderingEnforcementResult`; a reason is there exactly when the event is refused, and then `failClosed`
-- is set.
pub record EnforcementResult : Type 0 where
  pub allowed : Bool
  pub invariant : String
  pub reason : Option String
  pub fail_closed : Bool

abbrev pub allow : String → EnforcementResult
allow invariant = record {
  allowed = true;
  invariant = invariant;
  reason = none;
  fail_closed = false;
}

abbrev pub refuse : String → String → EnforcementResult
refuse invariant reason = record {
  allowed = false;
  invariant = invariant;
  reason = some reason;
  fail_closed = true;
}

abbrev pub required_audit_fields : List String
required_audit_fields =
    "event_name" ∷ "aggregate_id" ∷ "actor_id" ∷ "correlation_id" ∷ "command_id" ∷ []

abbrev pub is_missing : Value → Bool
is_missing (str s) = s == ""
is_missing v = is_nullish v

-- `typeof v === 'object'` for a `v` that is truthy.
abbrev pub is_object : Value → Bool
is_object (obj fs) = true
is_object (arr xs) = true
is_object _ = false

abbrev pub cites : Items → String → Bool
cites nil rule = false
cites (cons (str s) refs) rule = s == rule || cites refs rule
cites (cons _ refs) rule = cites refs rule

abbrev pub has_rules : Value → Bool
has_rules (arr (cons x xs)) = true
has_rules _ = false

abbrev pub cites_itself : Value → Bool
cites_itself (arr refs) = cites refs "INV-005"
cites_itself _ = false

unfoldable pub enforce_audit : Bool → Value → EnforcementResult
enforce_audit require_self_reference event =
    let missing = select (λ f. is_missing (get event f)) required_audit_fields in
    let refs = get (get event "audit") "constitutional_rules_referenced" in
    if not (is_object event)
    then refuse "INV-005" "Event is not an object — cannot verify audit completeness"
    else if ltb 0 (length missing)
    then refuse "INV-005" (join "Event missing required audit fields: " (join_with ", " missing))
    else if not (is_object (get event "audit"))
    then refuse "INV-005" "Event missing audit block"
    else if not (has_rules refs)
    then refuse "INV-005"
        "Event audit block missing constitutional_rules_referenced — every event must cite the rules it was evaluated under"
    else if require_self_reference && not (cites_itself refs)
    then refuse "INV-005" "Event does not reference INV-005 in constitutional_rules_referenced"
    else allow "INV-005"

-- `Number(v)`, where it is a whole number.
unfoldable pub to_integer : (String → Option ℤ) → Value → Option ℤ
to_integer number (num n) = some n
to_integer number (bool b) = some (pos (if b then 1 else 0))
to_integer number (str s) = number s
to_integer number (arr xs) = number (text_of (arr xs))
to_integer number _ = none

-- A stream is named by a text, as its type says.
unfoldable pub stream_of : Value → Value
stream_of event = coalesce (get event "stream_id") (get event "aggregate_id")

unfoldable pub sequence_of : Value → Value
sequence_of event = coalesce (get event "sequence") (get event "stream_sequence")

abbrev pub ordered : Map ℕ → String → Option ℕ → ℕ → EnforcementResult × Map ℕ
ordered tracker stream none sequence =
    if not (eqb sequence 1)
    then (
      refuse "INV-007" (
          join "First event in stream "
            (join stream (join " must have sequence 1, got " (show_ℕ sequence)))),
      tracker,
    )
    else (allow "INV-007", insert stream sequence tracker)
ordered tracker stream (some last) sequence =
    if not (eqb sequence (last + 1))
    then (
      refuse "INV-007" (
          join "Stream " (
            join stream (
              join ": expected sequence " (
                join (show_ℕ (last + 1)) (
                  join ", got "
                    (join (show_ℕ sequence) ". Out-of-order or duplicate event rejected.")))))),
      tracker,
    )
    else (allow "INV-007", insert stream sequence tracker)

abbrev pub numbered : Map ℕ → String → Value → Option ℤ → EnforcementResult × Map ℕ
numbered tracker stream raw (some (pos (suc n))) =
    ordered tracker stream (lookup stream tracker) (suc n)
numbered tracker stream raw _ = (
  refuse "INV-007" (
      join "Invalid sequence \""
        (join (text_of raw) (join "\" for stream " (join stream " — must be a positive integer")))),
  tracker,
)

unfoldable pub enforce_ordering : (String → Option ℤ) → Map ℕ → Value → EnforcementResult × Map ℕ
enforce_ordering number tracker event =
    let raw = sequence_of event in
    if is_nullish raw
    then (allow "INV-007", tracker)
    else if not (truthy (stream_of event))
    then (
      refuse "INV-007" "Event carries a sequence but no aggregate_id/stream_id to order it within",
      tracker,
    )
    else numbered tracker (text_of (stream_of event)) raw (to_integer number raw)

-- `ConstitutionalViolationError`, or what the wrapped store throws.
pub data AppendError (E : Type 0) : Type 0 where
  violation : String → String → AppendError E
  inner_error : E → AppendError E

abbrev pub passed_on :
    {E A S : Type 0} → Map ℕ → Result E A × S → Result (AppendError E) A × Map ℕ × S
passed_on tracker (ok a, s) = (ok a, tracker, s)
passed_on tracker (err x, s) = (err (inner_error x), tracker, s)

-- The wrapper around a store whose `append` is `inner`: the tracker and the store's own state.
unfoldable pub append :
    {E A S : Type 0}
    → (S → Value → Result E A × S)
    → Bool
    → (String → Option ℤ)
    → Map ℕ
    → S
    → Value
    → Result (AppendError E) A × Map ℕ × S
append inner require_self_reference number tracker s event =
    let audit = enforce_audit require_self_reference event in
    let (order, advanced) = enforce_ordering number tracker event in
    if not audit.allowed
    then (err (violation "INV-005" (or_default audit.reason "Audit trail incomplete")), tracker, s)
    else if not order.allowed
    then (
      err (violation "INV-007" (or_default order.reason "Event ordering violation")),
      advanced,
      s,
    )
    else passed_on advanced (inner s event)
