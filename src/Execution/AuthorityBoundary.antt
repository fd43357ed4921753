-- ===== src/Execution/AuthorityBoundary.antt =====
-- packages/runtime/src/execution/AuthorityBoundaryEnforcer.ts, with the types that it takes from
-- execution/types.ts: whether an actor may run a command. The capability registry, `BigInt` on
-- texts, `RegExp` and the calendar are parameters; the events that it hands to the event store are
-- part of the answer, since what the store answers is not read.
use Prim.Native.String.{◌++◌ as join}
pub mod Grants
mod Examples
use sovr_protocol.Prelude.{
  ℕ, ◌≡◌, String, Bool, true, false, not, ◌&&◌, ◌||◌, Option, none, some, List, [], ◌∷◌, map, ◌==◌,
  ltb, leb, eqb, length, select, find_first, any, includes, if◌then◌else◌, is_some, or_default,
}
use sovr_protocol.Prelude.Int.{ℤ, ltb_ℤ}
use sovr_protocol.Prelude.Result.{Result, ok, err, ◌>>=◌}
use sovr_protocol.Prelude.Value.{
  Value, undefined, null, bool, num, frac, str, arr, obj, has_field, get,
}
use sovr_protocol.Prelude.Text.{text_of, starts_with, ends_with, join_with}

pub record TimeWindow : Type 0 where
  pub timezone : String
  pub days_of_week : List ℕ
  pub start_hour : ℕ
  pub end_hour : ℕ

pub record CapabilityConstraints : Type 0 where
  pub max_amount : Option String
  pub max_daily_amount : Option String
  pub allowed_domains : Option (List String)
  pub allowed_time_window : Option TimeWindow
  pub allowed_countries : Option (List String)
  pub requires_mfa : Option Bool
  pub custom_constraints : Value

-- Times are milliseconds.
pub record CapabilityGrant : Type 0 where
  pub grant_id : String
  pub actor_id : String
  pub capability : String
  pub scope : String
  pub granted_by : String
  pub granted_at : ℕ
  pub expires_at : Option ℕ
  pub revoked_at : Option ℕ
  pub constraints : Option CapabilityConstraints

pub record AuthorityCheckInput : Type 0 where
  pub actor_id : String
  pub command_name : String
  pub aggregate_id : String
  pub required_capability : String
  pub payload : Value
  pub correlation_id : String
  pub command_id : String

pub data AuthorityViolationType : Type 0 where
  capability_not_held capability_expired capability_revoked scope_mismatch : AuthorityViolationType
  constraint_amount_exceeded constraint_time_window constraint_domain : AuthorityViolationType

pub data AuthorityCheckResult : Type 0 where
  granted : Option String → AuthorityCheckResult
  denied : AuthorityViolationType → String → AuthorityCheckResult

-- The payload of `command.rejected.authority_boundary_violation`.
pub record AuthorityViolationEvent : Type 0 where
  pub command_name : String
  pub command_id : String
  pub actor_id : String
  pub aggregate_id : String
  pub required_capability : String
  pub violation : AuthorityViolationType
  pub reason : String

abbrev pub capability_exempt_commands : List String
capability_exempt_commands =
    "system.health.check" ∷ "system.boot.attest" ∷ "system.runlevel.advance" ∷ []

unfoldable pub is_internal_system_command : String → Bool
is_internal_system_command name =
    any (λ p. starts_with name p) ("system." ∷ "kernel." ∷ "boundary." ∷ [])

unfoldable pub is_revoked : CapabilityGrant → Bool
is_revoked g = is_some g.revoked_at

-- `!grant.expiresAt` holds of a missing time and of 0.
unfoldable pub is_expired : ℕ → CapabilityGrant → Bool
is_expired now g = elim g.expires_at [ none ↦ false | some t ↦ not (eqb t 0) && ltb t now ]

-- The text of one candidate field, where it has an amount.
abbrev pub amount_text : Value → Option String
amount_text (str s) = some s
amount_text (num n) = some (text_of (num n))
amount_text (frac s) = some s
amount_text (obj fs) = if has_field fs "value" then some (text_of (get (obj fs) "value")) else none
amount_text _ = none

abbrev pub first_amount : Value → List String → Option String
first_amount payload [] = none
first_amount payload (k ∷ ks) = elim (amount_text (get payload k)) [
  | some s ↦ some s
  | none ↦ first_amount payload ks
]

unfoldable pub extract_amount : Value → Option String
extract_amount payload =
    first_amount payload ("amount" ∷ "transferAmount" ∷ "paymentAmount" ∷ "value" ∷ [])

unfoldable pub extract_domain : Value → Option String
extract_domain payload = elim (get payload "domain") [ str s ↦ some s | _ ↦ none ]

unfoldable pub is_within_time_window : (String → ℕ × ℕ) → TimeWindow → Bool
is_within_time_window local_time w =
    let (day, hour) = local_time w.timezone in
    any (λ d. eqb d day) w.days_of_week && not (ltb hour w.start_hour || leb w.end_hour hour)

-- `capabilityGrants.find` and its test; `matches` is the test of the pattern as a `RegExp`, false
-- where the pattern does not compile.
unfoldable pub in_scope : (String → String → Bool) → String → CapabilityGrant → Bool
in_scope matches aggregate_id g =
    let scope = if g.scope == "" then "*" else g.scope in
    scope == "*"
    || scope == aggregate_id
    || ends_with scope ":*"
    || ends_with scope ".*"
    || matches scope aggregate_id

unfoldable pub find_matching_grant :
    (String → String → Bool)
    → List CapabilityGrant
    → String
    → String
    → Result (AuthorityViolationType × String) CapabilityGrant
find_matching_grant matches grants required aggregate_id =
    let held = select (λ g. g.capability == required) grants in
    if eqb (length held) 0
    then err (capability_not_held, join "Actor does not hold capability '" (join required "'"))
    else elim (find_first (in_scope matches aggregate_id) held) [
      | some g ↦ ok g
      | none ↦ err (
        scope_mismatch,
        join "Capability '" (
            join required (
              join "' not granted for aggregate '" (
                join aggregate_id (
                  join "' (granted scopes: "
                    (join (join_with ", " (map (λ g. g.scope) held)) ")"))))),
      )
    ]

-- The three constraints in their order; `none` is satisfied, and `BigInt` throws on a text that is
-- no number.
abbrev pub check_amount :
    (String → Result String ℤ)
    → Option String
    → Option String
    → Result String (Option (AuthorityViolationType × String))
check_amount big_int (some limit) (some amount) = do
  a ← big_int amount
  l ← big_int limit
  ok (
      if ltb_ℤ l a
      then some (
        constraint_amount_exceeded,
        join "Amount " (join amount (join " exceeds grant limit " limit)),
      )
      else none)
check_amount big_int _ _ = ok none

abbrev pub check_time_window :
    (String → ℕ × ℕ) → Option TimeWindow → Option (AuthorityViolationType × String)
check_time_window local_time none = none
check_time_window local_time (some w) =
    if is_within_time_window local_time w
    then none
    else some (constraint_time_window, "Command not allowed outside time window")

-- An empty domain is no domain.
abbrev pub check_domain :
    Option (List String) → Option String → Option (AuthorityViolationType × String)
check_domain (some (d ∷ ds)) (some domain) =
    if not (domain == "") && not (includes (d ∷ ds) domain)
    then some (constraint_domain, join "Domain '" (join domain "' not in allowed domains"))
    else none
check_domain _ _ = none

abbrev pub or_next {ℓ} : {A : Type ℓ} → Option A → Option A → Option A
or_next none b = b
or_next (some a) b = some a

unfoldable pub check_constraints :
    (String → Result String ℤ)
    → (String → ℕ × ℕ)
    → CapabilityConstraints
    → Value
    → Result String (Option (AuthorityViolationType × String))
check_constraints big_int local_time c payload = do
  amount ← check_amount big_int c.max_amount (extract_amount payload)
  ok (
      or_next amount (
        or_next (check_time_window local_time c.allowed_time_window)
          (check_domain c.allowed_domains (extract_domain payload))))

unfoldable pub deny :
    AuthorityCheckInput
    → AuthorityViolationType
    → String
    → Result String AuthorityCheckResult × List AuthorityViolationEvent
deny input violation reason = (
  ok (denied violation reason),
  record {
    command_name = input.command_name;
    command_id = input.command_id;
    actor_id = input.actor_id;
    aggregate_id = input.aggregate_id;
    required_capability = input.required_capability;
    violation = violation;
    reason = reason;
  }
      ∷ [],
)

-- What the enforcer asks of the rest of the program and of its host, at the time of one check.
pub record Environment : Type 0 where
  pub is_system_actor : String → Bool
  pub get_actor_capabilities : String → Result String (List CapabilityGrant)
  pub matches : String → String → Bool
  pub big_int : String → Result String ℤ
  pub local_time : String → ℕ × ℕ
  pub to_iso_string : ℕ → String
  pub now : ℕ

-- The body of `check` behind the time tests.
abbrev pub constrained :
    AuthorityCheckInput
    → CapabilityGrant
    → Result String (Option (AuthorityViolationType × String))
    → Result String AuthorityCheckResult × List AuthorityViolationEvent
constrained input g (err x) = (err x, [])
constrained input g (ok none) = (ok (granted (some g.grant_id)), [])
constrained input g (ok (some (violation, reason))) = deny input violation reason

abbrev pub constraints_of :
    Environment
    → Option CapabilityConstraints
    → Value
    → Result String (Option (AuthorityViolationType × String))
constraints_of env none payload = ok none
constraints_of env (some c) payload = check_constraints env.big_int env.local_time c payload

abbrev pub matched :
    Environment
    → AuthorityCheckInput
    → Result (AuthorityViolationType × String) CapabilityGrant
    → Result String AuthorityCheckResult × List AuthorityViolationEvent
matched env input (err (violation, reason)) = deny input violation reason
matched env input (ok g) =
    if is_expired env.now g
    then deny input capability_expired (
        join "Capability '" (
          join g.capability (join "' expired at " (env.to_iso_string (or_default g.expires_at 0)))))
    else if is_revoked g
    then deny input capability_revoked
        (join "Capability '" (join g.capability "' has been revoked"))
    else constrained input g (constraints_of env g.constraints input.payload)

abbrev pub with_grants :
    Environment
    → AuthorityCheckInput
    → Result String (List CapabilityGrant)
    → Result String AuthorityCheckResult × List AuthorityViolationEvent
with_grants env input (err x) = (err x, [])
with_grants env input (ok grants) =
    matched env input
      (find_matching_grant env.matches grants input.required_capability input.aggregate_id)

unfoldable pub check :
    Environment
    → AuthorityCheckInput
    → Result String AuthorityCheckResult × List AuthorityViolationEvent
check env input =
    if includes capability_exempt_commands input.command_name
    then (ok (granted none), [])
    else if env.is_system_actor input.actor_id && is_internal_system_command input.command_name
    then (ok (granted none), [])
    else with_grants env input (env.get_actor_capabilities input.actor_id)
