-- ===== src/Execution/Kernel/Denials/Reports.antt =====
-- The event of packages/runtime/src/execution/AuthorityBoundaryEnforcer.ts that goes with a denial.
use sovr_protocol.Prelude.{
  ◌≡◌, ap, String, Option, none, some, List, [], ◌∷◌, ◌&&◌, includes, arith, if-cases,
}
use sovr_protocol.Prelude.Result.{Result, ok, err}
use sovr_protocol.Execution.AuthorityBoundary.{
  AuthorityCheckInput, AuthorityCheckResult, AuthorityViolationType, AuthorityViolationEvent,
  CapabilityGrant, CapabilityConstraints, Environment, granted, denied, deny, constrained,
  capability_exempt_commands, is_internal_system_command, find_matching_grant, constraints_of,
  matched, with_grants, is_expired, is_revoked,
}
use sovr_protocol.Execution.AuthorityBoundary as AuthorityBoundary
use sovr_protocol.Execution.Kernel.{rejected, authority_boundary_violation, authorised}

-- The event of the boundary that belongs to a denial.
abbrev pub denial : AuthorityCheckInput → AuthorityViolationType → String → AuthorityViolationEvent
denial input violation reason = record {
  command_name = input.command_name;
  command_id = input.command_id;
  actor_id = input.actor_id;
  aggregate_id = input.aggregate_id;
  required_capability = input.required_capability;
  violation = violation;
  reason = reason;
}

abbrev pub IsReported :
    AuthorityCheckInput
    → String
    → Result String AuthorityCheckResult × List AuthorityViolationEvent
    → Type 0
IsReported input reason out =
    authorised out.0 ≡ err (rejected authority_boundary_violation reason)
    → (v : AuthorityViolationType) × (out.1 ≡ denial input v reason ∷ [])

deny-IsReported :
    (input : AuthorityCheckInput) (v : AuthorityViolationType) (text reason : String)
    → IsReported input reason (deny input v text)
unfolding deny
deny-IsReported input v text reason h = (v, ap (λ r. denial input v r ∷ []) (ground (arith, h)))

constrained-IsReported :
    (input : AuthorityCheckInput) (g : CapabilityGrant)
    (r : Result String (Option (AuthorityViolationType × String))) (reason : String)
    → IsReported input reason (constrained input g r)
constrained-IsReported input g (err x) reason h = cc
constrained-IsReported input g (ok none) reason h = cc
constrained-IsReported input g (ok (some (v, text))) reason h =
    deny-IsReported input v text reason h

matched-IsReported :
    (env : Environment) (input : AuthorityCheckInput)
    (r : Result (AuthorityViolationType × String) CapabilityGrant) (reason : String)
    → IsReported input reason (matched env input r)
matched-IsReported env input (err (v, text)) reason = deny-IsReported input v text reason
matched-IsReported env input (ok g) reason =
    if-cases (IsReported input reason) (is_expired env.now g)
      (λ _. deny-IsReported input _ _ reason)
      (λ _.
        if-cases (IsReported input reason) (is_revoked g) (λ _. deny-IsReported input _ _ reason)
          (λ _.
            constrained-IsReported input g (constraints_of env g.constraints input.payload) reason))

pub check-IsReported :
    (env : Environment) (input : AuthorityCheckInput) (reason : String)
    → IsReported input reason (AuthorityBoundary.check env input)
unfolding AuthorityBoundary.check
check-IsReported env input reason =
    if-cases (IsReported input reason) (includes capability_exempt_commands input.command_name)
      (λ _ h. cc)
      (λ _.
        if-cases (IsReported input reason)
          (env.is_system_actor input.actor_id && is_internal_system_command input.command_name)
          (λ _ h. cc) (λ _. held (env.get_actor_capabilities input.actor_id)))
  where
    held :
        (r : Result String (List CapabilityGrant))
        → IsReported input reason (with_grants env input r)
    held (err x) = λ h. cc
    held (ok grants) =
        matched-IsReported env input
          (find_matching_grant env.matches grants input.required_capability input.aggregate_id)
          reason
