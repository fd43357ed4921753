-- ===== src/Execution/AuthorityBoundary/Grants.antt =====
-- What the answers of `check` in packages/runtime/src/execution/AuthorityBoundaryEnforcer.ts stand on.
use mathlib.Core.List.{Memᴰ}
use Prim.Native.String.{◌++◌ as join}
use sovr_protocol.Prelude.{
  ◌≡◌, refl, ◌⊎◌, inl, inr, String, true, false, ◌&&◌, Option, none, some, List, [], ◌∷◌, arith,
  ◌==◌, eq_iff, select, find_first, find_first-select, includes, Bool-cases, Option-cases,
  or_default,
}
use sovr_protocol.Prelude.Result.{Result, ok, err}
use sovr_protocol.Execution.AuthorityBoundary.{
  CapabilityGrant, AuthorityCheckInput, AuthorityCheckResult, AuthorityViolationType,
  AuthorityViolationEvent, Environment, granted, denied, capability_expired,
  capability_exempt_commands, is_internal_system_command, is_expired, is_revoked, in_scope,
  find_matching_grant, deny, constrained, constraints_of, matched, with_grants, check,
}

-- A grant among the actor's that covers the command: it is for the capability and the aggregate, neither expired nor revoked, and its
-- constraints hold of the payload.
pub record IsCovering (env : Environment) (input : AuthorityCheckInput)
    (grants : List CapabilityGrant) (g : CapabilityGrant) : Type 0 where
  pub held : Memᴰ g grants
  pub capable : (g.capability == input.required_capability) ≡ true
  pub scoped : in_scope env.matches input.aggregate_id g ≡ true
  pub alive : is_expired env.now g ≡ false
  pub kept : is_revoked g ≡ false
  pub within : constraints_of env g.constraints input.payload ≡ ok none

find_matching_grant-Memᴰ :
    (env : Environment) (grants : List CapabilityGrant) (required id : String) {g : CapabilityGrant}
    → find_matching_grant env.matches grants required id ≡ ok g
    → Memᴰ g grants × ((g.capability == required) ≡ true) × (in_scope env.matches id g ≡ true)
unfolding find_matching_grant
find_matching_grant-Memᴰ env grants required id {g} h =
    let held = select (λ g. g.capability == required) grants in
    find_first-select (in_scope env.matches id) (λ g. g.capability == required) grants {x = g}
      (ground (arith, Option-cases (find_first (in_scope env.matches id) held), h))

constrained_granted :
    (input : AuthorityCheckInput) (g : CapabilityGrant)
    (r : Result String (Option (AuthorityViolationType × String))) {id : Option String}
    → (constrained input g r).0 ≡ ok (granted id)
    → (r ≡ ok none) × (id ≡ some g.grant_id)
unfolding deny
constrained_granted input g (err x) h = cc
constrained_granted input g (ok none) {id} h = (refl, ground (arith, h))
constrained_granted input g (ok (some v)) h = cc

matched_granted :
    (env : Environment) (input : AuthorityCheckInput)
    (r : Result (AuthorityViolationType × String) CapabilityGrant) {id : Option String}
    → (matched env input r).0 ≡ ok (granted id)
    → (g : CapabilityGrant) × (r ≡ ok g)
      × (is_expired env.now g ≡ false)
      × (is_revoked g ≡ false)
      × (constraints_of env g.constraints input.payload ≡ ok none)
      × (id ≡ some g.grant_id)
unfolding deny
matched_granted env input (err v) h = cc
matched_granted env input (ok g) {id} h =
    let c = constraints_of env g.constraints input.payload in
    let alive : is_expired env.now g ≡ false = ground (arith, h) in
    let kept : is_revoked g ≡ false = ground (arith, alive, h) in
    let (within, named) =
      constrained_granted input g c {id = id} (ground (arith, alive, kept, h)) in
    (g, refl, alive, kept, within, named)

-- The command is exempt, or it is internal and a system actor gives it, or a grant of the actor
-- covers it, and the answer names that grant.
pub IsAuthorised : Environment → AuthorityCheckInput → Option String → Type 0
IsAuthorised env input id =
    ((includes capability_exempt_commands input.command_name ≡ true) × (id ≡ none))
    ⊎ ((env.is_system_actor input.actor_id ≡ true)
        × (is_internal_system_command input.command_name ≡ true)
        × (id ≡ none))
    ⊎ ((grants : List CapabilityGrant) × (g : CapabilityGrant) × (env.get_actor_capabilities
            input.actor_id
          ≡ ok grants)
        × IsCovering env input grants g
        × (id ≡ some g.grant_id))

with_grants_granted :
    (env : Environment) (input : AuthorityCheckInput) (r : Result String (List CapabilityGrant))
    {id : Option String}
    → (with_grants env input r).0 ≡ ok (granted id)
    → (grants : List CapabilityGrant) × (g : CapabilityGrant) × (r ≡ ok grants)
      × IsCovering env input grants g
      × (id ≡ some g.grant_id)
with_grants_granted env input (err x) h = cc
with_grants_granted env input (ok grants) {id} h =
    let found =
      find_matching_grant env.matches grants input.required_capability input.aggregate_id in
    let (g, same, alive, kept, within, named) = matched_granted env input found {id = id} h in
    let (held, capable, scoped) =
      find_matching_grant-Memᴰ env grants input.required_capability input.aggregate_id {g = g}
        same in
    (
      grants,
      g,
      refl,
      record {
        held = held;
        capable = capable;
        scoped = scoped;
        alive = alive;
        kept = kept;
        within = within;
      },
      named,
    )

-- A command is granted only when it is exempt, or is an internal one of a system actor, or is
-- covered by a grant that the actor holds for this capability and this aggregate, that is neither
-- expired nor revoked, and whose constraints the payload meets; the answer names that grant.
pub check-IsAuthorised :
    (env : Environment) (input : AuthorityCheckInput) {id : Option String}
    → (check env input).0 ≡ ok (granted id)
    → IsAuthorised env input id
unfolding check IsAuthorised
check-IsAuthorised env input {id} h =
    elim (Bool-cases (includes capability_exempt_commands input.command_name)) [
      | inl e ↦ inl (e, ground (arith, e, h))
      | inr e ↦
          elim (Bool-cases
            (env.is_system_actor input.actor_id && is_internal_system_command input.command_name)) [
              | inl f ↦ inr (inl (ground (arith, f), ground (arith, f), ground (arith, e, f, h)))
              | inr f ↦ inr (
                  inr (
                    with_grants_granted env input (env.get_actor_capabilities input.actor_id)
                      {id = id} (ground (arith, e, f, h))))
            ]
    ]

-- The events that an answer calls for.
pub violation_of :
    AuthorityCheckInput → Result String AuthorityCheckResult → List AuthorityViolationEvent
violation_of input (ok (denied v reason)) =
    record {
      command_name = input.command_name;
      command_id = input.command_id;
      actor_id = input.actor_id;
      aggregate_id = input.aggregate_id;
      required_capability = input.required_capability;
      violation = v;
      reason = reason;
    }
    ∷ []
violation_of input _ = []

constrained_events :
    (input : AuthorityCheckInput) (g : CapabilityGrant)
    (r : Result String (Option (AuthorityViolationType × String)))
    → (constrained input g r).1 ≡ violation_of input (constrained input g r).0
unfolding deny violation_of
constrained_events input g (err x) = refl
constrained_events input g (ok none) = refl
constrained_events input g (ok (some v)) = refl

matched_events :
    (env : Environment) (input : AuthorityCheckInput)
    (r : Result (AuthorityViolationType × String) CapabilityGrant)
    → (matched env input r).1 ≡ violation_of input (matched env input r).0
unfolding deny violation_of
matched_events env input (err v) = refl
matched_events env input (ok g) =
    ground (arith, constrained_events input g (constraints_of env g.constraints input.payload))

with_grants_events :
    (env : Environment) (input : AuthorityCheckInput) (r : Result String (List CapabilityGrant))
    → (with_grants env input r).1 ≡ violation_of input (with_grants env input r).0
unfolding violation_of
with_grants_events env input (err x) = refl
with_grants_events env input (ok grants) =
    matched_events env input
      (find_matching_grant env.matches grants input.required_capability input.aggregate_id)

-- A refusal hands exactly one event to the event store, with the command, the actor, the violation
-- and the reason of the answer; a command that is granted, or whose check throws, hands it none.
pub check_events :
    (env : Environment) (input : AuthorityCheckInput)
    → (check env input).1 ≡ violation_of input (check env input).0
unfolding check violation_of
check_events env input =
    ground (arith, with_grants_events env input (env.get_actor_capabilities input.actor_id))

-- Only the first grant that fits is looked at: when the first grant of the actor is for the
-- capability and in the scope but has expired, a command that is not exempt, of an actor that is
-- not a system actor, is refused, whatever other grants the actor holds.
pub check_first_grant_expired :
    (env : Environment) (input : AuthorityCheckInput) (g : CapabilityGrant)
    (rest : List CapabilityGrant)
    → includes capability_exempt_commands input.command_name ≡ false
    → env.is_system_actor input.actor_id ≡ false
    → env.get_actor_capabilities input.actor_id ≡ ok (g ∷ rest)
    → g.capability ≡ input.required_capability
    → in_scope env.matches input.aggregate_id g ≡ true
    → is_expired env.now g ≡ true
    → (reason : String) × ((check env input).0 ≡ ok (denied capability_expired reason))
unfolding check find_matching_grant select find_first deny
check_first_grant_expired env input g rest e s grants c scoped old = (
  join "Capability '"
      (join g.capability (join "' expired at " (env.to_iso_string (or_default g.expires_at 0)))),
  ground (arith, e, s, grants, c, scoped, old, eq_iff g.capability input.required_capability),
)
