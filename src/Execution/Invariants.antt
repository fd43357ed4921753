-- ===== src/Execution/Invariants.antt =====
-- packages/runtime/src/execution/CapabilityBoundaryEnforcer.ts, ConstitutionalSupremacyEnforcer.ts and
-- StateSovereigntyEnforcer.ts, which the kernel asks before a command runs. The compiled registries
-- are parameters; the event that the first one appends is in Kernel/Audits.
use Prim.Native.String.{◌++◌ as join}
use sovr_protocol.Prelude.{
  String, Bool, true, false, not, ◌&&◌, ◌||◌, [], ◌∷◌, ◌==◌, includes, if◌then◌else◌,
}
use sovr_protocol.Prelude.Value.{
  Value, undefined, arr, Items, nil, cons, get, truthy, coalesce, values, find_item, any_item,
  includes_text, is_text,
}
use sovr_protocol.Execution.EventEnforcement.{EnforcementResult, allow, refuse}

unfoldable pub enforce_capability_boundary :
    String → String → String → String → String → EnforcementResult
enforce_capability_boundary actor_id actor_type operation target_capability target_actor =
    if not (actor_type == "ai_agent" || actor_type == "agent")
    then allow "INV-004"
    else if includes ("GRANT" ∷ "REVOKE" ∷ "MODIFY" ∷ "CREATE" ∷ []) operation
    then refuse "INV-004" (
        join "INV-004 violation: AI agent " (
          join actor_id (
            join " attempted " (
              join operation
                (join " on capability " (join target_capability (join " for " target_actor)))))))
    else allow "INV-004"

-- `registered` is the set of the command names of the corpus.
unfoldable pub enforce_command : (String → Bool) → String → EnforcementResult
enforce_command registered command =
    if not (registered command)
    then refuse "INV-010" (
        join "Command \"" (
          join command
            "\" is not in the constitutional corpus. Runtime behavior outside the constitution is prohibited."))
    else allow "INV-010"

abbrev pub from_of : Value → Value
from_of t = coalesce (get t "from") (coalesce (get t "from_state") (get t "source"))

abbrev pub trigger_of : Value → Value
trigger_of t =
    coalesce (get t "trigger") (coalesce (get t "on") (coalesce (get t "command") (get t "event")))

-- `Array.isArray(from) ? from.includes(state) : from === state`
abbrev pub from_matches : Value → String → Bool
from_matches (arr xs) state = includes_text xs state
from_matches v state = is_text v state

abbrev pub trigger_matches : Value → String → Bool
trigger_matches undefined trigger = true
trigger_matches v trigger = is_text v trigger

abbrev pub is_empty : Items → Bool
is_empty nil = true
is_empty (cons _ _) = false

unfoldable pub enforce_sovereignty : Items → String → String → String → EnforcementResult
enforce_sovereignty machines aggregate from_state trigger =
    let machine = find_item (λ m. is_text (get m "aggregate") aggregate) machines in
    let transitions = values (get machine "transitions") in
    if not (truthy machine)
    then allow "INV-006"
    else if is_empty transitions
    then allow "INV-006"
    else if (from_state == "INIT")
        && not (any_item (λ t. from_matches (from_of t) "INIT") transitions)
    then allow "INV-006"
    else if any_item
        (λ t. from_matches (from_of t) from_state && trigger_matches (trigger_of t) trigger)
        transitions
    then allow "INV-006"
    else refuse "INV-006" (
        join "No compiled transition from \"" (
          join from_state (
            join "\" via \"" (
              join trigger (
                join "\" for aggregate \""
                  (join aggregate "\". The compiled state machine is sovereign."))))))
