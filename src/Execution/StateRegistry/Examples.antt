-- ===== src/Execution/StateRegistry/Examples.antt =====
-- A rebuild from two events that are out of order in the log.
use Prim.Native.String.{compare}
use sovr_protocol.Prelude.{◌≡◌, String, none, List, [], ◌∷◌, select}
use sovr_protocol.Prelude.Value.{undefined, str, obj, field, end}
use sovr_protocol.Server.EventStore.{Envelope}
use sovr_protocol.Execution.StateRegistry.{
  new_registry, transitions_of, sort_events, rebuild_from_events,
}
use sovr_protocol.Execution.StateRegistry.Laws.{state_at, history_at}
use sovr_protocol.Execution.StateRegistry.Rebuild.{last_state, moves, rebuild_from_events_at}

abbrev moved : String → String → String → Envelope
moved id at state = record {
  event_id = id;
  event_name = "vault.asset.moved";
  event_version = "v1";
  schema_version = "v1";
  aggregate = "asset";
  aggregate_id = "a1";
  source_domain = "vault";
  command_id = "c1";
  triggering_command = "vault.asset.move";
  causation_id = "corr-1";
  correlation_id = "corr-1";
  actor_id = "alice";
  identity_context = undefined;
  policy_decision_id = "p1";
  capability_id = "vault.asset.move";
  timestamp = at;
  payload = obj (field "_state_transition" (obj (field "to_state" (str state) end)) end);
  projection_effect = undefined;
  audit = undefined;
  actor_chain = undefined;
  retention_metadata = undefined;
}

abbrev log : List Envelope
log = moved "e2" "2026-01-02" "VERIFIED" ∷ moved "e1" "2026-01-01" "REGISTERED" ∷ []

rebuild_from_events_at_example :
    let ts = transitions_of (sort_events compare log) in
    let rebuilt = rebuild_from_events compare new_registry log "2026-02-01" in
    (state_at rebuilt "vault:asset:a1" ≡ last_state "vault:asset:a1" none ts)
    × (history_at rebuilt "vault:asset:a1" ≡ select (moves "vault:asset:a1") ts)
rebuild_from_events_at_example =
    rebuild_from_events_at compare new_registry log "2026-02-01" "vault:asset:a1"
