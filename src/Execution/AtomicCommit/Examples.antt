-- ===== src/Execution/AtomicCommit/Examples.antt =====
-- Failed commits at concrete inputs: one transition for an aggregate, and two for the same one.
use sovr_protocol.Prelude.{◌≡◌, refl, String, Option, none, some, List, [], ◌∷◌}
use sovr_protocol.Prelude.Maps.{lookup}
use sovr_protocol.Prelude.Result.{Result, err}
use sovr_protocol.Prelude.Value.{undefined}
use sovr_protocol.Execution.StateRegistry.{StateTransition, new_registry}
use sovr_protocol.Execution.StateRegistry.Laws.{state_at}
use sovr_protocol.Execution.AtomicCommit.{AtomicStateUpdate, execute}
use sovr_protocol.Execution.AtomicCommit.States.{execute_restores_states}

-- An event store that refuses every batch.
abbrev refusing : Unit {0} → Result String (List String) × Unit {0}
refusing s = (err "disk full", s)

abbrev no_initial : Option String → String → Option String
no_initial domain aggregate = none

abbrev move : String → String → StateTransition
move from to = record {
  aggregate = "asset";
  aggregate_id = "a1";
  domain = some "vault";
  from_state = from;
  to_state = to;
  trigger = "vault.asset.moved";
  machine_id = undefined;
  machine_name = undefined;
  transition_name = undefined;
  command_id = "c1";
  correlation_id = "corr-1";
  event_name = "vault.asset.moved";
}

abbrev update_to : String → AtomicStateUpdate
update_to to = record {
  aggregate = "asset";
  id = "a1";
  state = to;
  domain = some "vault";
  transition = some (move "REGISTERED" to);
}

abbrev asset : String
asset = "vault:asset:a1"

execute_restores_states_example :
    let out = execute refusing no_initial new_registry tt (update_to "VERIFIED" ∷ []) in
    (out.0 ≡ err "disk full")
    × ((k : String) → state_at out.1 k ≡ state_at new_registry k)
    × (out.2 ≡ tt)
unfolding new_registry state_at lookup
execute_restores_states_example =
    execute_restores_states refusing no_initial new_registry tt (update_to "VERIFIED" ∷ [])
      (λ k e. cc) refl
