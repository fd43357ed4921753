-- ===== src/Execution/StateRegistry/Rebuild.antt =====
-- `rebuildFromEvents` of packages/runtime/src/execution/state-registry.ts, key by key.
use Prim.Native.Nat.{Ordering}
use sovr_protocol.Prelude.{
  ◌≡◌, refl, String, Bool, Option, none, some, List, [], ◌∷◌, ◌++◌, append_assoc, append-nil, arith,
  ◌==◌, eq_iff, select, or_default, if◌then◌else◌,
}
use sovr_protocol.Prelude.Maps.{lookup, lookup-insert}
use sovr_protocol.Server.EventStore.{Envelope}
use sovr_protocol.Execution.StateRegistry.{
  StateTransition, StateRegistry, key, clear, apply_transition, apply_transitions, transitions_of,
  sort_events, rebuild_from_events,
}
use sovr_protocol.Execution.StateRegistry.Laws.{state_at, history_at}

abbrev pub moves : String → StateTransition → Bool
moves k t = key t.aggregate t.aggregate_id t.domain == k

-- Where the transitions of a list that are about a key lead, from the state `s`.
unfoldable pub last_state : String → Option String → List StateTransition → Option String
last_state k s [] = s
last_state k s (t ∷ ts) = last_state k (if moves k t then some t.to_state else s) ts

apply_transition-at :
    (r : StateRegistry) (t : StateTransition) (k : String)
    → (state_at (apply_transition r t) k ≡ (if moves k t then some t.to_state else state_at r k))
      × (history_at (apply_transition r t) k
          ≡ (if moves k t then history_at r k ++ t ∷ [] else history_at r k))
unfolding apply_transition state_at history_at
apply_transition-at r t k =
    let j = key t.aggregate t.aggregate_id t.domain in
    ground (
      arith,
      eq_iff j k,
      lookup-insert j k
          (record {
            domain = t.domain;
            aggregate = t.aggregate;
            aggregate_id = t.aggregate_id;
            state = t.to_state;
          })
          r.states,
      lookup-insert j k (or_default (lookup j r.history) [] ++ t ∷ []) r.history,
    )

apply_transitions-at :
    (r : StateRegistry) (ts : List StateTransition) (k : String)
    → (state_at (apply_transitions r ts) k ≡ last_state k (state_at r k) ts)
      × (history_at (apply_transitions r ts) k ≡ history_at r k ++ select (moves k) ts)
unfolding apply_transitions last_state select
apply_transitions-at r [] k = (refl, ground (arith, append-nil (history_at r k)))
apply_transitions-at r (t ∷ ts) k = ground (
  arith,
  apply_transitions-at (apply_transition r t) ts k,
  apply_transition-at r t k,
  append_assoc (history_at r k) (t ∷ []) (select (moves k) ts),
)

module _ (locale_compare : String → String → Ordering) where
  -- Whatever was in the registry before, after a rebuild each key has the state to which the last
  -- transition about it leads, in the order of the sorted events, and none where no event has one;
  -- its history is those transitions, in that order.
  pub rebuild_from_events_at :
      (r : StateRegistry) (events : List Envelope) (now : String) (k : String)
      → let ts = transitions_of (sort_events locale_compare events) in
        let rebuilt = rebuild_from_events locale_compare r events now in
        (state_at rebuilt k ≡ last_state k none ts) × (history_at rebuilt k ≡ select (moves k) ts)
  unfolding rebuild_from_events state_at history_at lookup
  rebuild_from_events_at r events now k =
      apply_transitions-at (clear r) (transitions_of (sort_events locale_compare events)) k
