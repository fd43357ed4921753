-- ===== src/Execution/StateRegistry/Laws.antt =====
-- What each write of the registry does to the state and the history under every key.
use sovr_protocol.Prelude.{
  ◌≡◌, refl, String, Option, none, some, List, [], ◌∷◌, ◌++◌, arith, ◌==◌, eq_iff, drop_last,
  or_default, if◌then◌else◌,
}
use sovr_protocol.Prelude.Maps.{Map, lookup, lookup-insert, lookup-delete}
use sovr_protocol.Execution.StateRegistry.{
  StateTransition, StateRegistry, key, state_text, normalise, set_state, keep_history, pop_history,
  rollback_state,
}

-- The state under a key, and its history.
unfoldable pub state_at : StateRegistry → String → Option String
state_at r k = state_text (lookup k r.states)

unfoldable pub history_at : StateRegistry → String → List StateTransition
history_at r k = or_default (lookup k r.history) []

pub state_at-set_state :
    (r : StateRegistry) (aggregate id state : String) (domain : Option String)
    (t : Option StateTransition) (k : String)
    → state_at (set_state r aggregate id state domain t) k
      ≡ (if key aggregate id domain == k then some state else state_at r k)
unfolding state_at set_state
state_at-set_state r aggregate id state domain t k = ground (
  arith,
  lookup-insert (key aggregate id domain) k
      (record { domain = domain; aggregate = aggregate; aggregate_id = id; state = state })
      r.states,
)

pub history_at-set_state :
    (r : StateRegistry) (aggregate id state : String) (domain : Option String) (t : StateTransition)
    (k : String)
    → history_at (set_state r aggregate id state domain (some t)) k ≡ (
        if key aggregate id domain == k
        then history_at r k ++ normalise t aggregate id state domain ∷ []
        else history_at r k)
unfolding history_at set_state
history_at-set_state r aggregate id state domain t k = ground (
  arith,
  eq_iff (key aggregate id domain) k,
  lookup-insert (key aggregate id domain) k
      (or_default (lookup (key aggregate id domain) r.history) []
        ++ normalise t aggregate id state domain ∷ [])
      r.history,
)

pub history_at-set_state-none :
    (r : StateRegistry) (aggregate id state : String) (domain : Option String) (k : String)
    → history_at (set_state r aggregate id state domain none) k ≡ history_at r k
unfolding history_at set_state
history_at-set_state-none r aggregate id state domain k = refl

pub state_at-rollback_state :
    (r : StateRegistry) (aggregate id : String) (previous domain : Option String) (k : String)
    → state_at (rollback_state r aggregate id previous domain) k
      ≡ (if key aggregate id domain == k then previous else state_at r k)
unfolding state_at rollback_state
state_at-rollback_state r aggregate id none domain k =
    ground (arith, lookup-delete (key aggregate id domain) k r.states)
state_at-rollback_state r aggregate id (some s) domain k = ground (
  arith,
  lookup-insert (key aggregate id domain) k
      (record { domain = domain; aggregate = aggregate; aggregate_id = id; state = s }) r.states,
)

lookup-keep_history :
    (j k : String) (ts : List StateTransition) (h : Map (List StateTransition))
    → or_default (lookup k (keep_history j ts h)) []
      ≡ (if j == k then ts else or_default (lookup k h) [])
lookup-keep_history j k [] h = ground (arith, lookup-delete j k h)
lookup-keep_history j k (t ∷ ts) h = ground (arith, lookup-insert j k (t ∷ ts) h)

lookup-pop_history :
    (j k : String) (h : Map (List StateTransition))
    → or_default (lookup k (pop_history j h)) []
      ≡ (if j == k then drop_last (or_default (lookup k h) []) else or_default (lookup k h) [])
unfolding pop_history
lookup-pop_history j k h =
    ground (arith, eq_iff j k, lookup-keep_history j k (drop_last (or_default (lookup j h) [])) h)

pub history_at-rollback_state :
    (r : StateRegistry) (aggregate id : String) (previous domain : Option String) (k : String)
    → history_at (rollback_state r aggregate id previous domain) k
      ≡ (if key aggregate id domain == k then drop_last (history_at r k) else history_at r k)
unfolding history_at rollback_state
history_at-rollback_state r aggregate id previous domain k =
    lookup-pop_history (key aggregate id domain) k r.history
