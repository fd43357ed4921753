-- ===== src/Execution/StateRegistry.antt =====
-- packages/runtime/src/execution/state-registry.ts, with the in-memory maps (no PostgreSQL pool):
-- the current state of each aggregate, and the transitions that led there.
pub mod Laws
pub mod Rebuild
mod Examples
use Prim.Native.Nat.{Ordering}
use Prim.Native.String.{◌++◌ as join}
use sovr_protocol.Prelude.{
  ℕ, ◌+◌, String, Bool, true, false, not, ◌&&◌, Option, none, some, List, [], ◌∷◌, ◌++◌, ◌==◌,
  length, drop_last, or_default, if◌then◌else◌,
}
use sovr_protocol.Prelude.Maps.{Map, lookup, insert, delete, has}
use sovr_protocol.Prelude.Value.{
  Value, undefined, str, arr, Items, nil, cons, get, truthy, coalesce,
}
use sovr_protocol.Prelude.Text.{text_of}
use sovr_protocol.Server.EventStore.{Envelope}

pub record StateTransition : Type 0 where
  pub aggregate : String
  pub aggregate_id : String
  pub domain : Option String
  pub from_state : String
  pub to_state : String
  pub trigger : String
  pub machine_id : Value
  pub machine_name : Value
  pub transition_name : Value
  pub command_id : String
  pub correlation_id : String
  pub event_name : String

pub record StateRecord : Type 0 where
  pub domain : Option String
  pub aggregate : String
  pub aggregate_id : String
  pub state : String

pub record RebuildResult : Type 0 where
  pub rebuilt : Bool
  pub aggregates_restored : ℕ
  pub events_processed : ℕ
  pub transitions_applied : ℕ
  pub timestamp : String

pub record StateRegistry : Type 0 where
  pub states : Map StateRecord
  pub history : Map (List StateTransition)
  pub rebuilt : Bool
  pub rebuild_timestamp : Option String
  pub last_rebuild_result : Option RebuildResult

unfoldable pub new_registry : StateRegistry
new_registry = record {
  states = [];
  history = [];
  rebuilt = false;
  rebuild_timestamp = none;
  last_rebuild_result = none;
}

-- `${domain ?? '*'}:${aggregate}:${id}`
unfoldable pub key : String → String → Option String → String
key aggregate id domain = join (or_default domain "*") (join ":" (join aggregate (join ":" id)))

unfoldable pub has_state : StateRegistry → String → String → Option String → Bool
has_state r aggregate id domain = has (key aggregate id domain) r.states

-- The text that is there and not empty.
abbrev pub non_empty : Option String → Option String
non_empty none = none
non_empty (some s) = if s == "" then none else some s

-- `states.get(key)?.state`
abbrev pub state_text : Option StateRecord → Option String
state_text none = none
state_text (some x) = some x.state

-- `resolver` is the constructor's `initialStateResolver`; one that is absent answers `none`.
unfoldable pub get_state :
    (Option String → String → Option String)
    → StateRegistry
    → String
    → String
    → Option String
    → String
get_state resolver r aggregate id domain =
    elim (non_empty (state_text (lookup (key aggregate id domain) r.states))) [
      | some s ↦ s
      | none ↦ elim (non_empty (resolver domain aggregate)) [ some s ↦ s | none ↦ "INIT" ]
    ]

abbrev pub normalise : StateTransition → String → String → String → Option String → StateTransition
normalise t aggregate id state domain = record t {
  domain = domain;
  aggregate = aggregate;
  aggregate_id = id;
  to_state = state;
}

abbrev pub push_history :
    String → StateTransition → Map (List StateTransition) → Map (List StateTransition)
push_history k t h = insert k (or_default (lookup k h) [] ++ t ∷ []) h

unfoldable pub set_state :
    StateRegistry
    → String
    → String
    → String
    → Option String
    → Option StateTransition
    → StateRegistry
set_state r aggregate id state domain transition =
    let k = key aggregate id domain in
    let written =
      insert k (record { domain = domain; aggregate = aggregate; aggregate_id = id; state = state })
        r.states in
    elim transition [
      | none ↦ record r { states = written }
      | some t ↦ record r {
        states = written;
        history = push_history k (normalise t aggregate id state domain) r.history;
      }
    ]

unfoldable pub record_transition : StateRegistry → StateTransition → StateRegistry
unfolding set_state
record_transition r t = set_state r t.aggregate t.aggregate_id t.to_state t.domain (some t)

-- `if (h.length === 0) history.delete(k) else history.set(k, h)`
abbrev pub keep_history :
    String → List StateTransition → Map (List StateTransition) → Map (List StateTransition)
keep_history k [] h = delete k h
keep_history k (t ∷ ts) h = insert k (t ∷ ts) h

-- `h.pop()`, and the entry goes when nothing is left in it.
unfoldable pub pop_history : String → Map (List StateTransition) → Map (List StateTransition)
pop_history k h = keep_history k (drop_last (or_default (lookup k h) [])) h

unfoldable pub rollback_state :
    StateRegistry → String → String → Option String → Option String → StateRegistry
rollback_state r aggregate id previous domain =
    let k = key aggregate id domain in
    record r {
      states = elim previous [
        | none ↦ delete k r.states
        | some s ↦
            insert k
              (record { domain = domain; aggregate = aggregate; aggregate_id = id; state = s })
              r.states
      ];
      history = pop_history k r.history;
    }

unfoldable pub get_history : StateRegistry → String → String → Option String → List StateTransition
get_history r aggregate id domain = or_default (lookup (key aggregate id domain) r.history) []

unfoldable pub clear : StateRegistry → StateRegistry
clear r = record r { states = []; history = [] }

-- The transitions that an event carries, as `resolveTransitionsFromEvent` reads them. The fields that stay optional are kept
-- as the payload has them.
unfoldable pub transition_from : Envelope → Value → StateTransition
unfolding coalesce get text_of
transition_from e t = record {
  aggregate = text_of (coalesce (get t "aggregate") (str e.aggregate));
  aggregate_id =
      text_of
        (coalesce (get t "aggregate_id") (coalesce (get t "aggregateId") (str e.aggregate_id)));
  domain = some (text_of (coalesce (get t "domain") (str e.source_domain)));
  from_state =
      text_of (coalesce (get t "from_state") (coalesce (get t "fromState") (str "UNKNOWN")));
  to_state = text_of (coalesce (get t "to_state") (get t "toState"));
  trigger = text_of (coalesce (get t "trigger") (str e.event_name));
  machine_id = coalesce (get t "machine_id") (get t "machineId");
  machine_name = coalesce (get t "machine_name") (get t "machineName");
  transition_name = coalesce (get t "transition_name") (get t "transitionName");
  command_id = e.command_id;
  correlation_id = e.correlation_id;
  event_name = e.event_name;
}

unfoldable pub transitions_from : Envelope → Items → List StateTransition
unfolding transition_from truthy
transitions_from e nil = []
transitions_from e (cons t ts) =
    let rest = transitions_from e ts in
    if not (truthy (get t "to_state")) && not (truthy (get t "toState"))
    then rest
    else transition_from e t ∷ rest

-- `Array.isArray(raw) ? raw : raw ? [raw] : []`
abbrev pub as_list : Value → Items
as_list (arr xs) = xs
as_list v = if truthy v then cons v nil else nil

unfoldable pub resolve_transitions_from_event : Envelope → List StateTransition
unfolding transitions_from
resolve_transitions_from_event e = transitions_from e (
    as_list (
      coalesce (get e.payload "_state_transitions") (
        coalesce (get e.payload "state_transitions")
          (coalesce (get e.payload "_state_transition") (get e.payload "state_transition")))))

-- One round of the inner loop.
unfoldable pub apply_transition : StateRegistry → StateTransition → StateRegistry
apply_transition r t =
    let k = key t.aggregate t.aggregate_id t.domain in
    record r {
      states =
          insert k
            (record {
              domain = t.domain;
              aggregate = t.aggregate;
              aggregate_id = t.aggregate_id;
              state = t.to_state;
            })
            r.states;
      history = push_history k t r.history;
    }

unfoldable pub apply_transitions : StateRegistry → List StateTransition → StateRegistry
apply_transitions r [] = r
apply_transitions r (t ∷ ts) = apply_transitions (apply_transition r t) ts

unfoldable pub transitions_of : List Envelope → List StateTransition
transitions_of [] = []
transitions_of (e ∷ es) = resolve_transitions_from_event e ++ transitions_of es

-- The order of `sort`: by timestamp, then by identifier, each by `localeCompare`, which is a
-- parameter. Equal events keep their places.
module _ (locale_compare : String → String → Ordering) where
  abbrev pub after : Envelope → Envelope → Bool
  after a b = elim (locale_compare a.timestamp b.timestamp) [
    | Ordering.gt ↦ true
    | Ordering.lt ↦ false
    | Ordering.eq ↦ elim (locale_compare a.event_id b.event_id) [ Ordering.gt ↦ true | _ ↦ false ]
  ]

  unfoldable pub insert_event : Envelope → List Envelope → List Envelope
  insert_event e [] = e ∷ []
  insert_event e (x ∷ xs) = if after e x then x ∷ insert_event e xs else e ∷ x ∷ xs

  unfoldable pub sort_events : List Envelope → List Envelope
  unfolding insert_event
  sort_events [] = []
  sort_events (e ∷ es) = insert_event e (sort_events es)

  unfoldable pub rebuild_from_events : StateRegistry → List Envelope → String → StateRegistry
  unfolding clear
  rebuild_from_events r events now =
      let sorted = sort_events events in
      let transitions = transitions_of sorted in
      let applied = apply_transitions (clear r) transitions in
      record applied {
        rebuilt = true;
        rebuild_timestamp = some now;
        last_rebuild_result = some (record {
          rebuilt = true;
          aggregates_restored = length applied.states;
          events_processed = length sorted;
          transitions_applied = length transitions;
          timestamp = now;
        });
      }
