-- ===== src/Server/EventStore.antt =====
-- packages/runtime/src/server/eventStore.ts: the append-only event log and its three indexes. A
-- method that changes the object returns the new record. Identifiers and timestamps come from the
-- generators that the constructor takes, so each input is given with its own `Stamp`.
pub mod Atomic
pub mod Indexes
pub mod Causation
mod Examples
use sovr_protocol.Prelude.{
  ℕ, ◌+◌, String, Bool, true, false, not, ◌&&◌, ◌||◌, Option, none, some, List, [], ◌∷◌, ◌++◌, ◌==◌,
  length, any, select, find_first, or_default, ltb, if◌then◌else◌,
}
use Prim.Native.String.{◌++◌ as join}
use sovr_protocol.Prelude.Maps.{Map, lookup, insert}
use sovr_protocol.Prelude.Result.{Result, ok, err}
use sovr_protocol.Prelude.Value.{
  Value, str, bool, arr, obj, nil, cons, field, end, get, truthy, coalesce, or_else,
}

pub record Envelope : Type 0 where
  pub event_id : String
  pub event_name : String
  pub event_version : String
  pub schema_version : String
  pub aggregate : String
  pub aggregate_id : String
  pub source_domain : String
  pub command_id : String
  pub triggering_command : String
  pub causation_id : String
  pub correlation_id : String
  pub actor_id : String
  pub identity_context : Value
  pub policy_decision_id : String
  pub capability_id : String
  pub timestamp : String
  pub payload : Value
  pub projection_effect : Value
  pub audit : Value
  pub actor_chain : Value
  pub retention_metadata : Value

pub record AppendInput : Type 0 where
  pub event_name : String
  pub aggregate : String
  pub aggregate_id : String
  pub source_domain : String
  pub command_id : String
  pub triggering_command : String
  pub causation_id : String
  pub correlation_id : String
  pub actor_id : String
  pub identity_context : Value
  pub policy_decision_id : String
  pub capability_id : String
  pub payload : Value
  pub projection_effect : Value
  pub audit : Value
  pub event_version : Option String

pub record EventStore : Type 0 where
  pub events : List Envelope
  pub sequence : ℕ
  pub causation_graph : Map (List String)
  pub correlation_groups : Map (List Envelope)
  pub aggregate_index : Map (List Envelope)
  pub strict_causation : Bool
  pub has_publisher : Bool
  -- what the publisher was called with, in order
  pub published : List Envelope

pub data StoreError : Type 0 where
  -- CAUSATION_BROKEN: the missing parent, the event's name, the correlation
  causation_broken : String → String → String → StoreError
  persist_failed : StoreError

pub record Stamp : Type 0 where
  pub event_id : String
  pub timestamp : String

-- No persistence path, or a file that takes the write, or one that does not.
pub data Disk : Type 0 where
  memory_only writable broken : Disk

-- `new EventStore(undefined, { strictCausation })`
unfoldable pub empty_store : Bool → Bool → EventStore
empty_store strict publisher = record {
  events = [];
  sequence = 0;
  causation_graph = [];
  correlation_groups = [];
  aggregate_index = [];
  strict_causation = strict;
  has_publisher = publisher;
  published = [];
}

abbrev or_version : Option String → String
or_version none = "1.0.0"
or_version (some v) = if v == "" then "1.0.0" else v

abbrev no_op_effect : Value
no_op_effect = obj (field "target" (str "none") (field "operation" (str "no_op") end))

abbrev default_audit : Value
default_audit = obj (
    field "constitutional_rules_referenced" (arr (cons (str "INV-001") (cons (str "INV-005") nil)))
      (field "retention_class" (str "permanent") end))

abbrev is_text : Value → String → Bool
is_text (str s) t = s == t
is_text _ t = false

unfoldable pub make_envelope : Stamp → AppendInput → Envelope
unfolding get coalesce or_else truthy
make_envelope stamp input = record {
  event_id = stamp.event_id;
  event_name = input.event_name;
  event_version = or_version input.event_version;
  schema_version = "1.0.0";
  aggregate = input.aggregate;
  aggregate_id = input.aggregate_id;
  source_domain = input.source_domain;
  command_id = input.command_id;
  triggering_command = input.triggering_command;
  causation_id = input.causation_id;
  correlation_id = input.correlation_id;
  actor_id = input.actor_id;
  identity_context = input.identity_context;
  policy_decision_id = input.policy_decision_id;
  capability_id = input.capability_id;
  timestamp = stamp.timestamp;
  payload = input.payload;
  projection_effect = or_else input.projection_effect no_op_effect;
  audit = or_else input.audit default_audit;
  actor_chain = coalesce (get input.identity_context "delegation_chain") (arr nil);
  retention_metadata =
      obj (field "legal_hold" (bool (is_text (get input.audit "retention_class") "permanent")) end);
}

-- `e.event_id === parent || e.command_id === parent`
abbrev pub is_parent : String → Envelope → Bool
is_parent parent e = e.event_id == parent || e.command_id == parent

unfoldable pub validate_causation : EventStore → Envelope → Result StoreError (Unit {0})
validate_causation s e =
    if not (e.causation_id == "") && not (e.causation_id == e.correlation_id)
    then (if not (any (is_parent e.causation_id) s.events) && ltb 0 (length s.events)
        then (if s.strict_causation
            then err (causation_broken e.causation_id e.event_name e.correlation_id)
            else ok tt)
        else ok tt)
    else ok tt

unfoldable pub build_envelope : EventStore → Stamp → AppendInput → Result StoreError Envelope
build_envelope s stamp input =
    let e = make_envelope stamp input in
    elim (validate_causation s e) [ ok _ ↦ ok e | err x ↦ err x ]

-- `if (!m.has(k)) m.set(k, []); m.get(k)!.push(v)`
unfoldable pub push_at : {V : Type 0} → String → V → Map (List V) → Map (List V)
push_at k v m = insert k (or_default (lookup k m) [] ++ v ∷ []) m

abbrev pub aggregate_key : String → String → String
aggregate_key aggregate aggregate_id = join aggregate (join ":" aggregate_id)

unfoldable pub commit_envelope : EventStore → Envelope → EventStore
commit_envelope s e = record s {
  sequence = s.sequence + 1;
  events = s.events ++ e ∷ [];
  aggregate_index = push_at (aggregate_key e.aggregate e.aggregate_id) e s.aggregate_index;
  correlation_groups = push_at e.correlation_id e s.correlation_groups;
  causation_graph = push_at e.causation_id e.event_id s.causation_graph;
}

pub record Snapshot : Type 0 where
  pub events : List Envelope
  pub sequence : ℕ
  pub causation_graph : Map (List String)
  pub correlation_groups : Map (List Envelope)
  pub aggregate_index : Map (List Envelope)

unfoldable pub snapshot : EventStore → Snapshot
snapshot s = record {
  events = s.events;
  sequence = s.sequence;
  causation_graph = s.causation_graph;
  correlation_groups = s.correlation_groups;
  aggregate_index = s.aggregate_index;
}

unfoldable pub restore : EventStore → Snapshot → EventStore
restore s saved = record s {
  events = saved.events;
  sequence = saved.sequence;
  causation_graph = saved.causation_graph;
  correlation_groups = saved.correlation_groups;
  aggregate_index = saved.aggregate_index;
}

-- The loop of `appendManyAtomic`. An error keeps what the earlier rounds have written.
unfoldable pub commit_inputs :
    EventStore
    → List (Stamp × AppendInput)
    → List Envelope
    → Result StoreError (List Envelope) × EventStore
commit_inputs s [] envelopes = (ok envelopes, s)
commit_inputs s ((stamp, input) ∷ rest) envelopes = elim (build_envelope s stamp input) [
  | ok e ↦ commit_inputs (commit_envelope s e) rest (envelopes ++ e ∷ [])
  | err x ↦ (err x, s)
]

unfoldable pub persist : Disk → Bool → Result StoreError (Unit {0})
persist broken true = err persist_failed
persist _ _ = ok tt

unfoldable pub publish : EventStore → Envelope → EventStore
publish s e = if s.has_publisher then record s { published = s.published ++ e ∷ [] } else s

unfoldable pub publish_all : EventStore → List Envelope → EventStore
unfolding publish
publish_all s [] = s
publish_all s (e ∷ es) = publish_all (publish s e) es

-- The `try` block: the loop, then the write to disk.
unfoldable pub append_attempt :
    EventStore
    → List (Stamp × AppendInput)
    → Bool
    → Disk
    → Result StoreError (List Envelope) × EventStore
append_attempt s inputs throw_on_persist disk =
    let (r, s') = commit_inputs s inputs [] in
    (
      elim r [
        | ok es ↦ elim (persist disk throw_on_persist) [ ok _ ↦ ok es | err x ↦ err x ]
        | err x ↦ err x
      ],
      s',
    )

abbrev finish_append :
    Snapshot
    → Result StoreError (List Envelope)
    → EventStore
    → Result StoreError (List Envelope) × EventStore
finish_append saved (ok es) s = (ok es, publish_all s es)
finish_append saved (err x) s = (err x, restore s saved)

unfoldable pub append_many_atomic :
    EventStore
    → List (Stamp × AppendInput)
    → Bool
    → Disk
    → Result StoreError (List Envelope) × EventStore
append_many_atomic s [] throw_on_persist disk = (ok [], s)
append_many_atomic s (i ∷ is) throw_on_persist disk =
    let (r, s') = append_attempt s (i ∷ is) throw_on_persist disk in finish_append (snapshot s) r s'

-- `append(input)`
unfoldable pub append :
    EventStore → Stamp → AppendInput → Disk → Result StoreError (List Envelope) × EventStore
append s stamp input disk = append_many_atomic s ((stamp, input) ∷ []) false disk

unfoldable pub get_by_id : EventStore → String → Option Envelope
get_by_id s id = find_first (λ e. e.event_id == id) s.events

unfoldable pub get_by_aggregate : EventStore → String → String → List Envelope
get_by_aggregate s aggregate id =
    or_default (lookup (aggregate_key aggregate id) s.aggregate_index) []

unfoldable pub get_by_correlation : EventStore → String → List Envelope
get_by_correlation s correlation = or_default (lookup correlation s.correlation_groups) []

unfoldable pub get_by_command : EventStore → String → List Envelope
get_by_command s command = select (λ e. e.command_id == command) s.events
