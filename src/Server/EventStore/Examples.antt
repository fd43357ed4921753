-- ===== src/Server/EventStore/Examples.antt =====
-- Runs of the event store at concrete inputs, and its theorems there.
use sovr_protocol.Prelude.{
  ◌≡◌, refl, String, true, none, List, [], ◌∷◌, ◌++◌, map, ◌+◌, if◌then◌else◌, length, any,
}
use sovr_protocol.Prelude.Result.{ok, err}
use sovr_protocol.Prelude.Value.{undefined}
use sovr_protocol.Server.EventStore.{
  EventStore, AppendInput, Stamp, memory_only, causation_broken, empty_store, make_envelope,
  validate_causation, build_envelope, commit_envelope, commit_inputs, persist, append_attempt,
  append_many_atomic,
}
use sovr_protocol.Server.EventStore.Atomic.{
  envelope_of, append_many_atomic_error, append_many_atomic_appends,
}
use sovr_protocol.Server.EventStore.Indexes.{
  IsIndexed, empty_store-IsIndexed, append_many_atomic-IsIndexed,
}
use sovr_protocol.Server.EventStore.Causation.{IsCausal, append_many_atomic-IsCausal}

abbrev posted : String → String → AppendInput
posted command cause = record {
  event_name = "ledger.entry.posted";
  aggregate = "journal";
  aggregate_id = "j1";
  source_domain = "ledger";
  command_id = command;
  triggering_command = "ledger.entry.post";
  causation_id = cause;
  correlation_id = "corr-1";
  actor_id = "alice";
  identity_context = undefined;
  policy_decision_id = "p1";
  capability_id = "ledger.entry.post";
  payload = undefined;
  projection_effect = undefined;
  audit = undefined;
  event_version = none;
}

abbrev stamp : String → Stamp
stamp id = record { event_id = id; timestamp = "2026-01-01T00:00:00.000Z" }

-- Two events in one batch, the second caused by the command of the first.
abbrev batch : List (Stamp × AppendInput)
batch = (stamp "e1", posted "c1" "corr-1") ∷ (stamp "e2", posted "c2" "c1") ∷ []

-- A batch whose second event names a cause that nobody has written.
abbrev orphan : List (Stamp × AppendInput)
orphan = (stamp "e1", posted "c1" "corr-1") ∷ (stamp "e2", posted "c2" "nobody") ∷ []

abbrev fresh : EventStore
fresh = empty_store true true

abbrev written : EventStore
written = (append_many_atomic fresh batch true memory_only).1

batch_accepted : (append_many_atomic fresh batch true memory_only).0 ≡ ok (map envelope_of batch)
unfolding append_many_atomic append_attempt commit_inputs build_envelope validate_causation
    commit_envelope persist empty_store make_envelope any
batch_accepted = refl

orphan_refused :
    (append_many_atomic fresh orphan true memory_only).0
    ≡ err (causation_broken "nobody" "ledger.entry.posted" "corr-1")
unfolding append_many_atomic append_attempt commit_inputs build_envelope validate_causation
    commit_envelope persist empty_store make_envelope any
orphan_refused = refl

append_many_atomic_error_example : (append_many_atomic fresh orphan true memory_only).1 ≡ fresh
append_many_atomic_error_example =
    append_many_atomic_error fresh orphan true memory_only orphan_refused

append_many_atomic_appends_example :
    let t = written in
    (map envelope_of batch ≡ map envelope_of batch)
    × (t.events ≡ fresh.events ++ map envelope_of batch)
    × (t.sequence ≡ fresh.sequence + length batch)
    × (t.published ≡ (
        if fresh.has_publisher then fresh.published ++ map envelope_of batch else fresh.published))
append_many_atomic_appends_example =
    append_many_atomic_appends fresh batch true memory_only batch_accepted

append_many_atomic-IsIndexed_example : IsIndexed written
append_many_atomic-IsIndexed_example =
    append_many_atomic-IsIndexed fresh batch true memory_only (empty_store-IsIndexed true true)

append_many_atomic-IsCausal_example : IsCausal written
unfolding empty_store
append_many_atomic-IsCausal_example =
    append_many_atomic-IsCausal fresh batch true memory_only (record { strict = refl; caused = tt })
