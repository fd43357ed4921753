-- ===== src/Server/EventStore/Indexes.antt =====
-- The three indexes of packages/runtime/src/server/eventStore.ts, beside the log itself.
use sovr_protocol.Prelude.{
  ◌≡◌, refl, String, Bool, List, [], ◌∷◌, ◌++◌, map, arith, ◌==◌, length, length-append, select,
  select-append, or_default, if◌then◌else◌, append-nil, eq_iff, sym,
}
use mathlib.Core.List.{map-append}
use sovr_protocol.Prelude.Maps.{Map, lookup, lookup-insert}
use sovr_protocol.Server.EventStore.{
  EventStore, Envelope, AppendInput, Stamp, Disk, aggregate_key, push_at, commit_envelope,
  append_many_atomic, empty_store,
}
use sovr_protocol.Server.EventStore.Atomic.{append_many_atomic_induction, SameLog}

abbrev pub on_aggregate : String → Envelope → Bool
on_aggregate k e = aggregate_key e.aggregate e.aggregate_id == k

abbrev pub on_correlation : String → Envelope → Bool
on_correlation k e = e.correlation_id == k

abbrev pub on_causation : String → Envelope → Bool
on_causation k e = e.causation_id == k

abbrev pub ids : List Envelope → List String
ids = map (λ e. e.event_id)

pub record IsIndexed (s : EventStore) : Type 0 where
  pub counted : s.sequence ≡ length s.events
  pub aggregates :
      (k : String) → or_default (lookup k s.aggregate_index) [] ≡ select (on_aggregate k) s.events
  pub correlations :
      (k : String)
      → or_default (lookup k s.correlation_groups) [] ≡ select (on_correlation k) s.events
  pub causations :
      (k : String)
      → or_default (lookup k s.causation_graph) [] ≡ ids (select (on_causation k) s.events)

select-snoc :
    (p : Envelope → Bool) (es : List Envelope) (e : Envelope)
    → select p (es ++ e ∷ []) ≡ (if p e then select p es ++ e ∷ [] else select p es)
unfolding select
select-snoc p es e = ground (arith, select-append p es (e ∷ []), append-nil (select p es))

ids-snoc : (es : List Envelope) (e : Envelope) → ids (es ++ e ∷ []) ≡ ids es ++ e.event_id ∷ []
ids-snoc es e = map-append (λ (x : Envelope). x.event_id) es (e ∷ [])

lookup-push_at :
    {A : Type 0} (m : Map (List A)) (j k : String) (a : A)
    → or_default (lookup k (push_at j a m)) []
      ≡ (if j == k then or_default (lookup k m) [] ++ a ∷ [] else or_default (lookup k m) [])
unfolding push_at
lookup-push_at m j k a =
    ground (arith, lookup-insert j k (or_default (lookup j m) [] ++ a ∷ []) m, eq_iff j k)

commit_envelope-IsIndexed :
    (s : EventStore) (e : Envelope) → IsIndexed s → IsIndexed (commit_envelope s e)
unfolding commit_envelope
commit_envelope-IsIndexed s e h = record {
  counted = omega (arith, h.counted, length-append s.events (e ∷ []));
  aggregates = λ k.
      let j = aggregate_key e.aggregate e.aggregate_id in
      rw (lookup-push_at s.aggregate_index j k e, h.aggregates k)
        (sym (select-snoc (on_aggregate k) s.events e));
  correlations = λ k.
      rw (lookup-push_at s.correlation_groups e.correlation_id k e, h.correlations k)
        (sym (select-snoc (on_correlation k) s.events e));
  causations = λ k. ground (
    arith,
    lookup-push_at s.causation_graph e.causation_id k e.event_id,
    h.causations k,
    select-snoc (on_causation k) s.events e,
    ids-snoc (select (on_causation k) s.events) e,
  );
}

pub empty_store-IsIndexed : (strict publisher : Bool) → IsIndexed (empty_store strict publisher)
unfolding empty_store
empty_store-IsIndexed strict publisher =
    unfold lookup select in
    record {
      counted = refl;
      aggregates = λ k. refl;
      correlations = λ k. refl;
      causations = λ k. refl;
    }

SameLog-IsIndexed : {s t : EventStore} → SameLog s t → IsIndexed s → IsIndexed t
SameLog-IsIndexed l h = record {
  counted = rw (l.events, l.sequence) h.counted;
  aggregates = λ k. rw (l.events, l.aggregate) (h.aggregates k);
  correlations = λ k. rw (l.events, l.correlation) (h.correlations k);
  causations = λ k. rw (l.events, l.causation) (h.causations k);
}

-- Whatever the batch, and whether it succeeds or fails, `appendManyAtomic` keeps the counter and
-- the three indexes in step with the log.
pub append_many_atomic-IsIndexed :
    (s : EventStore) (is : List (Stamp × AppendInput)) (throw_on_persist : Bool) (disk : Disk)
    → IsIndexed s
    → IsIndexed (append_many_atomic s is throw_on_persist disk).1
append_many_atomic-IsIndexed =
    append_many_atomic_induction IsIndexed (λ s stamp input e p. commit_envelope-IsIndexed s e)
      (λ s t. SameLog-IsIndexed)
