-- ===== src/Server/EventStore/Atomic.antt =====
-- The two outcomes of `appendManyAtomic` in packages/runtime/src/server/eventStore.ts.
use sovr_protocol.Prelude.{
  ◌+◌, ◌≡◌, refl, ◌⊎◌, inl, inr, Bool, false, List, [], ◌∷◌, ◌++◌, map, eq_refl, append_assoc,
  append-nil, arith, length, if◌then◌else◌,
}
use sovr_protocol.Prelude.Result.{ok, err, Result-cases}
use sovr_protocol.Server.EventStore.{
  EventStore, Envelope, AppendInput, Stamp, Disk, StoreError, make_envelope, validate_causation,
  build_envelope, commit_envelope, snapshot, restore, commit_inputs, publish, publish_all,
  append_attempt, append_many_atomic, append, persist, memory_only, writable, broken,
}

-- The invariant rule of the loop: what every committed envelope keeps, the loop keeps.
module _ {ℓ} (P : EventStore → Type ℓ)
    (keep : (s : EventStore) (stamp : Stamp) (input : AppendInput) (e : Envelope)
      → build_envelope s stamp input ≡ ok e
      → P s
      → P (commit_envelope s e)) where
  pub commit_inputs_induction :
      (s : EventStore) (is : List (Stamp × AppendInput)) (acc : List Envelope)
      → P s
      → P (commit_inputs s is acc).1
  unfolding commit_inputs
  commit_inputs_induction s [] acc h = h
  commit_inputs_induction s ((stamp, input) ∷ is) acc h =
      let rest =
        λ (e : Envelope). commit_inputs_induction (commit_envelope s e) is (acc ++ e ∷ []) in
      elim (Result-cases (build_envelope s stamp input)) [
        | inl (e, p) ↦ rw (p, commit_inputs) (rest e (keep s stamp input e p h))
        | inr (x, p) ↦ rw (p, commit_inputs) h
      ]

-- What the loop of a batch never writes.
record SameConfig (s t : EventStore) : Type 0 where
  strict : t.strict_causation ≡ s.strict_causation
  publisher : t.has_publisher ≡ s.has_publisher
  published : t.published ≡ s.published

commit_inputs-SameConfig :
    (s : EventStore) (is : List (Stamp × AppendInput)) (acc : List Envelope)
    → SameConfig s (commit_inputs s is acc).1
unfolding commit_envelope
commit_inputs-SameConfig s is acc =
    commit_inputs_induction (SameConfig s)
      (λ t stamp input e p h. record {
        strict = h.strict;
        publisher = h.publisher;
        published = h.published;
      })
      s is acc (record { strict = refl; publisher = refl; published = refl })

restore-snapshot : (s t : EventStore) → SameConfig s t → restore t (snapshot s) ≡ s
unfolding restore snapshot
restore-snapshot s t h = ground arith

-- A batch that fails, on a broken causation chain or on the disk, leaves the store as it was: the
-- log, the counter, the three indexes, and the record of published events.
pub append_many_atomic_error :
    (s : EventStore) (is : List (Stamp × AppendInput)) (throw_on_persist : Bool) (disk : Disk)
    {x : StoreError}
    → (append_many_atomic s is throw_on_persist disk).0 ≡ err x
    → (append_many_atomic s is throw_on_persist disk).1 ≡ s
unfolding append_many_atomic append_attempt
append_many_atomic_error s [] throw_on_persist disk h = refl
append_many_atomic_error s (i ∷ is) throw_on_persist disk h = ground (
  arith,
  restore-snapshot s (commit_inputs s (i ∷ is) []).1 (commit_inputs-SameConfig s (i ∷ is) []),
)

abbrev pub envelope_of : Stamp × AppendInput → Envelope
envelope_of (stamp, input) = make_envelope stamp input

pub build_envelope_cases :
    (s : EventStore) (stamp : Stamp) (input : AppendInput)
    → ((build_envelope s stamp input ≡ ok (make_envelope stamp input))
        × (validate_causation s (make_envelope stamp input) ≡ ok tt))
      ⊎ ((x : StoreError) × (build_envelope s stamp input ≡ err x))
unfolding build_envelope
build_envelope_cases s stamp input =
    ground (arith, Result-cases (validate_causation s (make_envelope stamp input)))

commit_inputs_appends :
    (s : EventStore) (is : List (Stamp × AppendInput)) (acc : List Envelope) {out : List Envelope}
    → (commit_inputs s is acc).0 ≡ ok out
    → (out ≡ acc ++ map envelope_of is)
      × ((commit_inputs s is acc).1.events ≡ s.events ++ map envelope_of is)
      × ((commit_inputs s is acc).1.sequence ≡ s.sequence + length is)
unfolding commit_inputs commit_envelope
commit_inputs_appends s [] acc h = (cc (append-nil acc), cc (append-nil s.events), ground arith)
commit_inputs_appends s ((stamp, input) ∷ is) acc {out} h =
    let e = make_envelope stamp input in
    ground (
      arith,
      build_envelope_cases s stamp input,
      commit_inputs_appends (commit_envelope s e) is (acc ++ e ∷ []) {out = out},
      append_assoc acc (e ∷ []) (map envelope_of is),
      append_assoc s.events (e ∷ []) (map envelope_of is),
    )

publish_all-published :
    (s : EventStore) (es : List Envelope)
    → (publish_all s es).published ≡ (if s.has_publisher then s.published ++ es else s.published)
unfolding publish_all
publish_all-published s [] = ground (arith, append-nil s.published)
publish_all-published s (e ∷ es) =
    ground (arith, publish_all-published (publish s e) es, append_assoc s.published (e ∷ []) es)

pub record SameLog (s t : EventStore) : Type 0 where
  pub events : t.events ≡ s.events
  pub sequence : t.sequence ≡ s.sequence
  pub causation : t.causation_graph ≡ s.causation_graph
  pub correlation : t.correlation_groups ≡ s.correlation_groups
  pub aggregate : t.aggregate_index ≡ s.aggregate_index
  pub strict : t.strict_causation ≡ s.strict_causation

pub publish_all-SameLog : (s : EventStore) (es : List Envelope) → SameLog s (publish_all s es)
unfolding publish_all
publish_all-SameLog s [] = ground arith
publish_all-SameLog s (e ∷ es) = ground (arith, publish_all-SameLog (publish s e) es)

-- A batch that succeeds returns one envelope for each input, in order, built from that input;
-- exactly these go to the end of the log, the counter grows by their number, and the publisher,
-- if there is one, is called once for each of them, in order.
pub append_many_atomic_appends :
    (s : EventStore) (is : List (Stamp × AppendInput)) (throw_on_persist : Bool) (disk : Disk)
    {es : List Envelope}
    → (append_many_atomic s is throw_on_persist disk).0 ≡ ok es
    → let t = (append_many_atomic s is throw_on_persist disk).1 in
      (es ≡ map envelope_of is)
      × (t.events ≡ s.events ++ es)
      × (t.sequence ≡ s.sequence + length is)
      × (t.published ≡ (if s.has_publisher then s.published ++ es else s.published))
unfolding append_many_atomic append_attempt
append_many_atomic_appends s [] throw_on_persist disk h =
    ground (arith, append-nil s.events, append-nil s.published)
append_many_atomic_appends s (i ∷ is) throw_on_persist disk {es} h =
    let t = (commit_inputs s (i ∷ is) []).1 in
    ground (
      arith,
      commit_inputs_appends s (i ∷ is) [] {out = es},
      publish_all-SameLog t es,
      publish_all-published t es,
      commit_inputs-SameConfig s (i ∷ is) [],
    )

-- After the method the object is as before, or the loop's with the events published.
append_many_atomic_cases :
    (s : EventStore) (is : List (Stamp × AppendInput)) (throw_on_persist : Bool) (disk : Disk)
    → ((append_many_atomic s is throw_on_persist disk).1 ≡ s)
      ⊎ ((es : List Envelope) × ((append_many_atomic s is throw_on_persist disk).1
            ≡ publish_all (commit_inputs s is []).1 es))
unfolding append_many_atomic append_attempt
append_many_atomic_cases s [] throw_on_persist disk = inl refl
append_many_atomic_cases s (i ∷ is) throw_on_persist disk = ground (
  arith,
  Result-cases (append_attempt s (i ∷ is) throw_on_persist disk).0,
  restore-snapshot s (commit_inputs s (i ∷ is) []).1 (commit_inputs-SameConfig s (i ∷ is) []),
)

-- The invariant rule of the method, for a property of the log and its indexes.
module _ {ℓ} (P : EventStore → Type ℓ)
    (keep : (s : EventStore) (stamp : Stamp) (input : AppendInput) (e : Envelope)
      → build_envelope s stamp input ≡ ok e
      → P s
      → P (commit_envelope s e))
    (same : (s t : EventStore) → SameLog s t → P s → P t) where
  pub append_many_atomic_induction :
      (s : EventStore) (is : List (Stamp × AppendInput)) (throw_on_persist : Bool) (disk : Disk)
      → P s
      → P (append_many_atomic s is throw_on_persist disk).1
  append_many_atomic_induction s is throw_on_persist disk h =
      let looped = commit_inputs_induction P keep s is [] h in
      elim (append_many_atomic_cases s is throw_on_persist disk) [
        | inl kept ↦ rw kept h
        | inr (es, done) ↦
            rw done (same (commit_inputs s is []).1 _ (publish_all-SameLog _ es) looped)
      ]

persist_optional : (disk : Disk) → persist disk false ≡ ok tt
unfolding persist
persist_optional memory_only = refl
persist_optional writable = refl
persist_optional broken = refl

-- An event that its own correlation causes is always taken, even when the disk fails.
pub append_unlinked :
    (s : EventStore) (stamp : Stamp) (input : AppendInput) (disk : Disk)
    → input.causation_id ≡ input.correlation_id
    → (append s stamp input disk).0 ≡ ok (make_envelope stamp input ∷ [])
unfolding append append_many_atomic append_attempt commit_inputs build_envelope validate_causation
    make_envelope
append_unlinked s stamp input disk same =
    ground (arith, same, eq_refl input.correlation_id, persist_optional disk)
