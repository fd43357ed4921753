-- ===== src/Execution/Kernel/Audits/Log.antt =====
-- What the audit events of packages/runtime/src/execution/kernel-executor.ts leave in the event store
-- of packages/runtime/src/server/eventStore.ts.
use sovr_protocol.Prelude.{
  ◌≡◌, ap, ◌∙◌, false, List, [], ◌∷◌, ◌++◌, map, All, append_assoc, append-nil,
}
use sovr_protocol.Server.EventStore.{
  EventStore, AppendInput, Stamp, Disk, make_envelope, append, append_many_atomic,
}
use sovr_protocol.Server.EventStore.Atomic.{
  envelope_of, append_unlinked, append_many_atomic_appends,
}
use sovr_protocol.Server.EventStore.Indexes.{IsIndexed, append_many_atomic-IsIndexed}
use sovr_protocol.Server.EventStore.Causation.{IsCausal, append_many_atomic-IsCausal}
use sovr_protocol.Execution.Kernel.Audits.{append_each}

-- Every event that its own correlation causes is logged, in order, whatever the disk does.
pub append_each_appends :
    (disk : Disk) (is : List (Stamp × AppendInput)) (s : EventStore)
    → All (λ i. i.1.causation_id ≡ i.1.correlation_id) is
    → (append_each disk is s).events ≡ s.events ++ map envelope_of is
unfolding append_each append
append_each_appends disk [] s h = cc (append-nil s.events)
append_each_appends disk ((stamp, input) ∷ is) s h =
    let one = (stamp, input) ∷ [] in
    let taken = append_unlinked s stamp input disk h.0 in
    let (same, log, count, published) = append_many_atomic_appends s one false disk taken in
    append_each_appends disk is (append_many_atomic s one false disk).1 h.1
    ∙ ap (λ es. es ++ map envelope_of is) log
    ∙ append_assoc s.events (make_envelope stamp input ∷ []) (map envelope_of is)

pub append_each-IsIndexed :
    (disk : Disk) (is : List (Stamp × AppendInput)) (s : EventStore)
    → IsIndexed s
    → IsIndexed (append_each disk is s)
unfolding append_each append
append_each-IsIndexed disk [] s h = h
append_each-IsIndexed disk ((stamp, input) ∷ is) s h =
    append_each-IsIndexed disk is (append s stamp input disk).1
      (append_many_atomic-IsIndexed s ((stamp, input) ∷ []) false disk h)

pub append_each-IsCausal :
    (disk : Disk) (is : List (Stamp × AppendInput)) (s : EventStore)
    → IsCausal s
    → IsCausal (append_each disk is s)
unfolding append_each append
append_each-IsCausal disk [] s h = h
append_each-IsCausal disk ((stamp, input) ∷ is) s h =
    append_each-IsCausal disk is (append s stamp input disk).1
      (append_many_atomic-IsCausal s ((stamp, input) ∷ []) false disk h)
