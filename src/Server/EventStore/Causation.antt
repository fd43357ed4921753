-- ===== src/Server/EventStore/Causation.antt =====
-- The causation check of packages/runtime/src/server/eventStore.ts, over the whole log.
use sovr_protocol.Prelude.{
  ◌≡◌, ◌⊎◌, Bool, true, List, [], ◌∷◌, ◌++◌, append_assoc, append-nil, arith, eq_iff, any,
}
use sovr_protocol.Prelude.Result.{ok}
use sovr_protocol.Server.EventStore.{
  EventStore, Envelope, AppendInput, Stamp, Disk, is_parent, validate_causation, build_envelope,
  commit_envelope, append_many_atomic,
}
use sovr_protocol.Server.EventStore.Atomic.{build_envelope_cases, append_many_atomic_induction}

-- What may stand behind the events `earlier`: a root (no cause, or its correlation for a cause),
-- the first event of the log, or an event whose cause is the identifier or the command of an
-- earlier one.
abbrev pub IsCaused : List Envelope → Envelope → Type 0
IsCaused earlier e =
    (e.causation_id ≡ "")
    ⊎ (e.causation_id ≡ e.correlation_id)
    ⊎ (earlier ≡ [])
    ⊎ (any (is_parent e.causation_id) earlier ≡ true)

-- Every event of the second list is caused by what stands before it.
abbrev pub AllCaused : List Envelope → List Envelope → Type 0
AllCaused earlier [] = Unit {0}
AllCaused earlier (e ∷ es) = IsCaused earlier e × AllCaused (earlier ++ e ∷ []) es

AllCaused-snoc :
    (earlier es : List Envelope) (e : Envelope)
    → AllCaused earlier es
    → IsCaused (earlier ++ es) e
    → AllCaused earlier (es ++ e ∷ [])
AllCaused-snoc earlier [] e h c = (rw (append-nil earlier) at c, tt)
AllCaused-snoc earlier (x ∷ es) e h c =
    (h.0, AllCaused-snoc (earlier ++ x ∷ []) es e h.1 (rw append_assoc c))

validate_causation-IsCaused :
    (s : EventStore) (e : Envelope)
    → s.strict_causation ≡ true
    → validate_causation s e ≡ ok tt
    → IsCaused s.events e
unfolding validate_causation
validate_causation-IsCaused s e strict h =
    ground (arith, eq_iff e.causation_id "", eq_iff e.causation_id e.correlation_id)

pub record IsCausal (s : EventStore) : Type 0 where
  pub strict : s.strict_causation ≡ true
  pub caused : AllCaused [] s.events

commit_envelope-IsCausal :
    (s : EventStore) (stamp : Stamp) (input : AppendInput) (e : Envelope)
    → build_envelope s stamp input ≡ ok e
    → IsCausal s
    → IsCausal (commit_envelope s e)
unfolding commit_envelope
commit_envelope-IsCausal s stamp input e p h = record {
  strict = h.strict;
  caused = AllCaused-snoc [] s.events e h.caused (
      validate_causation-IsCaused s e h.strict
        (ground (arith, build_envelope_cases s stamp input)));
}

-- In strict mode `appendManyAtomic` keeps the causal order of the log: every event after the first
-- is a root, or names as its cause an event or a command that is earlier in the log, an earlier
-- event of the same batch included.
pub append_many_atomic-IsCausal :
    (s : EventStore) (is : List (Stamp × AppendInput)) (throw_on_persist : Bool) (disk : Disk)
    → IsCausal s
    → IsCausal (append_many_atomic s is throw_on_persist disk).1
append_many_atomic-IsCausal =
    append_many_atomic_induction IsCausal commit_envelope-IsCausal
      (λ s t l h. record { strict = rw l.strict h.strict; caused = rw l.events h.caused })
