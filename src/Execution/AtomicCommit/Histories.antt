-- ===== src/Execution/AtomicCommit/Histories.antt =====
-- Phase 4 of packages/runtime/src/execution/atomic-commit.ts and the transition histories.
use sovr_protocol.Prelude.{
  ℕ, zero, suc, ◌≡◌, refl, String, false, not, ◌&&◌, Option, none, some, List, [], ◌∷◌, ◌++◌,
  reverse, reverse-cons, append_assoc, append-nil, arith, ◌==◌, eq_iff, any, drop_last,
  drop_last-append, includes, if◌then◌else◌,
}
use sovr_protocol.Prelude.Result.{Result, err}
use sovr_protocol.Execution.StateRegistry.{
  StateRegistry, StateTransition, normalise, set_state, rollback_state,
}
use sovr_protocol.Execution.StateRegistry.Laws.{
  history_at, history_at-set_state, history_at-set_state-none, history_at-rollback_state,
}
use sovr_protocol.Execution.AtomicCommit.{
  AtomicStateUpdate, PreparedStateUpdate, update_key, prepare, apply_updates, rollback_all, execute,
}
use sovr_protocol.Execution.AtomicCommit.States.{at_key, prepared_at}

abbrev pub pushed_by : AtomicStateUpdate → Option StateTransition → List StateTransition
pushed_by u none = []
pushed_by u (some t) = normalise t u.aggregate u.id u.state u.domain ∷ []

-- The transitions that the batch records under a key, in order.
unfoldable pub pushed : String → List AtomicStateUpdate → List StateTransition
pushed k [] = []
pushed k (u ∷ us) = (if update_key u == k then pushed_by u u.transition else []) ++ pushed k us

set_state-history :
    (r : StateRegistry) (u : AtomicStateUpdate) (t : Option StateTransition) (k : String)
    → history_at (set_state r u.aggregate u.id u.state u.domain t) k
      ≡ history_at r k ++ (if update_key u == k then pushed_by u t else [])
set_state-history r u none k = ground (
  arith,
  history_at-set_state-none r u.aggregate u.id u.state u.domain k,
  append-nil (history_at r k),
)
set_state-history r u (some t) k = ground (
  arith,
  history_at-set_state r u.aggregate u.id u.state u.domain t k,
  append-nil (history_at r k),
)

apply_updates-history_at :
    (r : StateRegistry) (us : List AtomicStateUpdate) (k : String)
    → history_at (apply_updates r us) k ≡ history_at r k ++ pushed k us
unfolding apply_updates pushed
apply_updates-history_at r [] k = ground (arith, append-nil (history_at r k))
apply_updates-history_at r (u ∷ us) k =
    rw
      (
        apply_updates-history_at (set_state r u.aggregate u.id u.state u.domain u.transition) us k,
        set_state-history r u u.transition k,
      )
      (append_assoc (history_at r k) _ (pushed k us))

abbrev hits : String → List PreparedStateUpdate → ℕ
hits k [] = 0
hits k (p ∷ ps) = let rest = hits k ps in if prepared_at k p then suc rest else rest

abbrev pops : ℕ → List StateTransition → List StateTransition
pops zero h = h
pops (suc n) h = pops n (drop_last h)

rollback_all-history_at :
    (r : StateRegistry) (ps : List PreparedStateUpdate) (k : String)
    → history_at (rollback_all r ps) k ≡ pops (hits k ps) (history_at r k)
unfolding rollback_all
rollback_all-history_at r [] k = refl
rollback_all-history_at r (p ∷ ps) k = ground (
  arith,
  rollback_all-history_at (rollback_state r p.aggregate p.id p.previous_state p.domain) ps k,
  history_at-rollback_state r p.aggregate p.id p.previous_state p.domain k,
)

hits-snoc :
    (k : String) (ps : List PreparedStateUpdate) (p : PreparedStateUpdate)
    → hits k (ps ++ p ∷ []) ≡ (if prepared_at k p then suc (hits k ps) else hits k ps)
hits-snoc k [] p = ground arith
hits-snoc k (q ∷ ps) p = ground (arith, hits-snoc k ps p)

hits-reverse : (k : String) (ps : List PreparedStateUpdate) → hits k (reverse ps) ≡ hits k ps
hits-reverse k [] = refl
hits-reverse k (p ∷ ps) =
    rw (reverse-cons p ps) (ground (arith, hits-snoc k (reverse ps) p, hits-reverse k ps))

hits-prepare :
    (resolver : Option String → String → Option String) (r : StateRegistry)
    (us : List AtomicStateUpdate) (seen : List String) (k : String)
    → hits k (prepare resolver r us seen)
      ≡ (if any (at_key k) us && not (includes seen k) then 1 else 0)
unfolding prepare any includes
hits-prepare resolver r [] seen k = refl
hits-prepare resolver r (u ∷ us) seen k = ground (
  arith,
  eq_iff (update_key u) k,
  hits-prepare resolver r us seen k,
  hits-prepare resolver r us (update_key u ∷ seen) k,
)

rolled_back_history :
    (resolver : Option String → String → Option String) (r : StateRegistry)
    (us : List AtomicStateUpdate) (k : String)
    → history_at (rollback_all (apply_updates r us) (reverse (prepare resolver r us []))) k ≡ (
        if any (at_key k) us
        then drop_last (history_at r k ++ pushed k us)
        else history_at r k ++ pushed k us)
unfolding includes
rolled_back_history resolver r us k =
    let ps = prepare resolver r us [] in
    ground (
      arith,
      rollback_all-history_at (apply_updates r us) (reverse ps) k,
      hits-reverse k ps,
      hits-prepare resolver r us [] k,
      apply_updates-history_at r us k,
    )

pushed_elsewhere :
    (k : String) (us : List AtomicStateUpdate) → any (at_key k) us ≡ false → pushed k us ≡ []
unfolding any pushed
pushed_elsewhere k [] h = refl
pushed_elsewhere k (u ∷ us) h = ground (arith, pushed_elsewhere k us)

module _ {S E A : Type 0} (append_many_atomic : S → Result E A × S) where
  -- When the events are refused, the history of a key that the batch does not name is untouched,
  -- and the history of a key that it names is the old one, with what the batch recorded for it
  -- behind, less its last entry.
  pub execute_pops_history :
      (resolver : Option String → String → Option String) (r : StateRegistry) (s : S)
      (us : List AtomicStateUpdate) {x : E}
      → (append_many_atomic s).0 ≡ err x
      → (k : String)
      → history_at (execute append_many_atomic resolver r s us).1 k
        ≡ (if any (at_key k) us then drop_last (history_at r k ++ pushed k us) else history_at r k)
  unfolding execute
  execute_pops_history resolver r s us failed k = rw failed (
      ground (
        arith,
        rolled_back_history resolver r us k,
        pushed_elsewhere k us,
        append-nil (history_at r k),
      ))

  -- So a key for which the batch records one transition has the history that it had.
  pub execute_restores_history :
      (resolver : Option String → String → Option String) (r : StateRegistry) (s : S)
      (us : List AtomicStateUpdate) {x : E}
      → (append_many_atomic s).0 ≡ err x
      → (k : String) {t : StateTransition} → pushed k us ≡ t ∷ []
      → history_at (execute append_many_atomic resolver r s us).1 k ≡ history_at r k
  execute_restores_history resolver r s us failed k {t} once = ground (
    arith,
    execute_pops_history resolver r s us failed k,
    drop_last-append (history_at r k) t,
    pushed_elsewhere k us,
  )

  -- When the events are refused, a key for which the batch recorded exactly two transitions keeps
  -- the first of the two in its history.
  pub execute_leaves_phantom :
      (resolver : Option String → String → Option String) (r : StateRegistry) (s : S)
      (us : List AtomicStateUpdate) {x : E}
      → (append_many_atomic s).0 ≡ err x
      → (k : String) {t t' : StateTransition} → pushed k us ≡ t ∷ t' ∷ []
      → history_at (execute append_many_atomic resolver r s us).1 k ≡ history_at r k ++ t ∷ []
  execute_leaves_phantom resolver r s us failed k {t} {t'} twice = ground (
    arith,
    execute_pops_history resolver r s us failed k,
    drop_last-append (history_at r k ++ t ∷ []) t',
    append_assoc (history_at r k) (t ∷ []) (t' ∷ []),
    pushed_elsewhere k us,
  )
