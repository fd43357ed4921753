-- ===== src/Execution/AtomicCommit/States.antt =====
-- The states of the registry under the phases of packages/runtime/src/execution/atomic-commit.ts.
use sovr_protocol.Prelude.{
  ◌≡◌, refl, ◌≢◌, inl, inr, String, Bool, false, not, ◌&&◌, Option, none, some, List, [], ◌∷◌,
  reverse, arith, ◌==◌, eq_iff, any, any-reverse, All, All-reverse, includes, or_default,
  Bool-cases, Option-cases, if◌then◌else◌,
}
use sovr_protocol.Prelude.Maps.{lookup}
use sovr_protocol.Prelude.Result.{Result, err}
use sovr_protocol.Execution.StateRegistry.{
  StateRegistry, state_text, has_state, get_state, set_state, rollback_state,
}
use sovr_protocol.Execution.StateRegistry.Laws.{
  state_at, state_at-set_state, state_at-rollback_state,
}
use sovr_protocol.Execution.AtomicCommit.{
  AtomicStateUpdate, PreparedStateUpdate, update_key, prepare, apply_updates, rollback_all, execute,
}

-- No aggregate is in the state with the empty name, which `getState` reads as no state.
abbrev pub IsNamed : StateRegistry → Type 0
IsNamed r = (k : String) → state_at r k ≢ some ""

abbrev pub at_key : String → AtomicStateUpdate → Bool
at_key k u = update_key u == k

abbrev pub prepared_at : String → PreparedStateUpdate → Bool
prepared_at k p = update_key p.update == k

-- What `prepare` saves for a key is the state under it.
abbrev pub Saves : StateRegistry → PreparedStateUpdate → Type 0
Saves r p = p.previous_state ≡ state_at r (update_key p.update)

saved_state :
    (resolver : Option String → String → Option String) (r : StateRegistry) (u : AtomicStateUpdate)
    → IsNamed r
    → (if has_state r u.aggregate u.id u.domain
        then some (get_state resolver r u.aggregate u.id u.domain)
        else none)
      ≡ state_at r (update_key u)
unfolding has_state get_state state_at
saved_state resolver r u named = ground (
  arith,
  named (update_key u),
  Option-cases (lookup (update_key u) r.states),
  eq_iff (or_default (state_text (lookup (update_key u) r.states)) "") "",
)

apply_updates-state_at :
    (r : StateRegistry) (us : List AtomicStateUpdate) (k : String)
    → any (at_key k) us ≡ false
    → state_at (apply_updates r us) k ≡ state_at r k
unfolding apply_updates any
apply_updates-state_at r [] k h = refl
apply_updates-state_at r (u ∷ us) k h = ground (
  arith,
  apply_updates-state_at (set_state r u.aggregate u.id u.state u.domain u.transition) us k,
  state_at-set_state r u.aggregate u.id u.state u.domain u.transition k,
)

rollback_all-state_at :
    (r₀ r : StateRegistry) (ps : List PreparedStateUpdate) (k : String)
    → All (Saves r₀) ps
    → state_at (rollback_all r ps) k
      ≡ (if any (prepared_at k) ps then state_at r₀ k else state_at r k)
unfolding rollback_all any
rollback_all-state_at r₀ r [] k h = refl
rollback_all-state_at r₀ r (p ∷ ps) k h = ground (
  arith,
  h.0,
  eq_iff (update_key p.update) k,
  rollback_all-state_at r₀ (rollback_state r p.aggregate p.id p.previous_state p.domain) ps k h.1,
  state_at-rollback_state r p.aggregate p.id p.previous_state p.domain k,
)

prepare-Saves :
    (resolver : Option String → String → Option String) (r : StateRegistry)
    (us : List AtomicStateUpdate) (seen : List String)
    → IsNamed r
    → All (Saves r) (prepare resolver r us seen)
unfolding prepare
prepare-Saves resolver r [] seen named = tt
prepare-Saves resolver r (u ∷ us) seen named = elim (Bool-cases (includes seen (update_key u))) [
  | inl old ↦ rw old (prepare-Saves resolver r us seen named)
  | inr new ↦
      rw new
        (saved_state resolver r u named, prepare-Saves resolver r us (update_key u ∷ seen) named)
]

-- The keys of the saved states are those of the batch that were not seen before.
pub prepare_keys :
    (resolver : Option String → String → Option String) (r : StateRegistry)
    (us : List AtomicStateUpdate) (seen : List String) (k : String)
    → any (prepared_at k) (prepare resolver r us seen)
      ≡ (any (at_key k) us && not (includes seen k))
unfolding prepare any includes
prepare_keys resolver r [] seen k = refl
prepare_keys resolver r (u ∷ us) seen k = ground (
  arith,
  eq_iff (update_key u) k,
  prepare_keys resolver r us seen k,
  prepare_keys resolver r us (update_key u ∷ seen) k,
)

rolled_back :
    (resolver : Option String → String → Option String) (r : StateRegistry)
    (us : List AtomicStateUpdate) (k : String)
    → IsNamed r
    → state_at (rollback_all (apply_updates r us) (reverse (prepare resolver r us []))) k
      ≡ state_at r k
unfolding includes
rolled_back resolver r us k named =
    let ps = prepare resolver r us [] in
    ground (
      arith,
      rollback_all-state_at r (apply_updates r us) (reverse ps) k
          (All-reverse (Saves r) ps (prepare-Saves resolver r us [] named)),
      any-reverse (prepared_at k) ps,
      prepare_keys resolver r us [] k,
      apply_updates-state_at r us k,
    )

module _ {S E A : Type 0} (append_many_atomic : S → Result E A × S) where
  -- When the events are refused and no stored state is the empty text, the registry has, under
  -- every key and whatever keys the batch repeats, the state that it had before the commit; the
  -- answer is the error of the event store, which is as its own method left it.
  pub execute_restores_states :
      (resolver : Option String → String → Option String) (r : StateRegistry) (s : S)
      (us : List AtomicStateUpdate) {x : E}
      → IsNamed r
      → (append_many_atomic s).0 ≡ err x
      → let out = execute append_many_atomic resolver r s us in
        (out.0 ≡ err x)
        × ((k : String) → state_at out.1 k ≡ state_at r k)
        × (out.2 ≡ (append_many_atomic s).1)
  unfolding execute
  execute_restores_states resolver r s us {x} named failed =
      (rw failed, (λ k. rw failed (rolled_back resolver r us k named)), rw failed)
