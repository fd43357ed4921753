-- ===== src/Execution/AtomicCommit.antt =====
-- packages/runtime/src/execution/atomic-commit.ts: state first, then the events, and the states put
-- back when the events are refused. In memory `setState` and `rollback` cannot throw, so the only
-- call that can is the event store's `appendManyAtomic`, which is a parameter here.
pub mod States
pub mod Histories
mod Examples
use sovr_protocol.Prelude.{
  String, Bool, true, Option, none, some, List, [], ◌∷◌, reverse, includes, if◌then◌else◌,
}
use sovr_protocol.Prelude.Result.{Result, ok, err}
use sovr_protocol.Execution.StateRegistry.{
  StateTransition, StateRegistry, key, has_state, get_state, set_state, rollback_state,
}

pub record AtomicStateUpdate : Type 0 where
  pub aggregate : String
  pub id : String
  pub state : String
  pub domain : Option String
  pub transition : Option StateTransition

pub record PreparedStateUpdate : Type 0 where
  pub update : AtomicStateUpdate
  pub open update use *
  pub previous_state : Option String

abbrev pub update_key : AtomicStateUpdate → String
update_key u = key u.aggregate u.id u.domain

-- One entry for each key, with the state that the key had before.
unfoldable pub prepare :
    (Option String → String → Option String)
    → StateRegistry
    → List AtomicStateUpdate
    → List String
    → List PreparedStateUpdate
prepare resolver r [] seen = []
prepare resolver r (u ∷ us) seen =
    let skipped = prepare resolver r us seen in
    let kept = prepare resolver r us (update_key u ∷ seen) in
    let previous =
      if has_state r u.aggregate u.id u.domain
      then some (get_state resolver r u.aggregate u.id u.domain)
      else none in
    if includes seen (update_key u)
    then skipped
    else record { update = u; previous_state = previous } ∷ kept

-- Phase 2.
unfoldable pub apply_updates : StateRegistry → List AtomicStateUpdate → StateRegistry
apply_updates r [] = r
apply_updates r (u ∷ us) =
    apply_updates (set_state r u.aggregate u.id u.state u.domain u.transition) us

-- Phase 4.
unfoldable pub rollback_all : StateRegistry → List PreparedStateUpdate → StateRegistry
rollback_all r [] = r
rollback_all r (p ∷ ps) =
    rollback_all (rollback_state r p.aggregate p.id p.previous_state p.domain) ps

module _ {S E A : Type 0} (append_many_atomic : S → Result E A × S) where
  abbrev finish :
      List PreparedStateUpdate
      → List AtomicStateUpdate
      → StateRegistry
      → Result E A
      → S
      → Result E (A × List AtomicStateUpdate) × StateRegistry × S
  finish prepared us r (ok events) s = (ok (events, us), r, s)
  finish prepared us r (err cause) s = (err cause, rollback_all r (reverse prepared), s)

  unfoldable pub execute :
      (Option String → String → Option String)
      → StateRegistry
      → S
      → List AtomicStateUpdate
      → Result E (A × List AtomicStateUpdate) × StateRegistry × S
  execute resolver r s us =
      let (outcome, s') = append_many_atomic s in
      finish (prepare resolver r us []) us (apply_updates r us) outcome s'
