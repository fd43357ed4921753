-- ===== src/Execution/EventEnforcement/Examples.antt =====
-- Events with and without a number in the stream of one aggregate.
use sovr_protocol.Prelude.{
  ℕ, ◌≡◌, ◌+◌, suc, refl, String, false, Option, none, [], ◌∷◌, length, select,
}
use sovr_protocol.Prelude.Int.{ℤ, pos}
use sovr_protocol.Prelude.Maps.{lookup, insert}
use sovr_protocol.Prelude.Result.{Result, err}
use sovr_protocol.Prelude.Value.{
  Value, num, str, arr, obj, cons, nil, field, end, get, truthy, coalesce,
}
use sovr_protocol.Prelude.Text.{text_of}
use sovr_protocol.Execution.EventEnforcement.{
  enforce_audit, enforce_ordering, stream_of, sequence_of, to_integer, violation, append,
}
use sovr_protocol.Execution.EventEnforcement.Ordering.{
  last, accepted, track, count_from, accepted-count_from, append_burns,
}

abbrev event : ℕ → Value
event n = obj (
    field "event_name" (str "ledger.entry.posted") (
      field "aggregate_id" (str "j1") (
        field "actor_id" (str "alice") (
          field "correlation_id" (str "corr-1") (
            field "command_id" (str "c1") (
              field "sequence" (num (pos n)) (
                field "audit"
                  (obj
                    (field "constitutional_rules_referenced" (arr (cons (str "INV-001") nil)) end))
                  end)))))))

abbrev no_number : String → Option ℤ
no_number s = none

-- A store that fails on every event.
abbrev broken : Unit {0} → Value → Result String (Unit {0}) × Unit {0}
broken s e = (err "disk full", s)

two_of_three : accepted no_number "j1" [] (event 1 ∷ event 3 ∷ event 2 ∷ []) ≡ 1 ∷ 2 ∷ []
unfolding accepted enforce_ordering stream_of sequence_of to_integer get coalesce truthy text_of
    lookup insert
two_of_three = refl

accepted-count_from_example :
    let events = event 1 ∷ event 3 ∷ event 2 ∷ [] in
    let ns = accepted no_number "j1" [] events in
    (ns ≡ count_from (suc (last [] "j1")) (length ns))
    × (last (track no_number [] events) "j1" ≡ last [] "j1" + length ns)
accepted-count_from_example =
    accepted-count_from no_number "j1" [] (event 1 ∷ event 3 ∷ event 2 ∷ [])

append_burns_example :
    (invariant : String) × (reason : String) × ((append broken false no_number
        (append broken false no_number [] tt (event 1)).1
        tt
        (event 1)).0
      ≡ err (violation invariant reason))
unfolding append enforce_audit enforce_ordering stream_of sequence_of to_integer get coalesce truthy
    text_of lookup insert select
append_burns_example =
    append_burns broken false no_number [] tt (event 1) {x = "disk full"} refl refl tt
