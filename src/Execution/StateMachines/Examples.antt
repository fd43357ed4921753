-- ===== src/Execution/StateMachines/Examples.antt =====
-- A payment that settles, by the name of the event that the transition emits.
use sovr_protocol.Prelude.{
  find_first, ◌≡◌, refl, false, not, ◌&&◌, none, some, [], ◌∷◌, any, includes, is_some,
}
use sovr_protocol.Prelude.Maps.{lookup, insert}
use sovr_protocol.Prelude.Result.{err}
use sovr_protocol.Prelude.Value.{undefined}
use sovr_protocol.Prelude.Sort.{sort, insert_sorted}
use sovr_protocol.Execution.Vel.{less}
use sovr_protocol.Execution.StateMachines.Words.{trim, lower_case}
use sovr_protocol.Execution.StateMachines.{
  StateMachineDefinition, TransitionDefinition, TransitionInput, Interpreter, GuardEnvironment,
  new_interpreter, register_all, register, resolve_machine, get_machine, state_of,
}
use sovr_protocol.Execution.StateMachines.Transitions.{
  transition_endpoints, collect, find_transitions, evaluate_condition, made, try_candidates,
  execute_from, execute, transition_aggregate,
}
use sovr_protocol.Execution.StateMachines.Moves.{is_accepted, leads, is_open, execute_from_iff}
use sovr_protocol.Execution.StateMachines.Runs.{Route}
use sovr_protocol.Execution.StateMachines.Runs.Aggregates.{run, run-Route}

abbrev env : GuardEnvironment
env = record {
  vel = record { compare_numbers = λ a b. none; compare_texts = λ s t. less };
  try_parse = λ s. err "no condition";
  before = λ s t. false;
}

abbrev settle : TransitionDefinition
settle = record {
  trigger = some "payment.settle";
  condition = some " Always ";
  emitted_events = "payment.settled" ∷ [];
  invalid = false;
  from = none;
  to = none;
}

abbrev payment : StateMachineDefinition
payment = record {
  id = "state_machine:payment";
  name = "payment";
  domain = "payment";
  aggregate = "payment";
  initial_state = "PENDING";
  final_states = "SETTLED" ∷ [];
  states =
      ("PENDING", record { entry_actions = []; exit_actions = [] })
      ∷ ("SETTLED", record { entry_actions = []; exit_actions = [] })
      ∷ [];
  transitions = ("PENDING_to_SETTLED", settle) ∷ [];
}

abbrev interpreter : Interpreter
interpreter = new_interpreter env false (payment ∷ [])

abbrev input : TransitionInput
input = record {
  machine = "payment";
  domain = "";
  aggregate = "";
  aggregate_id = "p1";
  current_state = none;
  trigger = "payment.settled";
  context = undefined;
}

ends : state_of payment "p1" (run env (input ∷ input ∷ []) interpreter) ≡ "SETTLED"
unfolding run new_interpreter register_all register resolve_machine get_machine transition_endpoints
    collect find_transitions evaluate_condition find_first made try_candidates execute_from execute
    transition_aggregate sort insert_sorted lookup insert includes any trim lower_case
ends = refl

execute_from_iff_example : is_accepted (execute_from env false payment "PENDING" input) ≡ (
    is_some (lookup "PENDING" payment.states)
    && not (includes payment.final_states "PENDING")
    && any
        (λ e. leads "PENDING" input.trigger e && is_open env false input.context e.1)
        payment.transitions)
execute_from_iff_example = execute_from_iff env false payment "PENDING" input

run-Route_example :
    Route env false payment "p1"
      (input ∷ input ∷ [])
      "PENDING"
      (state_of payment "p1" (run env (input ∷ input ∷ []) interpreter))
unfolding new_interpreter register_all register resolve_machine get_machine sort insert_sorted
    lookup insert
run-Route_example =
    run-Route env payment interpreter (input ∷ input ∷ []) "p1" ((refl, refl), ((refl, refl), tt))
