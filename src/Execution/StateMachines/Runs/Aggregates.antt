-- ===== src/Execution/StateMachines/Runs/Aggregates.antt =====
-- The states of the aggregates in packages/runtime/src/execution/state-machine-interpreter.ts, one trigger
-- after another.
use sovr_protocol.Prelude.{
  ◌≡◌, refl, sym, ap, subst, ◌∙◌, String, Option, none, some, List, [], ◌∷◌, ◌==◌, eq_iff, arith,
  All, All-weaken, or_default, Bool-cases, ◌⊎◌, inl, inr,
}
use sovr_protocol.Prelude.Maps.{lookup, lookup-insert}
use sovr_protocol.Execution.StateMachines.{
  StateMachineDefinition, TransitionInput, Accepted, TransitionResult, accepted, rejected,
  Interpreter, GuardEnvironment, resolve_machine, aggregate_key, state_of, get_machine,
  get_machine_for,
}
use sovr_protocol.Execution.StateMachines.Transitions.{
  settled, execute_from, executed, transitioned, execute, transition_aggregate,
}
use sovr_protocol.Execution.StateMachines.Runs.{IsMove, Route, execute_from-IsMove}

executed_at :
    (env : GuardEnvironment) (s : Interpreter) (i : TransitionInput) (m : StateMachineDefinition)
    → resolve_machine s i ≡ some m
    → execute_from env s.allow_unresolved_conditions m
        (or_default i.current_state m.initial_state)
        i
      ≡ execute env s i
unfolding execute
executed_at env s i m e = ap (executed env s i) (sym e)

-- One command after another, on the aggregates of one machine.
unfoldable pub run : GuardEnvironment → List TransitionInput → Interpreter → Interpreter
run env [] s = s
run env (i ∷ is) s = run env is (transition_aggregate env s i).1

state_of-settled :
    (m : StateMachineDefinition) (k id : String) (r : TransitionResult) (s : Interpreter)
    → (state_of m id (settled k r s) ≡ state_of m id s)
      ⊎ ((n : StateMachineDefinition) × (a : Accepted) × (r ≡ accepted n a)
          × (k ≡ aggregate_key m id)
          × (state_of m id (settled k r s) ≡ a.to_state))
state_of-settled m k id (rejected n current reason) s = inl refl
state_of-settled m k id (accepted n a) s = elim (Bool-cases (a.to_state == "")) [
  | inl e ↦ inl (rw e refl)
  | inr e ↦ elim (Bool-cases (k == aggregate_key m id)) [
    | inl f ↦ inr (
      n,
      a,
      refl,
      ground (arith, f, eq_iff k (aggregate_key m id)),
      ground (arith, e, f, lookup-insert k (aggregate_key m id) a.to_state s.aggregate_states),
    )
    | inr f ↦
        inl
          (ground (arith, e, f, lookup-insert k (aggregate_key m id) a.to_state s.aggregate_states))
  ]
]

settled-allowed :
    (k : String) (r : TransitionResult) (s : Interpreter)
    → (settled k r s).allow_unresolved_conditions ≡ s.allow_unresolved_conditions
settled-allowed k (rejected n current reason) s = refl
settled-allowed k (accepted n a) s = elim (Bool-cases (a.to_state == "")) [
  | inl e ↦ rw e refl
  | inr e ↦ rw e refl
]

-- The machines of an interpreter do not change while it runs.
resolve_machine-settled :
    (k : String) (r : TransitionResult) (s : Interpreter) (i : TransitionInput)
    → resolve_machine (settled k r s) i ≡ resolve_machine s i
unfolding resolve_machine get_machine get_machine_for
resolve_machine-settled k (rejected n current reason) s i = refl
resolve_machine-settled k (accepted n a) s i = elim (Bool-cases (a.to_state == "")) [
  | inl e ↦ rw e refl
  | inr e ↦ rw e refl
]

-- A trigger that is given no state to start from
abbrev pub IsFor : Interpreter → StateMachineDefinition → TransitionInput → Type 0
IsFor s m i = (resolve_machine s i ≡ some m) × (i.current_state ≡ none)

-- One trigger leaves the state of an aggregate, or moves it.
transitioned-cases :
    (env : GuardEnvironment) (s : Interpreter) (m : StateMachineDefinition) (i : TransitionInput)
    (id : String)
    → resolve_machine s i ≡ some m
    → (current : Option String) → current ≡ none
    → let next =
        settled
          (aggregate_key m i.aggregate_id)
          (execute env s
            (record i { current_state = some (or_default current (state_of m i.aggregate_id s)) }))
          s in
      (state_of m id next ≡ state_of m id s)
      ⊎ ((aggregate_key m i.aggregate_id ≡ aggregate_key m id)
          × IsMove env s.allow_unresolved_conditions m i.trigger i.context
              (state_of m id s)
              (state_of m id next))
unfolding resolve_machine
transitioned-cases env s m i id e (some current) h = cc
transitioned-cases env s m i id e none h =
    let start = state_of m i.aggregate_id s in
    let j : TransitionInput = record i { current_state = some start } in
    let IsTo = IsMove env s.allow_unresolved_conditions m i.trigger i.context in
    elim (state_of-settled m (aggregate_key m i.aggregate_id) id (execute env s j) s) [
      | inl same ↦ inl same
      | inr (n, a, r, k, to) ↦
          let begun : start ≡ state_of m id s =
            ap (λ x. or_default (lookup x s.aggregate_states) m.initial_state) k in
          let step =
            execute_from-IsMove env s.allow_unresolved_conditions m start j {n = n} {a = a}
              (executed_at env s j m e ∙ r) in
          inr (
            k,
            subst (λ x. IsTo (state_of m id s) x) (sym to)
                (subst (λ x. IsTo x a.to_state) begun step),
          )
    ]

module _ (env : GuardEnvironment) (m : StateMachineDefinition) where
  abbrev settles : Interpreter → TransitionInput → Interpreter
  settles s i =
      settled (aggregate_key m i.aggregate_id)
        (execute env s (record i {
          current_state = some (or_default i.current_state (state_of m i.aggregate_id s));
        }))
        s

  transition_aggregate-settles :
      (s : Interpreter) (i : TransitionInput)
      → resolve_machine s i ≡ some m
      → settles s i ≡ (transition_aggregate env s i).1
  unfolding transition_aggregate
  transition_aggregate-settles s i e = ap (λ o. (transitioned env s i o).1) (sym e)

  IsFor-settles :
      (s : Interpreter) (i : TransitionInput) (is : List TransitionInput)
      → All (IsFor s m) is
      → All (IsFor (settles s i) m) is
  IsFor-settles s i is h =
      All-weaken (IsFor s m) (IsFor (settles s i) m) is
        (λ j k. (
          resolve_machine-settled (aggregate_key m i.aggregate_id)
                (execute env s (record i {
                  current_state = some (or_default i.current_state (state_of m i.aggregate_id s));
                }))
                s j
              ∙ k.0,
          k.1,
        ))
        h

  -- A run of triggers for one machine, none of which names a state to start from, takes each aggregate
  -- of the machine along a path of its transitions, in the order of the triggers: each of them leaves
  -- the state of the aggregate, or is for that aggregate and takes it over a transition that starts
  -- with the trigger, is open in the context of the trigger, and is out of no final state.
  pub run-Route :
      (s : Interpreter) (is : List TransitionInput) (id : String)
      → All (IsFor s m) is
      → Route env s.allow_unresolved_conditions m id is
          (state_of m id s)
          (state_of m id (run env is s))
  unfolding run
  run-Route s [] id h = Route.done (state_of m id s)
  run-Route s (i ∷ is) id h =
      let r = execute env s (record i {
        current_state = some (or_default i.current_state (state_of m i.aggregate_id s));
      }) in
      let next = settles s i in
      let before = state_of m id s in
      let after = state_of m id (run env is next) in
      let allowed = s.allow_unresolved_conditions in
      let rest =
        subst (λ b. Route env b m id is (state_of m id next) after)
          (settled-allowed (aggregate_key m i.aggregate_id) r s)
          (run-Route next is id (IsFor-settles s i is h.1)) in
      subst (λ t. Route env allowed m id (i ∷ is) before (state_of m id (run env is t)))
        (transition_aggregate-settles s i h.0.0)
        (elim (transitioned-cases env s m i id h.0.0 i.current_state h.0.1) [
          | inl same ↦
              Route.stay i is before after
                (subst (λ x. Route env allowed m id is x after) same rest)
          | inr (key, step) ↦ Route.move i is before (state_of m id next) after key step rest
        ])
