-- ===== src/Execution/StateMachines/Moves.antt =====
-- What the answers of packages/runtime/src/execution/state-machine-interpreter.ts say of a machine.
use sovr_protocol.Prelude.{
  ◌≡◌, refl, ◌∙◌, String, Bool, true, false, not, ◌&&◌, none, some, List, [], ◌∷◌, ◌==◌, arith, any,
  any-append, find_first, includes, is_some, inl, inr,
}
use sovr_protocol.Prelude.Maps.{Map, lookup}
use sovr_protocol.Prelude.Result.{is_ok, Result, ok, err, Result-cases}
use sovr_protocol.Prelude.Value.{Value}
use sovr_protocol.Prelude.Sort.{any-sort}
use sovr_protocol.Execution.StateMachines.{
  TransitionDefinition, StateMachineDefinition, TransitionInput, TransitionResult, accepted,
  rejected, GuardEnvironment,
}
use sovr_protocol.Execution.StateMachines.Transitions.{
  transition_endpoints, is_started, Candidate, candidate_of, collect, find_transitions,
  evaluate_condition, guard_of, try_candidates, concluded, chosen, execute_from,
}

abbrev pub is_accepted : TransitionResult → Bool
is_accepted (accepted m a) = true
is_accepted (rejected m current reason) = false

-- The entry of a machine has the endpoints and is started by the trigger.
abbrev pub leads : String → String → String × TransitionDefinition → Bool
leads current trigger (name, t) = elim (transition_endpoints name t) [
  | none ↦ false
  | some (from, to) ↦ from == current && is_started t trigger
]

concluded-is_accepted :
    (m : StateMachineDefinition) (current : String) (r : Result (List String) Candidate)
    → is_accepted (concluded m current r) ≡ is_ok r
concluded-is_accepted m current (ok c) = refl
concluded-is_accepted m current (err reasons) = refl

module _ (env : GuardEnvironment) (allowed : Bool) where
  -- It may be taken: it is not marked invalid, and its condition passes.
  abbrev pub is_open : Value → TransitionDefinition → Bool
  is_open context t = not t.invalid && is_ok (evaluate_condition env allowed t.condition context)

  guard_of-is_open :
      (context : Value) (c : Candidate)
      → is_ok (guard_of env allowed context c) ≡ is_open context c.transition
  guard_of-is_open context c = ground arith

  try_candidates-any :
      (context : Value) (cs : List Candidate)
      → is_ok (try_candidates env allowed context cs) ≡ any (λ c. is_open context c.transition) cs
  unfolding try_candidates any
  try_candidates-any context [] = refl
  try_candidates-any context (c ∷ cs) =
      ground (arith, guard_of-is_open context c, try_candidates-any context cs)

  pub try_candidates-find_first :
      (context : Value) (cs : List Candidate) {c : Candidate}
      → try_candidates env allowed context cs ≡ ok c
      → find_first (λ d. is_open context d.transition) cs ≡ some c
  unfolding try_candidates find_first
  try_candidates-find_first context [] h = cc
  try_candidates-find_first context (d ∷ cs) {c} h =
      elim (Result-cases (guard_of env allowed context d)) [
        | inl (u, e) ↦ ground (arith, e, guard_of-is_open context d, h)
        | inr (x, e) ↦ elim (Result-cases (try_candidates env allowed context cs)) [
          | inl (f, k) ↦ ground (
            arith,
            e,
            k,
            h,
            guard_of-is_open context d,
            try_candidates-find_first context cs {c = f} k,
          )
          | inr (f, k) ↦ ground (arith, e, k, h)
        ]
      ]

  any-collect :
      (current trigger : String) (p : TransitionDefinition → Bool) (ts : Map TransitionDefinition)
      → any (λ c. p c.transition) (collect current trigger ts)
        ≡ any (λ e. leads current trigger e && p e.1) ts
  unfolding collect any
  any-collect current trigger p [] = refl
  any-collect current trigger p ((name, t) ∷ ts) =
      rw
        (any-append (λ c. p c.transition) (candidate_of current trigger (name, t))
          (collect current trigger ts))
        (ground (arith, any-collect current trigger p ts))

  any-find_transitions :
      (m : StateMachineDefinition) (current trigger : String) (p : TransitionDefinition → Bool)
      → any (λ c. p c.transition) (find_transitions env m current trigger)
        ≡ any (λ e. leads current trigger e && p e.1) m.transitions
  unfolding find_transitions
  any-find_transitions m current trigger p =
      any-sort (λ a b. env.before a.name b.name) (λ c. p c.transition)
        (collect current trigger m.transitions)
      ∙ any-collect current trigger p m.transitions

  chosen-is_accepted :
      (m : StateMachineDefinition) (current : String) (i : TransitionInput) (cs : List Candidate)
      → is_accepted (chosen env allowed m current i cs)
        ≡ any (λ c. is_open i.context c.transition) cs
  unfolding any
  chosen-is_accepted m current i [] = refl
  chosen-is_accepted m current i (c ∷ cs) =
      concluded-is_accepted m current (try_candidates env allowed i.context (c ∷ cs))
      ∙ try_candidates-any i.context (c ∷ cs)

  -- `execute` accepts a trigger exactly when the state that it starts from is one of the machine and
  -- not a final one, and some transition leads from it by the trigger and is open: neither marked
  -- invalid nor held back by its condition.
  pub execute_from_iff :
      (m : StateMachineDefinition) (current : String) (i : TransitionInput)
      → is_accepted (execute_from env allowed m current i) ≡ (
          is_some (lookup current m.states)
          && not (includes m.final_states current)
          && any (λ e. leads current i.trigger e && is_open i.context e.1) m.transitions)
  unfolding execute_from
  execute_from_iff m current i = ground (
    arith,
    chosen-is_accepted m current i (find_transitions env m current i.trigger),
    any-find_transitions m current i.trigger (is_open i.context),
  )
