-- ===== src/Execution/StateMachines/Runs.antt =====
-- The states of an aggregate in packages/runtime/src/execution/state-machine-interpreter.ts, as paths
-- through the transitions of its machine.
pub mod Aggregates
use mathlib.Core.List.{Memᴰ}
use sovr_protocol.Prelude.{
  ◌≡◌, refl, sym, ap, subst, ◌∙◌, String, Bool, true, false, ◌&&◌, Option, none, some, List, [],
  ◌∷◌, ◌==◌, eq_iff, arith, All, All-append, All-weaken, All-Memᴰ, find_first, includes, is_some,
  or_default, Bool-cases, ◌⊎◌, inl, inr, if◌then◌else◌,
}
use sovr_protocol.Prelude.Maps.{Map, lookup, lookup-insert}
use sovr_protocol.Prelude.Result.{Result, ok, err}
use sovr_protocol.Prelude.Value.{Value}
use sovr_protocol.Prelude.Sort.{All-sort}
use sovr_protocol.Execution.StateMachines.{
  TransitionDefinition, StateMachineDefinition, TransitionInput, Accepted, TransitionResult,
  accepted, rejected, Interpreter, GuardEnvironment, resolve_machine, aggregate_key, state_of,
  get_machine, get_machine_for,
}
use sovr_protocol.Execution.StateMachines.Transitions.{
  transition_endpoints, is_started, Candidate, candidate_of, reaching, collect, find_transitions,
  made, try_candidates, concluded, chosen, settled, execute_from, executed, transitioned, execute,
  transition_aggregate,
}
use sovr_protocol.Execution.StateMachines.Moves.{is_open, try_candidates-find_first}

find_first-All {ℓ κ} :
    {A : Type ℓ} (P : A → Type κ) (p : A → Bool) (xs : List A) {x : A}
    → All P xs
    → find_first p xs ≡ some x
    → P x × (p x ≡ true)
unfolding find_first
find_first-All P p [] h e = cc
find_first-All P p (y ∷ ys) {x} h e = elim (Bool-cases (p y)) [
  | inl f ↦ let same : y ≡ x = ground (arith, f, e) in subst (λ z. P z × (p z ≡ true)) same (h.0, f)
  | inr f ↦ find_first-All P p ys {x = x} h.1 (ground (arith, f, e))
]

-- A transition of the machine that leads from one state to another, that the trigger starts, and that
-- may be taken in the context.
pub record IsMove (env : GuardEnvironment) (allowed : Bool) (m : StateMachineDefinition)
    (trigger : String) (context : Value) (from to : String) : Type 0 where
  pub name : String
  pub transition : TransitionDefinition
  pub listed : Memᴰ (name, transition) m.transitions
  pub joins : transition_endpoints name transition ≡ some (from, to)
  pub begins : is_started transition trigger ≡ true
  pub opens : is_open env allowed context transition ≡ true
  pub known : is_some (lookup from m.states) ≡ true
  pub unfinished : includes m.final_states from ≡ false

-- What a run of triggers does to the aggregate with the identifier: each of them leaves its state, or
-- is for this aggregate and makes a move that it starts, in its own context.
pub data Route (env : GuardEnvironment) (allowed : Bool) (m : StateMachineDefinition) (id : String)
    : List TransitionInput → String → String → Type 0 where
  done : (s : String) → Route env allowed m id [] s s
  stay :
      (i : TransitionInput) (is : List TransitionInput) (s t : String)
      → Route env allowed m id is s t
      → Route env allowed m id (i ∷ is) s t
  move :
      (i : TransitionInput) (is : List TransitionInput) (s t u : String)
      → aggregate_key m i.aggregate_id ≡ aggregate_key m id
      → IsMove env allowed m i.trigger i.context s t
      → Route env allowed m id is t u
      → Route env allowed m id (i ∷ is) s u

abbrev IsFound : Map TransitionDefinition → String → String → Candidate → Type 0
IsFound ts current trigger c =
    Memᴰ (c.name, c.transition) ts
    × (transition_endpoints c.name c.transition ≡ some (current, c.to))
    × (is_started c.transition trigger ≡ true)

reaching-IsFound :
    (all : Map TransitionDefinition) (current trigger name : String) (t : TransitionDefinition)
    (ends : Option (String × String))
    → Memᴰ (name, t) all
    → transition_endpoints name t ≡ ends
    → All (IsFound all current trigger) (reaching current trigger name t ends)
reaching-IsFound all current trigger name t none m e = tt
reaching-IsFound all current trigger name t (some (from, to)) m e =
    let one : List Candidate = record { name = name; from = from; to = to; transition = t } ∷ [] in
    elim (Bool-cases (from == current && is_started t trigger)) [
      | inr f ↦ subst (λ b. All (IsFound all current trigger) (if b then one else [])) (sym f) tt
      | inl f ↦
          let same : from ≡ current = ground (arith, f, eq_iff from current) in
          subst (λ b. All (IsFound all current trigger) (if b then one else [])) (sym f)
            (
              (
                m,
                subst (λ s. transition_endpoints name t ≡ some (s, to)) same e,
                ground (arith, f),
              ),
              tt,
            )
    ]

collect-IsFound :
    (all ts : Map TransitionDefinition) (current trigger : String)
    → All (λ e. Memᴰ e all) ts
    → All (IsFound all current trigger) (collect current trigger ts)
unfolding collect
collect-IsFound all [] current trigger h = tt
collect-IsFound all (e ∷ ts) current trigger h =
    All-append (IsFound all current trigger) (candidate_of current trigger e)
      (collect current trigger ts)
      (reaching-IsFound all current trigger e.0 e.1 (transition_endpoints e.0 e.1) h.0 refl)
      (collect-IsFound all ts current trigger h.1)

find_transitions-IsFound :
    (env : GuardEnvironment) (m : StateMachineDefinition) (current trigger : String)
    → All (IsFound m.transitions current trigger) (find_transitions env m current trigger)
unfolding find_transitions
find_transitions-IsFound env m current trigger =
    All-sort (λ a b. env.before a.name b.name) (IsFound m.transitions current trigger)
      (collect current trigger m.transitions)
      (collect-IsFound m.transitions m.transitions current trigger (All-Memᴰ m.transitions))

module _ (env : GuardEnvironment) (allowed : Bool) (m : StateMachineDefinition) where
  concluded_accepted :
      (current : String) (r : Result (List String) Candidate) {n : StateMachineDefinition}
      {a : Accepted}
      → concluded m current r ≡ accepted n a
      → (c : Candidate) × (r ≡ ok c) × (a.to_state ≡ c.to)
  unfolding made
  concluded_accepted current (ok c) h = (c, refl, ground (arith, h))
  concluded_accepted current (err reasons) h = cc

  chosen_accepted :
      (current : String) (i : TransitionInput) (cs : List Candidate) {n : StateMachineDefinition}
      {a : Accepted}
      → chosen env allowed m current i cs ≡ accepted n a
      → (c : Candidate) × (find_first (λ d. is_open env allowed i.context d.transition) cs ≡ some c)
        × (a.to_state ≡ c.to)
  chosen_accepted current i [] h = cc
  chosen_accepted current i (d ∷ cs) h =
      let (c, e, f) =
        concluded_accepted current (try_candidates env allowed i.context (d ∷ cs)) h in
      (c, try_candidates-find_first env allowed i.context (d ∷ cs) e, f)

  moved :
      (current : String) (i : TransitionInput) {n : StateMachineDefinition} {a : Accepted}
      → is_some (lookup current m.states) ≡ true
      → includes m.final_states current ≡ false
      → chosen env allowed m current i (find_transitions env m current i.trigger) ≡ accepted n a
      → IsMove env allowed m i.trigger i.context current a.to_state
  moved current i {a = a} known unended h =
      let (c, first, to) = chosen_accepted current i (find_transitions env m current i.trigger) h in
      let ((listed, ends, begins), opens) =
        find_first-All (IsFound m.transitions current i.trigger)
          (λ d. is_open env allowed i.context d.transition)
          (find_transitions env m current i.trigger)
          (find_transitions-IsFound env m current i.trigger) first in
      record {
        name = c.name;
        transition = c.transition;
        listed = listed;
        joins =
            subst (λ s. transition_endpoints c.name c.transition ≡ some (current, s)) (sym to) ends;
        begins = begins;
        opens = opens;
        known = known;
        unfinished = unended;
      }

  pub execute_from-IsMove :
      (current : String) (i : TransitionInput) {n : StateMachineDefinition} {a : Accepted}
      → execute_from env allowed m current i ≡ accepted n a
      → IsMove env allowed m i.trigger i.context current a.to_state
  unfolding execute_from
  execute_from-IsMove current i {n} {a} h = elim (Bool-cases (is_some (lookup current m.states))) [
    | inr e ↦ absurd (ground (arith, e, h))
    | inl e ↦ elim (Bool-cases (includes m.final_states current)) [
      | inl f ↦ absurd (ground (arith, e, f, h))
      | inr f ↦ moved current i {n = n} {a = a} e f (ground (arith, e, f, h))
    ]
  ]
