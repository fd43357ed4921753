-- ===== src/Execution/Vel.antt =====
-- packages/runtime/src/execution/vel-ast-evaluator.ts, the verdict on a parsed condition, and from
-- packages/shared/src/vel the tree of a condition and the fields that it names. `Number` and the
-- order of texts are parameters. A path is followed as in the payload mapper of the sagas, which goes
-- by own keys too, with the index of an array written without leading zeros.
use Prim.Native.String.{slice, len}
pub mod Fields
mod Examples
use sovr_protocol.Prelude.{
  String, Bool, true, false, not, ◌&&◌, ◌||◌, Option, none, some, List, [], ◌∷◌, ◌++◌, ◌==◌, any,
  includes, if◌then◌else◌,
}
use sovr_protocol.Prelude.Value.{Value, undefined, bool, get, is_nullish}
use sovr_protocol.Prelude.Text.{text_of, starts_with}
use sovr_protocol.Prelude.Sort.{sort}
use sovr_protocol.Execution.SagaPayload.{deep_get}

pub data Operand : Type 0 where
  field_path : String → Operand
  literal : Value → Operand

pub data Comparison : Type 0 where
  at_most at_least below above equals differs : Comparison

pub data Operator : Type 0 where
  and or : Operator

pub data ConditionAst : Type 0 where
  truth : Bool → ConditionAst
  identifier : String → ConditionAst
  negation : ConditionAst → ConditionAst
  boolean : Operator → ConditionAst → ConditionAst → ConditionAst
  exists : String → ConditionAst
  comparison : Comparison → Operand → Operand → ConditionAst
  membership : String → List Operand → ConditionAst

pub data Order : Type 0 where
  less same greater : Order

-- `compare_numbers` has no answer unless `Number` of both is finite.
pub record VelEnvironment : Type 0 where
  pub compare_numbers : Value → Value → Option Order
  pub compare_texts : String → String → Order

abbrev pub holds : Comparison → Order → Bool
holds at_most greater = false
holds at_most _ = true
holds at_least less = false
holds at_least _ = true
holds below less = true
holds below _ = false
holds above greater = true
holds above _ = false
holds equals same = true
holds equals _ = false
holds differs same = false
holds differs _ = true

-- What the loop asks of the context for one candidate, in its order.
abbrev pub places : Value → List Value
places context =
    context
    ∷ get context "facts"
    ∷ get context "conditions"
    ∷ get (get context "command") "payload"
    ∷ get context "actor"
    ∷ get (get context "command") "identity_context"
    ∷ []

abbrev is_undefined : Value → Bool
is_undefined undefined = true
is_undefined _ = false

unfoldable pub first_in : List Value → String → Value
first_in [] path = undefined
first_in (place ∷ rest) path =
    let later = first_in rest path in
    let found = deep_get place path in if is_undefined found then later else found

unfoldable pub first_of : Value → List String → Value
first_of context [] = undefined
first_of context (candidate ∷ rest) =
    let later = first_of context rest in
    let found = first_in (places context) candidate in if is_undefined found then later else found

-- Two of the four replacements put back what they take out.
unfoldable pub candidates_of : String → List String
candidates_of path =
    path
    ∷ (if starts_with path "context." then slice path 8 (len path) else path)
    ∷ path
    ∷ path
    ∷ []

unfoldable pub resolve_field : String → Value → Value
resolve_field path context = first_of context (candidates_of path)

unfoldable pub resolve_operand : Operand → Value → Value
resolve_operand (literal v) context = v
resolve_operand (field_path path) context = resolve_field path context

abbrev pub is_true : Value → Bool
is_true (bool b) = b
is_true _ = false

unfoldable pub compare_values : VelEnvironment → Comparison → Value → Value → Bool
compare_values env op left right =
    if is_undefined left || is_undefined right
    then false
    else elim (env.compare_numbers left right) [
      | some order ↦ holds op order
      | none ↦ holds op (env.compare_texts (text_of left) (text_of right))
    ]

unfoldable pub is_member : Value → List Operand → Value → Bool
is_member actual values context =
    not (is_nullish actual)
    && any (λ v. text_of (resolve_operand v context) == text_of actual) values

unfoldable pub evaluate : VelEnvironment → ConditionAst → Value → Bool
evaluate env (truth b) context = b
evaluate env (identifier name) context = is_true (resolve_field name context)
evaluate env (negation c) context = not (evaluate env c context)
evaluate env (boolean and c d) context = evaluate env c context && evaluate env d context
evaluate env (boolean or c d) context = evaluate env c context || evaluate env d context
evaluate env (exists path) context = not (is_nullish (resolve_field path context))
evaluate env (membership path values) context =
    is_member (resolve_field path context) values context
evaluate env (comparison op l r) context =
    compare_values env op (resolve_operand l context) (resolve_operand r context)

-- `fields.add(path)`
unfoldable pub add_field : String → List String → List String
add_field path fields = if includes fields path then fields else fields ++ path ∷ []

abbrev pub walk_operand : Operand → List String → List String
walk_operand (literal v) fields = fields
walk_operand (field_path path) fields = add_field path fields

unfoldable pub walk_operands : List Operand → List String → List String
walk_operands [] fields = fields
walk_operands (v ∷ vs) fields = walk_operands vs (walk_operand v fields)

unfoldable pub walk : ConditionAst → List String → List String
walk (truth b) fields = fields
walk (identifier name) fields = add_field name fields
walk (negation c) fields = walk c fields
walk (boolean op c d) fields = walk d (walk c fields)
walk (exists path) fields = add_field path fields
walk (comparison op l r) fields = walk_operand r (walk_operand l fields)
walk (membership path values) fields = walk_operands values (add_field path fields)

unfoldable pub collect_field_references : (String → String → Bool) → ConditionAst → List String
collect_field_references before c = sort before (walk c [])
