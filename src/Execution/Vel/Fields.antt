-- ===== src/Execution/Vel/Fields.antt =====
-- The contexts that a condition of packages/runtime/src/execution/vel-ast-evaluator.ts tells apart.
use sovr_protocol.Prelude.{
  All-parts, ◌≡◌, refl, ap, subst, String, Bool, true, not, ◌&&◌, List, [], ◌∷◌, ◌++◌, ◌==◌, eq_iff,
  arith, All, any, includes, Bool-cases, inl, inr, if◌then◌else◌,
}
use sovr_protocol.Prelude.Value.{Value, is_nullish}
use sovr_protocol.Prelude.Text.{text_of}
use sovr_protocol.Prelude.Sort.{All-of_sort}
use sovr_protocol.Execution.Vel
use sovr_protocol.Execution.Vel.{
  Operand, literal, field_path, VelEnvironment, ConditionAst, truth, identifier, negation, boolean,
  and, or, exists, comparison, membership, walk_operand, is_true, collect_field_references,
}

module _ (c d : Value) where
  abbrev Agrees : String → Type 0
  Agrees path = Vel.resolve_field path c ≡ Vel.resolve_field path d

  All-included :
      (fields : List String) (path : String)
      → includes fields path ≡ true
      → All Agrees fields
      → Agrees path
  unfolding includes
  All-included [] path e h = cc
  All-included (x ∷ xs) path e h = elim (Bool-cases (x == path)) [
    | inl m ↦ ground (arith, eq_iff x path, m, h.0)
    | inr m ↦ All-included xs path (ground (arith, m, e)) h.1
  ]

  All-added :
      (path : String) (fields : List String)
      → All Agrees (Vel.add_field path fields)
      → Agrees path × All Agrees fields
  unfolding Vel.add_field
  All-added path fields h = elim (Bool-cases (includes fields path)) [
    | inl e ↦
        let k = subst (λ b. All Agrees (if b then fields else fields ++ path ∷ [])) e h in
        (All-included fields path e k, k)
    | inr e ↦
        let k = subst (λ b. All Agrees (if b then fields else fields ++ path ∷ [])) e h in
        let (before, (last, done)) = All-parts Agrees fields (path ∷ []) k in (last, before)
  ]

  All-operand :
      (v : Operand) (fields : List String)
      → All Agrees (walk_operand v fields)
      → (Vel.resolve_operand v c ≡ Vel.resolve_operand v d) × All Agrees fields
  unfolding Vel.resolve_operand
  All-operand (literal v) fields h = (refl, h)
  All-operand (field_path path) fields h = All-added path fields h

  All-operands :
      (vs : List Operand) (fields : List String) (text : String)
      → All Agrees (Vel.walk_operands vs fields)
      → (any (λ v. text_of (Vel.resolve_operand v c) == text) vs
          ≡ any (λ v. text_of (Vel.resolve_operand v d) == text) vs)
        × All Agrees fields
  unfolding Vel.walk_operands any
  All-operands [] fields text h = (refl, h)
  All-operands (v ∷ vs) fields text h =
      let (rest, k) = All-operands vs (walk_operand v fields) text h in
      let (one, before) = All-operand v fields k in (rw (one, rest) refl, before)

  All-walk :
      (env : VelEnvironment) (a : ConditionAst) (fields : List String)
      → All Agrees (Vel.walk a fields)
      → (Vel.evaluate env a c ≡ Vel.evaluate env a d) × All Agrees fields
  unfolding Vel.walk Vel.evaluate Vel.is_member
  All-walk env (truth b) fields h = (refl, h)
  All-walk env (identifier name) fields h =
      let (one, before) = All-added name fields h in (ap is_true one, before)
  All-walk env (negation a) fields h =
      let (one, before) = All-walk env a fields h in (ap not one, before)
  All-walk env (boolean and a b) fields h =
      let (right, k) = All-walk env b (Vel.walk a fields) h in
      let (left, before) = All-walk env a fields k in (rw (left, right) refl, before)
  All-walk env (boolean or a b) fields h =
      let (right, k) = All-walk env b (Vel.walk a fields) h in
      let (left, before) = All-walk env a fields k in (rw (left, right) refl, before)
  All-walk env (exists path) fields h =
      let (one, before) = All-added path fields h in (ap (λ v. not (is_nullish v)) one, before)
  All-walk env (comparison op l r) fields h =
      let (right, k) = All-operand r (walk_operand l fields) h in
      let (left, before) = All-operand l fields k in (rw (left, right) refl, before)
  All-walk env (membership path values) fields h =
      let (many, k) =
        All-operands values (Vel.add_field path fields) (text_of (Vel.resolve_field path c)) h in
      let (one, before) = All-added path fields k in
      (
        subst (λ v. Vel.is_member (Vel.resolve_field path c) values c ≡ Vel.is_member v values d)
            one (ap (λ b. not (is_nullish (Vel.resolve_field path c)) && b) many),
        before,
      )

-- Two contexts that agree on every field that `collectFieldReferences` names for a condition have
-- the same verdict on it.
pub evaluate-collect_field_references :
    (env : VelEnvironment) (before : String → String → Bool) (a : ConditionAst) (c d : Value)
    → All (Agrees c d) (collect_field_references before a)
    → Vel.evaluate env a c ≡ Vel.evaluate env a d
unfolding collect_field_references
evaluate-collect_field_references env before a c d h =
    (All-walk c d env a [] (All-of_sort before (Agrees c d) (Vel.walk a []) h)).0
