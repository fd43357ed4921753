-- ===== src/Execution/Vel/Examples.antt =====
-- A condition on an amount and a status, over two contexts that differ elsewhere.
use sovr_protocol.Prelude.{◌≡◌, refl, String, true, false, some, [], ◌∷◌, any, select, includes}
use sovr_protocol.Prelude.Int.{pos}
use sovr_protocol.Prelude.Value.{Value, num, str, obj, field, end, truthy, has_field, get_field}
use sovr_protocol.Prelude.Text.{text_of}
use sovr_protocol.Prelude.Sort.{sort, insert_sorted}
use sovr_protocol.Execution.SagaPayload.{deep_get, descend, split_dots, own}
use sovr_protocol.Execution.Vel
use sovr_protocol.Execution.Vel.{
  VelEnvironment, ConditionAst, Operand, literal, field_path, boolean, and, comparison, membership,
  above, same, less, greater, evaluate, collect_field_references,
}
use sovr_protocol.Execution.Vel.Fields.{evaluate-collect_field_references}

abbrev env : VelEnvironment
env = record { compare_numbers = λ a b. some greater; compare_texts = λ s t. less }

abbrev condition : ConditionAst
condition =
    boolean and (comparison above (field_path "payload.amount") (literal (num (pos 10))))
      (membership "status" (literal (str "OPEN") ∷ literal (str "HELD") ∷ []))

abbrev context : String → Value
context note = obj (
    field "status" (str "HELD")
      (field "payload" (obj (field "amount" (num (pos 12)) end)) (field "note" (str note) end)))

verdict : evaluate env condition (context "a") ≡ true
unfolding evaluate Vel.compare_values Vel.is_member Vel.resolve_operand Vel.resolve_field
    Vel.candidates_of Vel.first_of Vel.first_in any deep_get truthy has_field descend select
    split_dots own get_field text_of
verdict = refl

evaluate-collect_field_references_example :
    evaluate env condition (context "a") ≡ evaluate env condition (context "b")
unfolding collect_field_references sort insert_sorted Vel.walk Vel.walk_operands Vel.add_field
    includes Vel.resolve_field Vel.candidates_of Vel.first_of Vel.first_in deep_get truthy has_field
    descend select split_dots own get_field
evaluate-collect_field_references_example =
    evaluate-collect_field_references env (λ s t. false) condition (context "a") (context "b")
      (refl, (refl, tt))
