-- ===== src/Orchestration/PolicyGateway/Rules.antt =====
-- The verdict of packages/runtime/src/orchestration/policy-gateway/index.ts over all of its rules.
use sovr_protocol.Prelude.{
  ◌≡◌, ◌⊎◌, inl, inr, refl, Bool, true, false, not, ◌||◌, List, [], ◌∷◌, arith, every, select,
}
use sovr_protocol.Prelude.Value.{Value}
use sovr_protocol.Orchestration.{SovrCommand, PolicyRule, PolicyAction, allow, deny, escalate}
use sovr_protocol.Orchestration.PolicyGateway.{
  PolicyGateway, applies, evaluate_rule, run_rules, rule_list, evaluate,
}

abbrev pub is_allow : PolicyAction → Bool
is_allow allow = true
is_allow _ = false

-- A rule that does not stand in the way of the command.
abbrev pub passes : (Value → Value → Bool) → SovrCommand → PolicyRule → Bool
passes exceeds c rule = not (applies c rule) || is_allow rule.action || evaluate_rule exceeds rule c

PolicyAction-cases : (a : PolicyAction) → (a ≡ allow) ⊎ (a ≡ deny) ⊎ (a ≡ escalate)
PolicyAction-cases allow = inl refl
PolicyAction-cases deny = inr (inl refl)
PolicyAction-cases escalate = inr (inr refl)

run_rules_authorized :
    (exceeds : Value → Value → Bool) (c : SovrCommand) (rules : List PolicyRule)
    → (run_rules exceeds c (select (applies c) rules)).authorized ≡ every (passes exceeds c) rules
unfolding run_rules select every
run_rules_authorized exceeds c [] = refl
run_rules_authorized exceeds c (rule ∷ rules) =
    ground (arith, run_rules_authorized exceeds c rules, PolicyAction-cases rule.action)

-- The gateway authorizes a command exactly when it is disabled, or when each of its rules is for
-- another domain, or only allows, or is met by the command.
pub evaluate_authorized :
    (exceeds : Value → Value → Bool) (c : SovrCommand) (g : PolicyGateway)
    → (evaluate exceeds c g).authorized ≡ (not g.enabled || every (passes exceeds c) (rule_list g))
unfolding evaluate
evaluate_authorized exceeds c g = ground (arith, run_rules_authorized exceeds c (rule_list g))
