-- ===== src/Orchestration/PolicyGateway.antt =====
-- packages/runtime/src/orchestration/policy-gateway/index.ts: the rules that a command must meet.
-- `exceeds a b` is the parameter for `Number(a) > Number(b)`.
pub mod Rules
use Prim.Native.String.{◌++◌ as join}
use sovr_protocol.Prelude.{
  String, Bool, true, false, not, ◌&&◌, ◌||◌, Option, none, some, List, [], ◌∷◌, ◌==◌, map, select,
  includes, if◌then◌else◌,
}
use sovr_protocol.Prelude.Int.{pos}
use sovr_protocol.Prelude.Maps.{Map, insert, delete}
use sovr_protocol.Prelude.Value.{Value, num, str, get, or_else}
use sovr_protocol.Orchestration.{
  SovrCommand, PolicyRule, PolicyAction, allow, deny, escalate, AuthorizationResult,
}

pub record PolicyGateway : Type 0 where
  pub enabled : Bool
  pub rules : Map PolicyRule

unfoldable pub add_rule : PolicyRule → PolicyGateway → PolicyGateway
add_rule rule g = record g { rules = insert rule.rule_id rule g.rules }

unfoldable pub remove_rule : String → PolicyGateway → PolicyGateway
remove_rule id g = record g { rules = delete id g.rules }

unfoldable pub add_rules : List PolicyRule → PolicyGateway → PolicyGateway
unfolding add_rule
add_rules [] g = g
add_rules (r ∷ rs) g = add_rules rs (add_rule r g)

unfoldable pub new_gateway : Bool → List PolicyRule → PolicyGateway
new_gateway enabled rules = add_rules rules (record { enabled = enabled; rules = [] })

-- A list of actors that is missing or empty is met by everyone.
abbrev pub permits_actor : Option (List String) → String → Bool
permits_actor none actor = true
permits_actor (some []) actor = true
permits_actor (some (a ∷ as')) actor = includes (a ∷ as') actor

abbrev pub amount_of : Value → Value
amount_of payload = or_else (or_else (get payload "amount") (get payload "value")) (num (pos 0))

abbrev pub within_amount : (Value → Value → Bool) → Option String → Value → Bool
within_amount exceeds none payload = true
within_amount exceeds (some limit) payload =
    limit == "" || not (exceeds (amount_of payload) (str limit))

abbrev pub domains : List String
domains = "vault" ∷ "treasury" ∷ "payment" ∷ "intent" ∷ "agent" ∷ []

unfoldable pub meets_condition : String → SovrCommand → Bool
meets_condition condition c =
    if condition == "command_exists"
    then not (c.command_type == "")
    else if condition == "actor_authorized"
    then not (c.authorization == "")
    else if condition == "intent_valid"
    then not (c.intent_id == "")
    else if condition == "domain_permitted"
    then includes domains c.domain
    else true

unfoldable pub evaluate_rule : (Value → Value → Bool) → PolicyRule → SovrCommand → Bool
evaluate_rule exceeds rule c =
    permits_actor rule.allowed_actors c.actor
    && within_amount exceeds rule.max_amount c.payload
    && meets_condition rule.condition c

unfoldable pub applies : SovrCommand → PolicyRule → Bool
applies c rule = rule.domain == c.domain || rule.domain == "all"

abbrev decided : Bool → String → Option String → AuthorizationResult
decided authorized reason violation = record {
  authorized = authorized;
  reason = some reason;
  violation = violation;
  grant_id = none;
}

abbrev objection : PolicyRule → SovrCommand → Option AuthorizationResult
objection rule c = elim rule.action [
  | allow ↦ none
  | deny ↦ some (
      decided false
        (join "Policy rule " (join rule.rule_id (join " denied command " c.command_type)))
        (some rule.rule_id))
  | escalate ↦ some (
      decided false (join "Policy rule " (join rule.rule_id " requires escalation"))
        (some rule.rule_id))
]

unfoldable pub run_rules :
    (Value → Value → Bool) → SovrCommand → List PolicyRule → AuthorizationResult
run_rules exceeds c [] = decided true "All policy checks passed" none
run_rules exceeds c (rule ∷ rules) =
    let rest = run_rules exceeds c rules in
    if evaluate_rule exceeds rule c
    then rest
    else elim (objection rule c) [ none ↦ rest | some refusal ↦ refusal ]

unfoldable pub rule_list : PolicyGateway → List PolicyRule
rule_list g = map (λ entry. entry.1) g.rules

unfoldable pub evaluate : (Value → Value → Bool) → SovrCommand → PolicyGateway → AuthorizationResult
evaluate exceeds c g =
    if g.enabled
    then run_rules exceeds c (select (applies c) (rule_list g))
    else decided true "Policy gateway disabled" none
