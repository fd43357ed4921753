-- ===== src/Execution/AuthorityBoundary/Examples.antt =====
-- Checks of one actor with an expired grant and a good one.
use sovr_protocol.Prelude.{
  ℕ, ◌≡◌, refl, String, false, Option, none, some, List, [], ◌∷◌, ◌==◌, includes, any, select,
  find_first, if◌then◌else◌,
}
use sovr_protocol.Prelude.Int.{pos}
use sovr_protocol.Prelude.Result.{ok, err}
use sovr_protocol.Prelude.Value.{undefined, str, obj, field, end, get}
use sovr_protocol.Execution.AuthorityBoundary.{
  CapabilityGrant, AuthorityCheckInput, Environment, granted, is_internal_system_command,
  is_expired, is_revoked, in_scope, find_matching_grant, extract_amount, extract_domain,
  check_constraints, check,
}
use sovr_protocol.Execution.AuthorityBoundary.Grants.{IsAuthorised, check-IsAuthorised}

abbrev grant : String → Option ℕ → CapabilityGrant
grant id expires_at = record {
  grant_id = id;
  actor_id = "alice";
  capability = "vault.asset.move";
  scope = "vault.asset:*";
  granted_by = "root";
  granted_at = 0;
  expires_at = expires_at;
  revoked_at = none;
  constraints = some (record {
    max_amount = some "100";
    max_daily_amount = none;
    allowed_domains = some ("vault" ∷ []);
    allowed_time_window = none;
    allowed_countries = none;
    requires_mfa = none;
    custom_constraints = undefined;
  });
}

abbrev environment : List CapabilityGrant → Environment
environment grants = record {
  is_system_actor = λ a. a == "system";
  get_actor_capabilities = λ a. ok grants;
  matches = λ pattern text. false;
  big_int = λ s.
      if s == "100" then ok (pos 100) else (if s == "7" then ok (pos 7) else err "SyntaxError");
  local_time = λ zone. (1, 12);
  to_iso_string = λ t. "1970-01-01T00:00:00.000Z";
  now = 1000;
}

abbrev input : AuthorityCheckInput
input = record {
  actor_id = "alice";
  command_name = "vault.asset.move";
  aggregate_id = "a1";
  required_capability = "vault.asset.move";
  payload = obj (field "amount" (str "7") (field "domain" (str "vault") end));
  correlation_id = "corr-1";
  command_id = "c1";
}

move_granted : (check (environment (grant "g1" none ∷ [])) input).0 ≡ ok (granted (some "g1"))
unfolding check find_matching_grant select find_first in_scope is_expired is_revoked
    check_constraints extract_amount extract_domain includes any is_internal_system_command get
move_granted = refl

check-IsAuthorised_example : IsAuthorised (environment (grant "g1" none ∷ [])) input (some "g1")
check-IsAuthorised_example =
    check-IsAuthorised (environment (grant "g1" none ∷ [])) input {id = some "g1"} move_granted
