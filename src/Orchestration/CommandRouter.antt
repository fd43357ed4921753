-- ===== src/Orchestration/CommandRouter.antt =====
-- packages/runtime/src/orchestration/command-router/index.ts: the route of a command, and whether its
-- authorization fits the route.
use Prim.Native.String.{◌++◌ as join}
use sovr_protocol.Prelude.{
  String, Bool, true, false, not, ◌&&◌, none, some, List, [], ◌∷◌, ◌++◌, ◌==◌, or_default,
  if◌then◌else◌,
}
use sovr_protocol.Prelude.Maps.{Map, insert, lookup}
use sovr_protocol.Orchestration.{SovrCommand, CommandRoute, AuthorizationResult}

pub record RoutedCommand : Type 0 where
  pub command : SovrCommand
  pub route : CommandRoute
  pub timestamp : String

pub record CommandRouter : Type 0 where
  pub routes : Map CommandRoute
  pub default_handler : String
  pub audit_enabled : Bool
  pub audit_log : List RoutedCommand

unfoldable pub add_routes : List CommandRoute → Map CommandRoute → Map CommandRoute
add_routes [] routes = routes
add_routes (r ∷ rs) routes = add_routes rs (insert r.command_type r routes)

unfoldable pub new_router : List CommandRoute → String → Bool → CommandRouter
unfolding add_routes
new_router routes default_handler audit_enabled = record {
  routes = add_routes routes [];
  default_handler = default_handler;
  audit_enabled = audit_enabled;
  audit_log = [];
}

abbrev refused : String → String → AuthorizationResult
refused reason violation = record {
  authorized = false;
  reason = some reason;
  violation = some violation;
  grant_id = none;
}

unfoldable pub evaluate_authorization : SovrCommand → CommandRoute → AuthorizationResult
evaluate_authorization c r =
    if c.authorization == ""
    then refused "Missing authorization" "MISSING_AUTHORIZATION"
    else if r.ledger_mutation_allowed && not (c.authorization == "LEDGER_MUTATION_AUTHORIZED")
    then refused "Ledger mutation requires explicit authorization" "UNAUTHORIZED_LEDGER_MUTATION"
    else if not r.ledger_mutation_allowed && c.authorization == "LEDGER_MUTATION_AUTHORIZED"
    then refused "Command does not permit ledger mutation" "EXCESSIVE_AUTHORIZATION"
    else record {
      authorized = true;
      reason = some "Authorized";
      violation = none;
      grant_id = some (join "grant_" c.command_id);
    }

unfoldable pub route_of : CommandRouter → SovrCommand → CommandRoute
route_of router c = or_default (lookup c.command_type router.routes) (record {
  command_type = c.command_type;
  domain = "vault";
  handler = router.default_handler;
  required_capability = "system.internal";
  policy_gate_required = true;
  ledger_mutation_allowed = false;
})

unfoldable pub log_route : String → SovrCommand → CommandRouter → CommandRouter
log_route now c router =
    if router.audit_enabled
    then record router {
      audit_log =
          router.audit_log
          ++ record { command = c; route = route_of router c; timestamp = now } ∷ [];
    }
    else router

unfoldable pub route :
    String → SovrCommand → CommandRouter → (CommandRoute × AuthorizationResult) × CommandRouter
route now c router =
    let r = route_of router c in ((r, evaluate_authorization c r), log_route now c router)
