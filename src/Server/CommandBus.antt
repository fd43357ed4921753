-- ===== src/Server/CommandBus.antt =====
-- packages/runtime/src/server/commandBus.ts: a command through the gates of the bus, the kernel, and
-- what an accepted command does to the capabilities and the projections. The compiled registries are
-- the ones of the kernel. `Number` on a value is a parameter, and so is the reading of the
-- constraints of a grant from its conditions.
use Prim.Native.String.{◌++◌ as join, slice, len, find}
pub mod Submit
pub mod Gates
pub mod Effects
pub mod Answers
mod Examples
use sovr_protocol.Prelude.{
  ℕ, String, Bool, true, false, not, ◌&&◌, ◌||◌, Option, none, some, List, [], ◌∷◌, ◌++◌, map, ◌==◌,
  is_some, or_default, if◌then◌else◌,
}
use sovr_protocol.Prelude.Int.{ℤ, pos, pos_part}
use sovr_protocol.Prelude.Maps.{Map, insert, lookup}
use sovr_protocol.Prelude.Result.{Result, ok, err}
use sovr_protocol.Prelude.Value.{
  Value, undefined, bool, num, str, arr, obj, Items, Fields, field, end, get, get_field, has_field,
  truthy, is_nullish, coalesce, or_else, set_field, fields_of, includes_text, is_text,
}
use sovr_protocol.Prelude.Text.{text_of}
use sovr_protocol.Server.EventStore.{Envelope, Stamp, StoreError}
use sovr_protocol.Server.CapabilityEngine.{GrantedCapability, CapabilityEngine, grants_of, check}
use sovr_protocol.Server.CapabilityEngine as CapabilityEngine
use sovr_protocol.Execution.AuthorityBoundary.{CapabilityGrant, CapabilityConstraints}
use sovr_protocol.Execution.Kernel.{CommandEnvelope, IdentityContext, Kernel, KernelState, contains}
use sovr_protocol.Execution.Kernel.Plan.{PlannedTransition}

-- The envelope that a client sends; the kernel's has no aggregate.
pub record BusCommand : Type 0 where
  pub envelope : CommandEnvelope
  pub aggregate : String

pub record GateResult : Type 0 where
  pub passed : Bool
  pub reason : Option String

pub record CommandCoverage : Type 0 where
  pub command_name : String
  pub has_machine : Bool
  pub is_exempt : Bool
  pub machine : String
  pub exemption : Value

-- `machines` and `exemptions` are the entries of the registries; `exceeds v n` is `Number(v) > n`.
pub record BusEnvironment : Type 0 where
  pub capabilities : CapabilityEngine.Environment
  pub constraints_of : Value → Option CapabilityConstraints
  pub exceeds : Value → ℕ → Bool
  pub machines : Fields
  pub exemptions : Value

-- The clock, the generators and the registries, as one call meets them.
pub record Moment : Type 0 where
  pub now : ℕ
  pub kernel : Kernel
  pub decision_id : String
  pub random_uuid : String
  pub stamp : Stamp

pub record CommandBus : Type 0 where
  pub kernel_state : KernelState
  pub capability_engine : CapabilityEngine
  -- the events that the projections were given, in order
  pub projected : List Envelope

pub record BusAnswer : Type 0 where
  pub accepted : Bool
  pub command_id : String
  pub correlation_id : String
  pub events : List Envelope
  pub transitions : List PlannedTransition
  pub gates : Map GateResult
  pub error : Option String
  pub error_type : Option String

abbrev pub passes : GateResult
passes = record { passed = true; reason = none }

abbrev pub fails : String → GateResult
fails reason = record { passed = false; reason = some reason }

-- `this.commandAuthority.has`, `.get`
abbrev pub knows : Kernel → String → Bool
knows k name = has_field (fields_of k.corpus.commands) name

abbrev pub definition : Kernel → String → Value
definition k name = get k.corpus.commands name

unfoldable pub normalize_command_name : Kernel → String → String → String
normalize_command_name k name source_domain =
    let prefixed = join source_domain (join "." name) in
    if knows k name
    then name
    else if not (source_domain == "") && knows k prefixed
    then prefixed
    else name

-- A given `source_domain` is never missing, so the part of the name before the point is not asked for.
unfoldable pub normalize_command_envelope : Kernel → BusCommand → BusCommand
normalize_command_envelope k c =
    let e = c.envelope in
    let name = normalize_command_name k e.command_name e.source_domain in
    let def = definition k name in
    record {
      envelope = record e {
        command_name = name;
        source_domain = text_of (coalesce (get def "source_domain") (str e.source_domain));
        payload = coalesce e.payload (obj end);
      };
      aggregate = text_of (coalesce (get def "aggregate") (str c.aggregate));
    }

abbrev is_machine_for : Value → Value → String → Value → Bool
is_machine_for domain aggregate name (obj fs) =
    not (name == "abi")
    && is_text (get_field fs "domain") (text_of domain)
    && is_text (get_field fs "aggregate") (text_of aggregate)
is_machine_for domain aggregate name _ = false

unfoldable pub machine_name_for : Value → Value → Fields → String
machine_name_for domain aggregate end = ""
machine_name_for domain aggregate (field name def rest) =
    let later = machine_name_for domain aggregate rest in
    if is_machine_for domain aggregate name def
    then text_of (coalesce (get def "id") (str name))
    else later

abbrev pub first_part : String → String
first_part name = slice name 0 (find name ".")

unfoldable pub coverage_of : BusEnvironment → String → Value → CommandCoverage
coverage_of env name def =
    let domain = coalesce (get def "source_domain") (str (first_part name)) in
    let aggregate = get def "aggregate" in
    let machine = if truthy aggregate then machine_name_for domain aggregate env.machines else "" in
    let exempt = get def "lifecycle_exempt" in
    let exemption = coalesce (get env.exemptions name) (if truthy exempt then def else undefined) in
    record {
      command_name = name;
      has_machine = not (machine == "");
      is_exempt = truthy (coalesce exempt (bool (truthy exemption)));
      machine = machine;
      exemption = exemption;
    }

unfoldable pub build_command_coverage :
    BusEnvironment → Fields → Map CommandCoverage → Map CommandCoverage
build_command_coverage env end coverage = coverage
build_command_coverage env (field name def rest) coverage =
    build_command_coverage env rest (insert name (coverage_of env name def) coverage)

unfoldable pub get_command_coverage : BusEnvironment → Kernel → String → CommandCoverage
get_command_coverage env k name =
    or_default (lookup name (build_command_coverage env (fields_of k.corpus.commands) [])) (record {
      command_name = name;
      has_machine = false;
      is_exempt = false;
      machine = "";
      exemption = undefined;
    })

abbrev issued_by : Value → IdentityContext → GateResult
issued_by (arr types) who =
    if includes_text types who.actor_type
    then passes
    else fails (
        join "UNAUTHORIZED ACTOR TYPE: "
          (join who.actor_type (join " not in " (text_of (arr types)))))
issued_by _ who = passes

unfoldable pub identity_gate : Kernel → CommandEnvelope → GateResult
identity_gate k c =
    let who = c.identity_context in
    if who.identity_id == "" || who.actor_id == ""
    then fails "UNAUTHENTICATED: missing identity_context"
    else issued_by (get (get (definition k c.command_name) "issuer") "actor_types") who

abbrev pub is_internal_call : CommandEnvelope → Bool
is_internal_call c =
    c.capability_id == "system.internal" && c.identity_context.actor_type == "system"

abbrev capability_denied : CommandEnvelope → String
capability_denied c = join "CAPABILITY DENIED: " (
    join c.identity_context.actor_id
      (join " lacks " (join c.capability_id (join " scoped to " c.scope))))

-- The engine's answer may come with a grant by default, and is kept in its cache.
unfoldable pub capability_gate :
    BusEnvironment → ℕ → CommandEnvelope → CapabilityEngine → GateResult × CapabilityEngine
capability_gate env now c e =
    let (held, after) =
      check env.capabilities now c.identity_context.actor_id c.capability_id c.scope e in
    if is_internal_call c
    then (passes, e)
    else (if held then passes else fails (capability_denied c), after)

abbrev pub amount_of : Value → Value
amount_of payload =
    or_else (get payload "amount") (or_else (get payload "face_value") (num (pos 0)))

unfoldable pub policy_gate : BusEnvironment → CommandEnvelope → GateResult
policy_gate env c =
    if env.exceeds (amount_of c.payload) 1000000 && c.identity_context.actor_type == "ai_agent"
    then fails "POLICY ESCALATE: amount exceeds agent limit, mandatory escalation per INV-004"
    else passes

abbrev pub grants_authority : String → Bool
grants_authority name =
    contains name "capability.grant"
    || contains name "capability.bind"
    || contains name "trust_anchor.register"

unfoldable pub constitutional_gate : CommandEnvelope → GateResult
constitutional_gate c =
    if c.identity_context.actor_type == "ai_agent" && grants_authority c.command_name
    then fails "INV-004: ai_agent cannot create/grant financial authority"
    else passes

abbrev map_time : Option ℤ → Option ℕ
map_time none = none
map_time (some t) = some (pos_part t)

-- The grants of the engine, as the authority boundary reads them; a time before 1970 is as late as 0.
abbrev pub grant_view : BusEnvironment → ℕ → GrantedCapability → CapabilityGrant
grant_view env now g = record {
  grant_id = g.capability_id;
  actor_id = g.actor_id;
  capability = g.capability_id;
  scope = g.scope_pattern;
  granted_by = or_default g.granted_by "undefined";
  granted_at = now;
  expires_at = elim g.expires_at [
    | none ↦ none
    | some text ↦ if text == "" then none else map_time (env.capabilities.time_of text)
  ];
  revoked_at = none;
  constraints = env.constraints_of (get g.conditions "constraints");
}

-- The kernel that the bus builds over the engine.
unfoldable pub kernel_at : BusEnvironment → Moment → CapabilityEngine → Kernel
kernel_at env t e = record t.kernel {
  capability_check =
      λ actor capability scope. (check env.capabilities t.now actor capability scope e).0;
  authority = record t.kernel.authority {
    get_actor_capabilities = λ actor. ok (map (grant_view env t.now) (grants_of e actor));
    is_system_actor = λ actor. actor == "system";
  };
}
