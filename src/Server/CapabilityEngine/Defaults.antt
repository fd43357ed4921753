-- ===== src/Server/CapabilityEngine/Defaults.antt =====
-- packages/runtime/src/server/capabilityEngine.ts, `seedCompiledTypeDefaults`: the grants that the
-- definitions give a governance actor when its session starts.
use Prim.Native.String.{◌++◌ as join, slice, len, find}
use sovr_protocol.Prelude.{
  ℕ, zero, suc, ◌+◌, String, Bool, not, ◌&&◌, ◌||◌, some, [], ◌∷◌, ◌==◌, leb, any, if◌then◌else◌,
}
use sovr_protocol.Prelude.Maps.{Map, lookup}
use sovr_protocol.Prelude.Text.{ends_with}
use sovr_protocol.Server.CapabilityEngine.{
  CapabilityDef, CapabilityEngine, grants_of, grant, issued,
}

-- `raw.slice(0, raw.lastIndexOf(':*') + 2)`; each round goes behind one more occurrence.
up_to_last : ℕ → String → String → String
up_to_last zero before s = before
up_to_last (suc rounds) before s =
    let i = find s ":*" in
    let rest = up_to_last rounds (join before (slice s 0 (i + 2))) (slice s (i + 2) (len s)) in
    if leb i (len s) then rest else before

unfoldable pub seeded_scope : String → String
unfolding up_to_last
seeded_scope raw =
    if raw == "*" || ends_with raw ":*" || ends_with raw ".*"
    then raw
    else if leb (find raw ":*") (len raw)
    then up_to_last (len raw) "" raw
    else join raw ":*"

abbrev pub typed_scope : String → CapabilityDef → String
typed_scope actor_type def = elim (lookup actor_type def.default_for_actor_types) [
  | some (some scope) ↦ scope
  | _ ↦ ""
]

abbrev pub is_authority_capability : String → Bool
is_authority_capability k =
    k == "governance.capability.grant" || k == "governance.capability.revoke"

-- One round of the loop over the definitions.
unfoldable pub seed_one :
    String → String → String × CapabilityDef → CapabilityEngine → CapabilityEngine
seed_one actor_id actor_type (capability_id, def) e =
    let scope = typed_scope actor_type def in
    if not (scope == "")
      && actor_type == "governance"
      && is_authority_capability capability_id
      && not (any (λ g. g.capability_id == capability_id) (grants_of e actor_id))
    then grant (issued actor_id capability_id (seeded_scope scope) "system") e
    else e

unfoldable pub seed_all : String → String → Map CapabilityDef → CapabilityEngine → CapabilityEngine
seed_all actor_id actor_type [] e = e
seed_all actor_id actor_type (d ∷ ds) e =
    seed_all actor_id actor_type ds (seed_one actor_id actor_type d e)

unfoldable pub seed_compiled_type_defaults : String → String → CapabilityEngine → CapabilityEngine
seed_compiled_type_defaults actor_id actor_type e =
    if actor_id == "" || actor_type == "" then e else seed_all actor_id actor_type e.definitions e
