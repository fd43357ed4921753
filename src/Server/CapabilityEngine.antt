-- ===== src/Server/CapabilityEngine.antt =====
-- packages/runtime/src/server/capabilityEngine.ts: the capabilities that an actor holds, and the cache
-- of the answers about them. `RegExp` on the translated pattern, `Date` on texts, the clock and the
-- switch of the developer mode are parameters. The store that grants are persisted in is left out:
-- its errors are caught, and nothing is read from it but the grants at boot.
use Prim.Native.String.{◌++◌ as join, slice, len}
pub mod Answers
pub mod Defaults
mod Examples
use sovr_protocol.Prelude.{
  ℕ, ◌+◌, ◌-◌, ◌≡◌, String, Bool, true, false, not, ◌&&◌, ◌||◌, Option, none, some, List, [], ◌∷◌,
  ◌++◌, map, ◌==◌, ltb, select, any, includes, if◌then◌else◌, is_some, or_default,
}
use sovr_protocol.Prelude.Int.{ℤ, pos, ltb_ℤ}
use sovr_protocol.Prelude.Maps.{Map, insert, lookup, has}
use sovr_protocol.Prelude.Value.{Value, undefined}
use sovr_protocol.Prelude.Text.{starts_with, ends_with}

-- `default_for_actor_types` has the scope of each actor type that it names.
pub record CapabilityDef : Type 0 where
  pub capability_id : String
  pub scope_pattern : Option String
  pub default_for_actor_types : Map (Option String)

pub record GrantedCapability : Type 0 where
  pub capability_id : String
  pub actor_id : String
  pub scope_pattern : String
  pub granted_by : Option String
  pub expires_at : Option String
  pub conditions : Value

pub record CacheEntry : Type 0 where
  pub result : Bool
  pub expires : ℕ

pub record CapabilityEngine : Type 0 where
  pub definitions : Map CapabilityDef
  pub grants : Map (List GrantedCapability)
  pub revoked : List String
  pub cache : Map CacheEntry

-- `matches` is the test of the translated pattern, false where `RegExp` throws; `time_of` is the
-- time that `Date` reads in a text, in milliseconds, and none where that is not a number.
pub record Environment : Type 0 where
  pub matches : String → String → Bool
  pub time_of : String → Option ℤ
  pub dev_auto_grant : Bool

abbrev pub cache_ttl_ms : ℕ
cache_ttl_ms = 300000

unfoldable pub new_engine : Map CapabilityDef → CapabilityEngine
new_engine definitions = record {
  definitions = definitions;
  grants =
      (
        "governance",
        record {
          capability_id = "governance.*";
          actor_id = "governance";
          scope_pattern = "*";
          granted_by = none;
          expires_at = none;
          conditions = undefined;
        }
            ∷ [],
      )
      ∷ [];
  revoked = [];
  cache = [];
}

unfoldable pub grants_of : CapabilityEngine → String → List GrantedCapability
grants_of e actor_id = or_default (lookup actor_id e.grants) []

abbrev pub revocation : String → String → String
revocation actor_id capability_id = join actor_id (join ":" capability_id)

unfoldable pub grant : GrantedCapability → CapabilityEngine → CapabilityEngine
grant cap e = record e {
  revoked = select (λ k. not (k == revocation cap.actor_id cap.capability_id)) e.revoked;
  grants = insert cap.actor_id (grants_of e cap.actor_id ++ cap ∷ []) e.grants;
  cache = [];
}

unfoldable pub revoke : String → String → CapabilityEngine → CapabilityEngine
revoke actor_id capability_id e = record e {
  grants =
      insert actor_id (select (λ g. not (g.capability_id == capability_id)) (grants_of e actor_id))
        e.grants;
  revoked = revocation actor_id capability_id ∷ e.revoked;
  cache = [];
}

-- The grants that the store has, each behind those of its actor.
unfoldable pub regroup :
    List GrantedCapability → Map (List GrantedCapability) → Map (List GrantedCapability)
regroup [] grants = grants
regroup (g ∷ all) grants =
    regroup all (insert g.actor_id (or_default (lookup g.actor_id grants) [] ++ g ∷ []) grants)

unfoldable pub rebuild_from_store : List GrantedCapability → CapabilityEngine → CapabilityEngine
rebuild_from_store all e = record e { grants = regroup all []; cache = [] }

unfoldable pub matches_scope : Environment → String → String → Bool
matches_scope env pattern_ requested =
    (pattern_ == "" || pattern_ == "*")
    || pattern_ == requested
    || (ends_with pattern_ ":*" || ends_with pattern_ ".*")
    || env.matches pattern_ requested

unfoldable pub cap_matches : String → String → GrantedCapability → Bool
cap_matches actor_id capability_id g =
    g.capability_id == capability_id
    || g.capability_id == "*"
    || (ends_with g.capability_id ".*"
        && starts_with capability_id (slice g.capability_id 0 (len g.capability_id - 2)))
    || (g.capability_id == "governance.*" && actor_id == "governance")

-- An expiry that is empty, or that `Date` does not read, is none.
unfoldable pub is_expired : Environment → ℕ → GrantedCapability → Bool
is_expired env now g = elim g.expires_at [
  | none ↦ false
  | some text ↦
      not (text == "") && elim (env.time_of text) [ none ↦ false | some t ↦ ltb_ℤ t (pos now) ]
]

unfoldable pub covers : Environment → String → String → String → GrantedCapability → Bool
covers env actor_id capability_id scope g =
    cap_matches actor_id capability_id g && matches_scope env g.scope_pattern scope

-- What the loop over the grants ends with: a return, or the end of it with `expiredMatch` or without.
pub data Held : Type 0 where
  alive expired_match unmatched : Held

unfoldable pub scan :
    Environment → ℕ → String → String → String → Bool → List GrantedCapability → Held
scan env now actor_id capability_id scope seen [] = if seen then expired_match else unmatched
scan env now actor_id capability_id scope seen (g ∷ gs) =
    let passed = scan env now actor_id capability_id scope true gs in
    let rest = scan env now actor_id capability_id scope seen gs in
    if covers env actor_id capability_id scope g
    then if is_expired env now g then passed else alive
    else rest

abbrev pub is_internal : String → String → Bool
is_internal actor_id capability_id =
    capability_id == "system.internal" && (actor_id == "system" || starts_with actor_id "system")

abbrev pub has_compiled_default : CapabilityEngine → String → Bool
has_compiled_default e capability_id = elim (lookup capability_id e.definitions) [
  | none ↦ false
  | some def ↦ any (λ entry. not (entry.0 == "abi")) def.default_for_actor_types
]

abbrev pub compiled_scope : CapabilityEngine → String → String
compiled_scope e capability_id = elim (lookup capability_id e.definitions) [
  | none ↦ "session:self:*"
  | some def ↦ or_default def.scope_pattern "session:self:*"
]

abbrev pub issued : String → String → String → String → GrantedCapability
issued actor_id capability_id scope by = record {
  capability_id = capability_id;
  actor_id = actor_id;
  scope_pattern = scope;
  granted_by = some by;
  expires_at = none;
  conditions = undefined;
}

-- Behind the loop: the revocation, the compiled default of sessions, and the developer mode.
unfoldable pub unheld :
    Environment → String → String → String → CapabilityEngine → Bool × CapabilityEngine
unheld env actor_id capability_id scope e =
    if includes e.revoked (revocation actor_id capability_id)
    then (false, e)
    else if capability_id == "identity.session.create" && has_compiled_default e capability_id
    then (true, grant (issued actor_id capability_id (compiled_scope e capability_id) "system") e)
    else if env.dev_auto_grant && has capability_id e.definitions
    then (true, grant (issued actor_id capability_id scope "dev_auto_grant") e)
    else (false, e)

unfoldable pub held_or :
    Environment → String → String → String → CapabilityEngine → Held → Bool × CapabilityEngine
held_or env actor_id capability_id scope e alive = (true, e)
held_or env actor_id capability_id scope e expired_match = (false, e)
held_or env actor_id capability_id scope e unmatched = unheld env actor_id capability_id scope e

unfoldable pub decide :
    Environment → ℕ → String → String → String → CapabilityEngine → Bool × CapabilityEngine
decide env now actor_id capability_id scope e =
    let all = grants_of e actor_id ++ grants_of e "*" in
    if is_internal actor_id capability_id
    then (true, e)
    else held_or env actor_id capability_id scope e
        (scan env now actor_id capability_id scope false all)

abbrev pub cache_key : String → String → String → String
cache_key actor_id capability_id scope =
    join actor_id (join ":" (join capability_id (join ":" scope)))

-- `this.cache.set(cacheKey, ...)`, on every way that does not answer from the cache.
unfoldable pub remember : String → ℕ → Bool × CapabilityEngine → Bool × CapabilityEngine
remember key now (result, e) = (
  result,
  record e {
    cache = insert key (record { result = result; expires = now + cache_ttl_ms }) e.cache;
  },
)

unfoldable pub cached : String → ℕ → CapabilityEngine → Option Bool
cached key now e = elim (lookup key e.cache) [
  | none ↦ none
  | some c ↦ if ltb now c.expires then some c.result else none
]

unfoldable pub check :
    Environment → ℕ → String → String → String → CapabilityEngine → Bool × CapabilityEngine
check env now actor_id capability_id scope e =
    let key = cache_key actor_id capability_id scope in
    elim (cached key now e) [
      | some result ↦ (result, e)
      | none ↦ remember key now (decide env now actor_id capability_id scope e)
    ]
