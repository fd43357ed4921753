-- ===== src/Server/CapabilityEngine/Examples.antt =====
-- A clerk with a grant that expires at 500, and what is answered before and after.
use sovr_protocol.Prelude.{
  ◌≡◌, ◌⊎◌, refl, String, true, false, Option, none, some, [], ◌++◌, ◌==◌, not, select,
}
use sovr_protocol.Prelude.Int.{pos}
use sovr_protocol.Prelude.Maps.{insert, lookup}
use sovr_protocol.Prelude.Value.{undefined}
use sovr_protocol.Server.CapabilityEngine.{
  GrantedCapability, CapabilityEngine, Environment, new_engine, grants_of, grant, revoke,
  matches_scope, cap_matches, is_expired, covers, is_internal, scan, held_or, decide, remember,
  cached, check,
}
use sovr_protocol.Server.CapabilityEngine.Answers.{IsHeld, IsAllowed, check-IsAllowed, check-revoke}

-- Every text is read as the time 500.
abbrev env : Environment
env = record { matches = λ p s. false; time_of = λ t. some (pos 500); dev_auto_grant = false }

abbrev pay : Option String → GrantedCapability
pay expires = record {
  capability_id = "treasury.pay";
  actor_id = "clerk";
  scope_pattern = "treasury:*";
  granted_by = some "governance";
  expires_at = expires;
  conditions = undefined;
}

abbrev wide : GrantedCapability
wide = record (pay none) { capability_id = "treasury.*" }

abbrev engine : CapabilityEngine
engine = grant (pay (some "500")) (new_engine [])

abbrev wider : CapabilityEngine
wider = grant wide engine

before : (check env 400 "clerk" "treasury.pay" "treasury:1" engine).0 ≡ true
unfolding check grant new_engine grants_of insert lookup select cached decide held_or scan covers
    cap_matches matches_scope is_expired remember
before = refl

after : (check env 600 "clerk" "treasury.pay" "treasury:1" engine).0 ≡ false
unfolding check grant new_engine grants_of insert lookup select cached decide held_or scan covers
    cap_matches matches_scope is_expired remember
after = refl

-- The answer of 400 is given again at 600.
stale :
    (check env 600 "clerk" "treasury.pay" "treasury:1"
      (check env 400 "clerk" "treasury.pay" "treasury:1" engine).1).0
    ≡ true
unfolding check grant new_engine grants_of insert lookup select cached decide held_or scan covers
    cap_matches matches_scope is_expired remember
stale = refl

check-IsAllowed_example : IsAllowed env 400 "clerk" "treasury.pay" "treasury:1" engine
unfolding grant new_engine lookup cached
check-IsAllowed_example =
    check-IsAllowed env 400 "clerk" "treasury.pay" "treasury:1" engine refl before

still_wide :
    (check env 600 "clerk" "treasury.pay" "treasury:1" (revoke "clerk" "treasury.pay" wider)).0
    ≡ true
unfolding check grant revoke new_engine grants_of insert lookup select cached decide held_or scan
    covers cap_matches matches_scope is_expired remember
still_wide = refl

check-revoke_example :
    (is_internal "clerk" "treasury.pay" ≡ true)
    ⊎ ((g : GrantedCapability) × IsHeld env 600 "clerk" "treasury.pay" "treasury:1"
          (select (λ g. not (g.capability_id == "treasury.pay")) (grants_of wider "clerk")
            ++ grants_of wider "*")
          g)
check-revoke_example =
    check-revoke env 600 "clerk" "treasury.pay" "treasury:1" wider refl still_wide
