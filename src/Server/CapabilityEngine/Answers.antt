-- ===== src/Server/CapabilityEngine/Answers.antt =====
-- What the answers of `check` in packages/runtime/src/server/capabilityEngine.ts stand on.
use mathlib.Core.List.{Memᴰ}
use mathlib.Core.Path.{ap₂}
use sovr_protocol.Prelude.{
  ℕ, ◌+◌, ◌≡◌, ◌⊎◌, inl, inr, refl, String, Bool, true, false, not, ◌&&◌, ◌||◌, none, List, [], ◌∷◌,
  ◌++◌, ◌==◌, ◌<◌, arith, Bool-cases, select, includes, eq_refl, subst,
}
use sovr_protocol.Prelude.Maps.{lookup, has, lookup-insert}
use sovr_protocol.Server.CapabilityEngine.{
  GrantedCapability, CapabilityEngine, Environment, cache_ttl_ms, grants_of, revoke, revocation,
  is_expired, covers, Held, alive, expired_match, unmatched, scan, is_internal,
  has_compiled_default, unheld, held_or, decide, cache_key, remember, cached, check,
}

-- The grant is one of the list, covers the request, and is not expired.
pub record IsHeld (env : Environment) (now : ℕ) (actor_id capability_id scope : String)
    (gs : List GrantedCapability) (g : GrantedCapability) : Type 0 where
  pub held : Memᴰ g gs
  pub covering : covers env actor_id capability_id scope g ≡ true
  pub valid : is_expired env now g ≡ false

scan-IsHeld :
    (env : Environment) (now : ℕ) (actor_id capability_id scope : String) (seen : Bool)
    (gs : List GrantedCapability)
    → scan env now actor_id capability_id scope seen gs ≡ alive
    → (g : GrantedCapability) × IsHeld env now actor_id capability_id scope gs g
unfolding scan
scan-IsHeld env now a c s true [] h = cc
scan-IsHeld env now a c s false [] h = cc
scan-IsHeld env now a c s seen (x ∷ gs) h = elim (Bool-cases (covers env a c s x)) [
  | inr e ↦
      let (g, k) = scan-IsHeld env now a c s seen gs (ground (arith, e, h)) in
      (g, record { held = Memᴰ.tail k.held; covering = k.covering; valid = k.valid })
  | inl e ↦ elim (Bool-cases (is_expired env now x)) [
    | inr f ↦ (x, record { held = Memᴰ.head refl; covering = e; valid = f })
    | inl f ↦
        let (g, k) = scan-IsHeld env now a c s true gs (ground (arith, e, f, h)) in
        (g, record { held = Memᴰ.tail k.held; covering = k.covering; valid = k.valid })
  ]
]

Held-cases : (h : Held) → (h ≡ alive) ⊎ (h ≡ expired_match) ⊎ (h ≡ unmatched)
Held-cases alive = inl refl
Held-cases expired_match = inr (inl refl)
Held-cases unmatched = inr (inr refl)

-- What is granted to one that holds nothing: it is not revoked, and the compiled defaults or the
-- developer mode give it.
pub IsDefault : Environment → String → String → CapabilityEngine → Type 0
IsDefault env actor_id capability_id e =
    (includes e.revoked (revocation actor_id capability_id) ≡ false)
    × (((capability_id == "identity.session.create" && has_compiled_default e capability_id)
          || (env.dev_auto_grant && has capability_id e.definitions))
        ≡ true)

unheld-IsDefault :
    (env : Environment) (actor_id capability_id scope : String) (e : CapabilityEngine)
    → (unheld env actor_id capability_id scope e).0 ≡ true
    → IsDefault env actor_id capability_id e
unfolding unheld IsDefault
unheld-IsDefault env a c s e h = elim (Bool-cases (includes e.revoked (revocation a c))) [
  | inl f ↦ cc
  | inr f ↦ (f, ground (arith, f, h))
]

pub IsAllowed : Environment → ℕ → String → String → String → CapabilityEngine → Type 0
IsAllowed env now actor_id capability_id scope e =
    (is_internal actor_id capability_id ≡ true)
    ⊎ ((g : GrantedCapability) × IsHeld env now actor_id capability_id scope
          (grants_of e actor_id ++ grants_of e "*") g)
    ⊎ IsDefault env actor_id capability_id e

decide-IsAllowed :
    (env : Environment) (now : ℕ) (actor_id capability_id scope : String) (e : CapabilityEngine)
    → (decide env now actor_id capability_id scope e).0 ≡ true
    → IsAllowed env now actor_id capability_id scope e
unfolding decide held_or IsAllowed
decide-IsAllowed env now a c s e h =
    let all = grants_of e a ++ grants_of e "*" in
    elim (Bool-cases (is_internal a c)) [
      | inl f ↦ inl f
      | inr f ↦ elim (Held-cases (scan env now a c s false all)) [
        | inl m ↦ inr (inl (scan-IsHeld env now a c s false all m))
        | inr (inl m) ↦ let refused : false ≡ true = ground (arith, f, m, h) in cc
        | inr (inr m) ↦ inr (inr (unheld-IsDefault env a c s e (ground (arith, f, m, h))))
      ]
    ]

-- An answer that does not come from the cache allows a request only when it is an internal one of
-- a system actor, or is covered by a grant of the actor or of everyone that is not expired, or is
-- not revoked and given by the compiled defaults of sessions or by the developer mode.
pub check-IsAllowed :
    (env : Environment) (now : ℕ) (actor_id capability_id scope : String) (e : CapabilityEngine)
    → cached (cache_key actor_id capability_id scope) now e ≡ none
    → (check env now actor_id capability_id scope e).0 ≡ true
    → IsAllowed env now actor_id capability_id scope e
unfolding check remember
check-IsAllowed env now a c s e fresh h =
    decide-IsAllowed env now a c s e (ground (arith, fresh, h))

-- An answer that does not come from the cache is given again, whatever has expired in the meantime,
-- to each such check within the five minutes of the cache, which changes nothing.
pub check_repeats :
    (env : Environment) (now later : ℕ) (actor_id capability_id scope : String)
    (e : CapabilityEngine)
    → cached (cache_key actor_id capability_id scope) now e ≡ none
    → later < now + cache_ttl_ms
    → let out = check env now actor_id capability_id scope e in
      check env later actor_id capability_id scope out.1 ≡ out
unfolding check remember cached
check_repeats env now later a c s e fresh soon =
    let key = cache_key a c s in
    let decided = decide env now a c s e in
    ground (
      arith,
      fresh,
      soon,
      eq_refl key,
      lookup-insert key key (record { result = decided.0; expires = now + cache_ttl_ms })
          decided.1.cache,
    )

-- Once a capability is revoked from an actor other than everyone, the next check of it allows only
-- an internal request of a system actor, or one that is covered by a grant of everyone or by a
-- grant of the actor under another name that is not expired: neither the compiled defaults nor the
-- developer mode give it back.
pub check-revoke :
    (env : Environment) (now : ℕ) (actor_id capability_id scope : String) (e : CapabilityEngine)
    → (actor_id == "*") ≡ false
    → (check env now actor_id capability_id scope (revoke actor_id capability_id e)).0 ≡ true
    → (is_internal actor_id capability_id ≡ true)
      ⊎ ((g : GrantedCapability) × IsHeld env now actor_id capability_id scope
            (select (λ g. not (g.capability_id == capability_id)) (grants_of e actor_id)
              ++ grants_of e "*")
            g)
unfolding IsAllowed IsDefault cached revoke grants_of lookup includes
check-revoke env now a c s e named h =
    let others = select (λ g. not (g.capability_id == c)) (grants_of e a) in
    let own : grants_of (revoke a c e) a ≡ others =
      ground (arith, eq_refl a, lookup-insert a a others e.grants) in
    let shared : grants_of (revoke a c e) "*" ≡ grants_of e "*" =
      ground (arith, named, lookup-insert a "*" others e.grants) in
    elim (check-IsAllowed env now a c s (revoke a c e) refl h) [
      | inl f ↦ inl f
      | inr (inl (g, k)) ↦ inr (
        g,
        record {
          held = subst (λ gs. Memᴰ g gs) (ap₂ (λ x y. x ++ y) own shared) k.held;
          covering = k.covering;
          valid = k.valid;
        },
      )
      | inr (inr (r, d)) ↦
          let refused : false ≡ true = ground (arith, eq_refl (revocation a c), r) in cc
    ]
