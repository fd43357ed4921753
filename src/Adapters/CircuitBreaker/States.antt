-- ===== src/Adapters/CircuitBreaker/States.antt =====
-- The states of packages/runtime/src/adapters/circuit-breaker.ts, one call after another.
use sovr_protocol.Prelude.{
  ℕ, zero, suc, ◌+◌, ◌-◌, ◌≤◌, ◌<◌, ◌≡◌, ◌≢◌, refl, ap, ◌∙◌, false, arith, ltb, leb, or_default,
  Bool-cases, if◌then◌else◌, inl, inr,
}
use sovr_protocol.Prelude.Result.{Result, ok, err}
use sovr_protocol.Adapters.RailDriver.{closed, open_circuit, half_open}
use sovr_protocol.Adapters.RailDriver.Circuit.{is_closed, CircuitState-cases}
use sovr_protocol.Adapters.CircuitBreaker.{
  CircuitBreakerConfig, CircuitBreaker, circuit_open_error, on_success, on_failure, called, execute,
}

abbrev pub IsConsistent : CircuitBreakerConfig → CircuitBreaker → Type 0
IsConsistent config b = is_closed b.state ≡ ltb b.failures config.failure_threshold

called-IsConsistent :
    {E A S : Type 0} (config : CircuitBreakerConfig) (now : ℕ) (b : CircuitBreaker)
    (out : Result E A × S)
    → 1 ≤ config.failure_threshold
    → is_closed b.state ≡ ltb b.failures config.failure_threshold
    → b.state ≢ open_circuit
    → IsConsistent config (called config now b out).1
unfolding on_success on_failure
called-IsConsistent config now b (ok a, s) h c n =
    ground (arith, h, c, n, CircuitState-cases b.state)
called-IsConsistent config now b (err x, s) h c n =
    ground (arith, h, c, n, CircuitState-cases b.state)

-- With a threshold of at least one, every call keeps this: the breaker is closed exactly while the
-- count of failures that it keeps is below the threshold.
pub execute-IsConsistent :
    {E A S : Type 0} (fn : S → Result E A × S) (config : CircuitBreakerConfig) (start finish : ℕ)
    (b : CircuitBreaker) (s : S)
    → 1 ≤ config.failure_threshold
    → IsConsistent config b
    → IsConsistent config (execute fn config start finish b s).1
unfolding execute
execute-IsConsistent fn config start finish b s h c = elim (CircuitState-cases b.state) [
  | inl e ↦ ground (arith, e, called-IsConsistent config finish b (fn s) h c (λ o. cc))
  | inr (inr e) ↦ ground (arith, e, called-IsConsistent config finish b (fn s) h c (λ o. cc))
  | inr (inl e) ↦
      elim (Bool-cases (leb (or_default b.last_failure_time 0 + config.timeout_ms) start)) [
        | inl f ↦ ground (
          arith,
          e,
          f,
          called-IsConsistent config finish (record b { state = half_open; successes = 0 }) (fn s) h
              (ground (arith, e, c)) (λ o. cc),
        )
        | inr f ↦ ground (arith, e, f, c)
      ]
]

-- An open breaker whose time is not up does not call, does not change, and says how long to wait.
pub execute_open :
    {E A S : Type 0} (fn : S → Result E A × S) (config : CircuitBreakerConfig) (start finish : ℕ)
    (b : CircuitBreaker) (s : S)
    → b.state ≡ open_circuit
    → start < or_default b.last_failure_time 0 + config.timeout_ms
    → (wait : ℕ) × (start + wait ≡ or_default b.last_failure_time 0 + config.timeout_ms)
      × (execute fn config start finish b s ≡ (err (circuit_open_error config.name wait), b, s))
unfolding execute
execute_open fn config start finish b s e h =
    let ready = or_default b.last_failure_time 0 + config.timeout_ms in
    let early : leb ready start ≡ false = ground (arith, h) in
    (ready - start, omega (arith, h), rw (e, early) refl)

-- n calls that answer, one after another.
unfoldable pub succeed : CircuitBreakerConfig → ℕ → CircuitBreaker → CircuitBreaker
succeed config zero b = b
succeed config (suc n) b = succeed config n (on_success config b)

on_success_half_open :
    (config : CircuitBreakerConfig) (b : CircuitBreaker)
    → b.state ≡ half_open
    → on_success config b ≡ (
        if leb config.success_threshold (b.successes + 1)
        then record b { state = closed; failures = 0; successes = 0 }
        else record b { successes = b.successes + 1 })
unfolding on_success
on_success_half_open config b e = ground (arith, e)

-- A half-open breaker closes at the call that brings the successes to their threshold, and not
-- before: after fewer successes it is half-open with all of them counted.
pub succeed_lem :
    (config : CircuitBreakerConfig) (n : ℕ) (b : CircuitBreaker)
    → b.state ≡ half_open
    → b.successes < config.success_threshold
    → (b.successes + n < config.success_threshold → (succeed config n b).state ≡ half_open)
      × (b.successes + n ≡ config.success_threshold
          → succeed config n b ≡ record b { state = closed; failures = 0; successes = 0 })
unfolding succeed
succeed_lem config zero b e h = ((λ k. e), λ k. absurd (omega (arith, h, k)))
succeed_lem config (suc n) b e h =
    elim (Bool-cases (leb config.success_threshold (b.successes + 1))) [
      | inl f ↦ (
        (λ k. absurd (ground (arith, f, k))),
        (λ k.
            let none_left : n ≡ 0 = ground (arith, f, h, k) in
            let step : on_success config b
                ≡ record b { state = closed; failures = 0; successes = 0 } =
              ground (arith, on_success_half_open config b e, f) in
            ap (succeed config n) step ∙ rw none_left refl),
      )
      | inr f ↦
          let (before, at) =
            succeed_lem config n (record b { successes = b.successes + 1 }) e (ground (arith, f)) in
          let step : on_success config b ≡ record b { successes = b.successes + 1 } =
            ground (arith, on_success_half_open config b e, f) in
          (
            (λ k. ap (λ x. (succeed config n x).state) step ∙ before (omega (arith, k))),
            (λ k. ap (succeed config n) step ∙ at (omega (arith, k))),
          )
    ]
