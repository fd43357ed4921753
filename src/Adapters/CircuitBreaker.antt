-- ===== src/Adapters/CircuitBreaker.antt =====
-- packages/runtime/src/adapters/circuit-breaker.ts: the breaker around a call, which is a parameter.
pub mod States
mod Examples
use sovr_protocol.Prelude.{
  ℕ, ◌+◌, ◌-◌, String, Bool, Option, none, some, leb, or_default, if◌then◌else◌,
}
use sovr_protocol.Prelude.Result.{Result, ok, err}
use sovr_protocol.Adapters.RailDriver.{CircuitState, closed, open_circuit, half_open}

pub record CircuitBreakerConfig : Type 0 where
  pub failure_threshold : ℕ
  pub success_threshold : ℕ
  pub timeout_ms : ℕ
  pub name : String

pub record CircuitBreaker : Type 0 where
  pub state : CircuitState
  pub failures : ℕ
  pub successes : ℕ
  pub last_failure_time : Option ℕ

unfoldable pub new_breaker : CircuitBreaker
new_breaker = record { state = closed; failures = 0; successes = 0; last_failure_time = none }

-- `CircuitOpenError`, with the time to wait, or what the call throws.
pub data BreakerError (E : Type 0) : Type 0 where
  circuit_open_error : String → ℕ → BreakerError E
  call_error : E → BreakerError E

unfoldable pub on_success : CircuitBreakerConfig → CircuitBreaker → CircuitBreaker
on_success config b = elim b.state [
  | half_open ↦
      if leb config.success_threshold (b.successes + 1)
      then record b { state = closed; failures = 0; successes = 0 }
      else record b { successes = b.successes + 1 }
  | _ ↦ record b { failures = 0 }
]

unfoldable pub on_failure : CircuitBreakerConfig → ℕ → CircuitBreaker → CircuitBreaker
on_failure config now b =
    let failed = record b { failures = b.failures + 1; last_failure_time = some now } in
    if leb config.failure_threshold (b.failures + 1)
    then record failed { state = open_circuit }
    else failed

abbrev pub called :
    {E A S : Type 0}
    → CircuitBreakerConfig
    → ℕ
    → CircuitBreaker
    → Result E A × S
    → Result (BreakerError E) A × CircuitBreaker × S
called config now b (ok a, s) = (ok a, on_success config b, s)
called config now b (err x, s) = (err (call_error x), on_failure config now b, s)

-- `start` is the time of the call, `finish` that of its end.
unfoldable pub execute :
    {E A S : Type 0}
    → (S → Result E A × S)
    → CircuitBreakerConfig
    → ℕ
    → ℕ
    → CircuitBreaker
    → S
    → Result (BreakerError E) A × CircuitBreaker × S
execute fn config start finish b s =
    let ready = or_default b.last_failure_time 0 + config.timeout_ms in
    let through = called config finish b (fn s) in
    let probed = called config finish (record b { state = half_open; successes = 0 }) (fn s) in
    elim b.state [
      | open_circuit ↦
          if leb ready start
          then probed
          else (err (circuit_open_error config.name (ready - start)), b, s)
      | _ ↦ through
    ]
