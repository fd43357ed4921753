-- ===== src/Adapters/CircuitBreaker/Examples.antt =====
-- A breaker with a threshold of two failures and of two successes.
use sovr_protocol.Prelude.{ℕ, suc, ◌≡◌, refl, String, some, arith}
use sovr_protocol.Prelude.Result.{Result, err}
use sovr_protocol.Adapters.RailDriver.{open_circuit, half_open}
use sovr_protocol.Adapters.CircuitBreaker.{
  CircuitBreakerConfig, CircuitBreaker, new_breaker, on_failure, execute,
}
use sovr_protocol.Adapters.CircuitBreaker.States.{IsConsistent, execute-IsConsistent}

abbrev config : CircuitBreakerConfig
config = record { failure_threshold = 2; success_threshold = 2; timeout_ms = 1000; name = "rail" }

abbrev down : ℕ → Result String ℕ × ℕ
down calls = (err "no connection", suc calls)

abbrev once : CircuitBreaker
once = (execute down config 10 20 new_breaker 0).1

abbrev opened : CircuitBreaker
opened = record { state = open_circuit; failures = 2; successes = 0; last_failure_time = some 20 }

opens_at_two : (execute down config 15 20 once 1).1 ≡ opened
unfolding execute on_failure new_breaker
opens_at_two = refl

execute-IsConsistent_example : IsConsistent config once
unfolding new_breaker
execute-IsConsistent_example =
    execute-IsConsistent down config 10 20 new_breaker 0 (omega arith) refl

abbrev probing : CircuitBreaker
probing = record { state = half_open; failures = 2; successes = 0; last_failure_time = some 20 }
