-- ===== src/CircuitBreaker/Status.antt =====
-- The status enumeration of include/polaris/plugin.h and the small types that the chain and the
-- breakers share. `K` is the type of `std::string` values, of which only equality is used.
use polaris_cpp.Base.{ℕ}

-- `open` is a reserved word here, so kCircuitBreakerOpen is `opened`.
pub data CircuitBreakerStatus : Type 0 where
  close half_open opened preserved : CircuitBreakerStatus

unfoldable pub CircuitBreakerStatus-discrete : Discrete CircuitBreakerStatus
CircuitBreakerStatus-discrete = hlevel

pub data CallRetStatus : Type 0 where
  call_ret_ok call_ret_timeout call_ret_error : CallRetStatus

-- What the clocks show while a call runs: `GetSystemTimeMs` and `GetCoarseSteadyTimeMs`.
pub record Clock : Type 0 where
  pub system : ℕ
  pub steady : ℕ
