-- ===== src/CircuitBreaker.antt =====
-- polaris/plugin/circuit_breaker: the chain's shared status table and the two instance breakers.
pub mod Status
pub mod ChainData
pub mod Agreement
pub mod Slots
pub mod ErrorCount
pub mod ErrorRate
mod Tests
mod RateTests
