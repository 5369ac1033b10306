-- ===== src/Model.antt =====
-- polaris/model: what the SDK keeps about a service.
pub mod HalfOpen
mod Tests
