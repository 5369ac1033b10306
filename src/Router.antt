-- ===== src/Router.antt =====
-- The service routers of polaris/plugin/service_router.
pub mod Instances
pub mod Metadata
pub mod Canary
pub mod NearbyConfig
pub mod Nearby
pub mod SetDivision
mod Tests
mod SetTests
