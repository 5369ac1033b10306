-- ===== src/Rule.antt =====
-- Routing by rules: polaris/model/match_string.cpp and the rules of polaris/model/route_rule*.cpp,
-- and polaris/plugin/service_router/rule_router.cpp.
pub mod MatchString
pub mod Source
pub mod Destination
pub mod RouteRule
pub mod RouteMatch
pub mod Cluster
pub mod Choice
pub mod Routing
mod Tests
