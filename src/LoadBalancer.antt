-- ===== src/LoadBalancer.antt =====
-- polaris/plugin/load_balancer: the selectors of the load balancers and what they are made of.
pub mod CircularQueue
pub mod RingHash
pub mod Counting
pub mod WeightedRandom
pub mod LocalityAware
mod Tests
