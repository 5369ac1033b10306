-- ===== src/Quota.antt =====
-- polaris/quota: the token buckets of a rate limit rule.
pub mod RateLimitRule
pub mod RateLimitData
pub mod TokenBucket
pub mod QpsBucket
mod Tests
mod RuleTests
