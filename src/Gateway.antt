-- ===== src/Gateway.antt =====
-- The gateway: how requests are routed to providers (gateway/app).
pub mod Breaker
pub mod Router
pub mod Retry
pub mod Failover
pub mod Samples
pub mod Cache
pub mod Policy
pub mod Sse
pub mod Chunks
pub mod Prefetch
pub mod Requests
pub mod CacheKey
pub mod Decisions
pub mod Streaming
pub mod Chat
pub mod Adapters
mod Tests
