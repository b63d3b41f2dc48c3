-- ===== src/Infrastructure.antt =====
-- infrastructure and src/infrastructure of the order service, less persistence and messaging.
pub mod Consul
pub mod Metrics
pub mod CircuitBreaker
