-- ===== src/Utils.antt =====
-- src/utils of the order service.
pub mod CorrelationId
