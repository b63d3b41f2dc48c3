-- ===== src/Application.antt =====
-- src/application of the order service.
pub mod OrderService
