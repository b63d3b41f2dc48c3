-- ===== src/Interfaces.antt =====
-- src/interfaces of the order service: what it answers over HTTP.
pub mod OrderRoutes
