-- ===== src/Persistence.antt =====
-- src/infrastructure/persistence of the order service: the three repositories.
pub mod Sagas
pub mod Orders
pub mod Inventory
