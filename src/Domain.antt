-- ===== src/Domain.antt =====
-- src/domain of the order service: the value objects Money and OrderItem, and the aggregate Order.
-- A constructor that may throw returns a `Result`; amounts and quantities are integers.
pub mod Money
pub mod OrderItem
pub mod Order
pub mod Totals
