-- ===== src/Tests.antt =====
-- Concrete collections and a concrete backend, on which the definitions run, and the theorems at
-- concrete inputs.
mod Store
mod Shop
mod Guarantees
mod Domain
mod Transitions
mod Stock
mod Placement
mod Callback
mod Failures
mod Process
mod Liveness
mod Balance
mod Recovery
mod Routes
mod Breaker
