-- ===== src/System.antt =====
-- The computations of the order service side by side on one state.
pub mod Moves
pub mod Growth
pub mod Commands
pub mod Steps
pub mod Listing
pub mod Balance
pub mod Standing
pub mod History
pub mod Invariant
pub mod Documents
pub mod Advance
pub mod Sagas
pub mod Stock
pub mod Orders
pub mod Snapshot
pub mod Rules
pub mod Undoing
pub mod Placing
pub mod Completing
pub mod Handlers
pub mod Workers
pub mod Entries
pub mod Requests
pub mod Attempts
pub mod Guarantees
