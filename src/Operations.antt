-- ===== src/Operations.antt =====
-- What the operations and handlers do when nothing comes in between.
pub mod Reservation
pub mod Callback
pub mod Outcome
pub mod Placement
pub mod Refusal
pub mod Replies
pub mod Retry
pub mod Routes
pub mod Compensation
pub mod Same
pub mod Transition
pub mod Escalation
pub mod Book
pub mod Relay
pub mod Return
pub mod Conservation
pub mod Reading
pub mod Resumption
pub mod Timeouts
pub mod Success
pub mod Ordering
pub mod OrderQueue
