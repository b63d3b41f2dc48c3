-- ===== src/Messaging.antt =====
-- src/infrastructure/messaging and producer.js of the order service: the two polling workers, the
-- consumer of replies with its restarts, the connection to RabbitMQ, and what publishes. When an
-- interval fires is left to the schedule.
pub mod Timers
pub mod Channel
pub mod TimeoutSweep
pub mod OutboxRelay
pub mod ReplyConsumer
pub mod Publishers
pub mod Connection
pub mod Polling
