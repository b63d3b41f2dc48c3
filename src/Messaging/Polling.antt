-- ===== src/Messaging/Polling.antt =====
-- `start` and `stop` of OutboxRelayWorker.js and TimeoutSweepWorker.js: the interval that a worker
-- holds. What it runs is `relay` of OutboxRelay and `sweep` of TimeoutSweep.
use msa_training.Messaging.Timers.{Held, hold, let_go}

unfoldable pub start_relay : Held → Held
start_relay h = hold h

unfoldable pub stop_relay : Held → Held
stop_relay h = let_go h

unfoldable pub start_sweep : Held → Held
start_sweep h = hold h

unfoldable pub stop_sweep : Held → Held
stop_sweep h = let_go h
