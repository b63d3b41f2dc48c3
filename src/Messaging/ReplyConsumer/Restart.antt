-- ===== src/Messaging/ReplyConsumer/Restart.antt =====
-- services/order-service/src/infrastructure/messaging/SagaReplyConsumer.js: `start`, its restarts and
-- `stop`, through the events of the process.
pub mod Alive
use msa_training.Prelude.{ℕ, ◌+◌, ◌-◌, ◌<◌, ◌≡◌, Bool, true, none, some, List, []}
use msa_training.Errors.{Result, ok, err}
use msa_training.Async.{Async, run, ◌>>◌}
use msa_training.Saga.Contracts.{dlq_name, queue_assert_options, queue_name, reply}
use msa_training.Driver.{ask, note}
use msa_training.Messaging.Channel.{Call, get_channel, assert_queue, consume, on_close}
use msa_training.Messaging.Timers.{Held, hold, let_go, clear_timer}

-- `_restartTimer`, the calls of `start` that have not ended, and the channels that are consumed from
-- and whose `close` is listened to
pub record Consumer : Type 0 where
  pub held : Held
  pub starting : ℕ
  pub listening : ℕ

-- the body of the `try` in `start`
unfoldable pub subscribe : (ℕ → Bool) → Async (List Call) (Unit {0})
subscribe granted =
    ask granted get_channel
    >> (ask granted (assert_queue (dlq_name (queue_name reply)) true none)
        >> (ask granted (
              assert_queue (queue_name reply) true (some (queue_assert_options (queue_name reply))))
            >> (ask granted (consume (queue_name reply)) >> note on_close)))

unfoldable pub schedule_restart : Consumer → Consumer
schedule_restart c = record c { held = hold c.held }

-- a call of `start`, up to its first `await`, and its end
unfoldable pub start : Consumer → Consumer
start c = record c { starting = c.starting + 1 }

unfoldable pub start_ended : Result (Unit {0}) → Consumer → Consumer
unfolding schedule_restart
start_ended (ok _) c = record c { starting = c.starting - 1; listening = c.listening + 1 }
start_ended (err _) c = schedule_restart (record c { starting = c.starting - 1 })

-- the listener of the channel's `close`
unfoldable pub channel_closed : Consumer → Consumer
unfolding schedule_restart
channel_closed c = schedule_restart (record c { listening = c.listening - 1 })

-- the callback of the restart's timer, which is no longer live once it fires
unfoldable pub restart : ℕ → Consumer → Consumer
unfolding start
restart handle c =
    start (record c { held = record { timer = none; timers = clear_timer handle c.held.timers } })

unfoldable pub stop : Consumer → Consumer
stop c = record c { held = let_go c.held }

-- What may happen to a consumer that is not stopped: a start ends, with what RabbitMQ grants, a
-- channel closes, or the timer fires.
pub data Step : Consumer → Consumer → Type 0 where
  start_ends :
      (c : Consumer) (granted : ℕ → Bool)
      → 0 < c.starting
      → Step c (start_ended (run (subscribe granted) []).0 c)
  closes : (c : Consumer) → 0 < c.listening → Step c (channel_closed c)
  fires : (c : Consumer) (handle : ℕ) → c.held.timer ≡ some handle → Step c (restart handle c)

-- Any number of these, from one consumer to another.
pub data Steps : Consumer → Consumer → Type 0 where
  here : (c : Consumer) → Steps c c
  then_ : (a b c : Consumer) → Steps a b → Step b c → Steps a c
