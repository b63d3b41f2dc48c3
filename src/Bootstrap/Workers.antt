-- ===== src/Bootstrap/Workers.antt =====
-- services/order-service/index.js: the workers that the process starts, with the timers that each holds,
-- and the clean-up that its shutdown is given.
use msa_training.Prelude.{ℕ, ◌+◌, ◌≤◌, ◌≡◌, refl, ap, ◌∙◌, none, [], length, arith}
use msa_training.Messaging.Timers.{
  Held, IsOwned, handles, let_go, hold-IsOwned, let_go-IsOwned, let_go-none, few,
}
use msa_training.Messaging.Polling.{start_relay, stop_relay, start_sweep, stop_sweep}
use msa_training.Messaging.ReplyConsumer.Restart.{Consumer, Step, start, stop}
use msa_training.Messaging.ReplyConsumer.Restart.Alive.{fresh, step-IsOwned}

pub record Workers : Type 0 where
  pub relay : Held
  pub sweep : Held
  pub consumer : Consumer

unfoldable pub start_workers : Workers → Workers
start_workers w = record {
  relay = start_relay w.relay;
  sweep = start_sweep w.sweep;
  consumer = start w.consumer;
}

unfoldable pub clean_up : Workers → Workers
clean_up w = record {
  relay = stop_relay w.relay;
  sweep = stop_sweep w.sweep;
  consumer = stop w.consumer;
}

-- What may happen to the workers: they are started, they are stopped, and the consumer goes on.
pub data Turn : Workers → Workers → Type 0 where
  start_all : (w : Workers) → Turn w (start_workers w)
  stop_all : (w : Workers) → Turn w (clean_up w)
  consumer_goes :
      (w : Workers) (c : Consumer) → Step w.consumer c → Turn w (record w { consumer = c })

pub data Turns : Workers → Workers → Type 0 where
  here : (w : Workers) → Turns w w
  next_turn : (a b c : Workers) → Turns a b → Turn b c → Turns a c

abbrev IsTidy : Workers → Type 0
IsTidy w = IsOwned w.relay × IsOwned w.sweep × IsOwned w.consumer.held

Turn-IsTidy : (a b : Workers) → Turn a b → IsTidy a → IsTidy b
unfolding start_workers clean_up start_relay start_sweep stop_relay stop_sweep start stop
Turn-IsTidy _ _ (start_all w) (r, s, c) = (hold-IsOwned w.relay r, hold-IsOwned w.sweep s, c)
Turn-IsTidy _ _ (stop_all w) (r, s, c) =
    (let_go-IsOwned w.relay r, let_go-IsOwned w.sweep s, let_go-IsOwned w.consumer.held c)
Turn-IsTidy _ _ (consumer_goes w c' step) (r, s, c) = (r, s, step-IsOwned w.consumer c' step c)

Turns-IsTidy : (a b : Workers) → Turns a b → IsTidy a → IsTidy b
Turns-IsTidy _ _ (here w) h = h
Turns-IsTidy _ _ (next_turn a b c before last) h = Turn-IsTidy b c last (Turns-IsTidy a b before h)

abbrev pub idle : Held
idle = record { timer = none; timers = record { live = []; next = 0 } }

abbrev pub at_rest : Workers
at_rest = record { relay = idle; sweep = idle; consumer = fresh 0 }

-- The timers that are live.
abbrev pub live : Workers → ℕ
live w =
    length w.relay.timers.live + length w.sweep.timers.live + length w.consumer.held.timers.live

emptied : (h : Held) → IsOwned h → length (let_go h).timers.live ≡ 0
emptied h own = ap length (let_go-IsOwned h own ∙ ap handles (let_go-none h))

-- However often the workers are started and stopped, and whatever befalls the consumer, at most three
-- timers are live, one for each worker, and the shutdown's clean-up leaves none.
pub timers_bounded : (w : Workers) → Turns at_rest w → live w ≤ 3 × live (clean_up w) ≡ 0
unfolding clean_up stop_relay stop_sweep stop
timers_bounded w turns =
    let (r, s, c) = Turns-IsTidy at_rest w turns (refl, refl, refl) in
    (
      omega (arith, few w.relay r, few w.sweep s, few w.consumer.held c),
      omega (arith, emptied w.relay r, emptied w.sweep s, emptied w.consumer.held c),
    )
