-- ===== src/Messaging/ReplyConsumer/Restart/Alive.antt =====
-- A consumer that is not stopped never stays without a channel and without a way to one.
use msa_training.Prelude.{
  ℕ, ◌+◌, ◌≤◌, ◌<◌, ◌≡◌, refl, ap, ◌∙◌, Option, none, some, [], length, arith,
}
use msa_training.Errors.{Result, ok, err}
use msa_training.Messaging.Timers.{
  Timers, IsOwned, handles, hold, hold-IsOwned, let_go-IsOwned, let_go-none, few, remove,
  remove-handle,
}
use msa_training.Messaging.ReplyConsumer.Restart.{
  Consumer, Step, Steps, start_ends, closes, fires, here, then_, start, start_ended, channel_closed,
  restart, schedule_restart, stop,
}

-- What it waits for: starts, closes of its channels, and live timers.
abbrev pub awaited : Consumer → ℕ
awaited c = c.starting + c.listening + length c.held.timers.live

abbrev IsAlive : Consumer → Type 0
IsAlive c = IsOwned c.held × 0 < awaited c

schedule-IsAlive : (c : Consumer) → IsOwned c.held → IsAlive (schedule_restart c)
unfolding schedule_restart
schedule-IsAlive c own = (hold-IsOwned c.held own, waits c.held.timer c.held.timers own)
  where
    waits :
        (timer : Option ℕ) (timers : Timers)
        → timers.live ≡ handles timer
        → 0
          < c.starting
            + c.listening
            + length (hold (record { timer = timer; timers = timers })).timers.live
    waits none timers own = omega arith
    waits (some h) timers own = rw own (omega arith)

ended-IsAlive : (r : Result (Unit {0})) (c : Consumer) → IsOwned c.held → IsAlive (start_ended r c)
unfolding start_ended
ended-IsAlive (ok _) c own = (own, omega arith)
ended-IsAlive (err _) c own = schedule-IsAlive _ own

pub step-IsOwned : (a b : Consumer) → Step a b → IsOwned a.held → IsOwned b.held
unfolding channel_closed restart start schedule_restart
step-IsOwned _ _ (start_ends c granted some_) own = (ended-IsAlive _ c own).0
step-IsOwned _ _ (closes c some_) own = hold-IsOwned c.held own
step-IsOwned _ _ (fires c handle e) own =
    ap (λ l. remove handle l) (own ∙ ap handles e) ∙ remove-handle handle

step-IsAlive : (a b : Consumer) → Step a b → IsAlive a → IsAlive b
unfolding channel_closed restart start
step-IsAlive _ _ (start_ends c granted some_) (own, h) = ended-IsAlive _ c own
step-IsAlive _ _ (closes c some_) (own, h) = schedule-IsAlive _ own
step-IsAlive _ _ (fires c handle e) (own, h) =
    (step-IsOwned _ _ (fires c handle e) own, omega arith)

Steps-IsAlive : (a b : Consumer) → Steps a b → IsAlive a → IsAlive b
Steps-IsAlive _ _ (here c) alive = alive
Steps-IsAlive _ _ (then_ a b c before last) alive =
    step-IsAlive b c last (Steps-IsAlive a b before alive)

-- A consumer that nobody has started; `n` is the next handle.
abbrev pub fresh : ℕ → Consumer
fresh n = record {
  held = record { timer = none; timers = record { live = []; next = n } };
  starting = 0;
  listening = 0;
}

-- Once started and until it is stopped, a consumer always has a start under way, a channel whose close
-- it will hear of or a restart that is scheduled, and never two restarts. Stopping it leaves no timer.
pub consumer_waits :
    (n : ℕ) (c : Consumer)
    → Steps (start (fresh n)) c
    → 0 < awaited c × length c.held.timers.live ≤ 1 × (stop c).held.timers.live ≡ []
unfolding start stop
consumer_waits n c steps =
    let (own, waits) = Steps-IsAlive (start (fresh n)) c steps (refl, omega arith) in
    (waits, few c.held own, let_go-IsOwned c.held own ∙ ap handles (let_go-none c.held))
