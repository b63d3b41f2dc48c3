-- ===== src/System/Requests.antt =====
-- The whole service: any requests, replies and ticks of the workers side by side, in any order of
-- their steps, some stopping half-way (a crash, or a rejected promise of a driver).
use msa_training.Prelude.{ℕ, ◌+◌, String, Option, List, [], ◌∷◌}
use msa_training.Prelude.Int.{ℤ}
use msa_training.Errors.{Result}
use msa_training.Async.{Async, return, call, ◌>>◌}
use msa_training.Async.Logic.{Triple-return, Triple-bind}
use msa_training.Async.Schedule.{Pick, Pool, exec, AllSafe, exec-Safe}
use msa_training.Saga.Contracts.{Reply}
use msa_training.Backend.{Backend, World}
use msa_training.Saga.Orchestrator.{Config, start_order}
use msa_training.Messaging.TimeoutSweep.{sweep}
use msa_training.Messaging.OutboxRelay.{RelayConfig, relay}
use msa_training.Messaging.ReplyConsumer.{on_message}
use msa_training.Application.OrderService.{process_payment_callback}
use msa_training.System.Invariant.{Grows, Grows-refl, Grows-trans, Inv}
use msa_training.System.Documents.{change_rest-Inv}
use msa_training.System.Workers.{Sound, Sound-step, process_payment_callback-Sound, relay-Sound}
use msa_training.System.Entries.{start_order-Sound, on_message-Sound, sweep-Sound}

-- What sets the service going: `POST /api/order` with its saga, a message on `saga.reply`, a tick of
-- either worker, `POST /api/order/callback`, and the time going on.
pub data Request : Type 0 where
  place : (user_email item_id : String) (quantity price : ℤ) (correlation_id : String) → Request
  message : Option (Result Reply) → Request
  sweep_tick : (batch : ℕ) → Request
  relay_tick : Request
  callback : (order_id payment_status : String) → Request
  wait : ℕ → Request

module _ (b : Backend) (c : Config) (rc : RelayConfig) where
  unfoldable pub pass_time : ℕ → World b → Unit {0} × World b
  pass_time n w = (tt, record w { clock = w.clock + n })

  unfoldable pub perform : Request → Async (World b) (Unit {0})
  unfolding pass_time
  perform (place user_email item_id quantity price correlation_id) =
      start_order b c user_email item_id quantity price correlation_id >> return tt
  perform (message m) = on_message b c m >> return tt
  perform (sweep_tick batch) = sweep b c batch
  perform relay_tick = relay b rc
  perform (callback order_id payment_status) =
      process_payment_callback b order_id payment_status >> return tt
  perform (wait n) = call (pass_time n)

  unfoldable pub perform_all : List Request → Pool (World b)
  unfolding perform
  perform_all [] = []
  perform_all (r ∷ rs) = perform r ∷ perform_all rs

  -- The service after a schedule, from a state `w`.
  unfoldable pub serve : List Request → List Pick → World b → World b
  unfolding perform_all exec
  serve rs ps w = (exec ps (perform_all rs) w).1

  end : {A : Type 0} (m : Async (World b) A) → Sound b m → Sound b (m >> return tt)
  end m h = Triple-bind m _ h (λ _. Triple-return (λ _ _ _. tt))

  perform-Sound : (r : Request) → Sound b (perform r)
  unfolding perform pass_time
  perform-Sound (place user_email item_id quantity price correlation_id) =
      end _ (start_order-Sound b c user_email item_id quantity price correlation_id)
  perform-Sound (message m) = end _ (on_message-Sound b c m)
  perform-Sound (sweep_tick batch) = sweep-Sound b c batch
  perform-Sound relay_tick = relay-Sound b rc
  perform-Sound (callback order_id payment_status) =
      end _ (process_payment_callback-Sound b order_id payment_status)
  perform-Sound (wait n) =
      Sound-step b _ _ (λ w i. change_rest-Inv b w (w.clock + n) w.broker w.alerts i)
        (λ _. Triple-return (λ _ _ _. tt))

  perform_all-AllSafe :
      (rs : List Request)
      → AllSafe (Inv b) (Grows b) (Grows-refl b) (Grows-trans b) (perform_all rs)
  unfolding perform_all
  perform_all-AllSafe [] = tt
  perform_all-AllSafe (r ∷ rs) = (perform-Sound r, perform_all-AllSafe rs)

  pub serve-Inv :
      (rs : List Request) (ps : List Pick) (w : World b)
      → Inv b w
      → Inv b (serve rs ps w) × Grows b w (serve rs ps w)
  unfolding serve
  serve-Inv rs ps w i =
      exec-Safe (Inv b) (Grows b) (Grows-refl b) (Grows-trans b) ps (perform_all rs) w i
        (perform_all-AllSafe rs)
