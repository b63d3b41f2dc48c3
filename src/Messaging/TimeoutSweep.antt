-- ===== src/Messaging/TimeoutSweep.antt =====
-- services/order-service/src/infrastructure/messaging/TimeoutSweepWorker.js
use msa_training.Prelude.{ℕ, String, List, [], ◌∷◌}
use msa_training.Async.{Async, return, call, catch, ◌>>=◌, ◌>>◌}
use msa_training.Models.{Saga}
use msa_training.Backend.{Backend, World, timeout_not_handled}
use msa_training.Persistence.Sagas.{find_timed_out}
use msa_training.Saga.Orchestrator.{Config, handle_timeout}

module _ (b : Backend) (c : Config) where
  -- the error line of one saga; the rest of the batch goes on
  unfoldable pub log_failure : Saga → World b → Unit {0} × World b
  log_failure g w = (tt, record w { alerts = timeout_not_handled g.saga_id ∷ w.alerts })

  unfoldable pub sweep_one : Saga → Async (World b) (Unit {0})
  sweep_one g = catch (handle_timeout b c g) (λ _. call (log_failure g))

  unfoldable pub sweep_all : List (String × Saga) → Async (World b) (Unit {0})
  unfolding sweep_one
  sweep_all [] = return tt
  sweep_all ((_, g) ∷ gs) = sweep_one g >> sweep_all gs

  -- `tick`
  unfoldable pub sweep : ℕ → Async (World b) (Unit {0})
  unfolding sweep_all
  sweep batch = do timed_out ← call (λ w. find_timed_out b w.clock batch w); sweep_all timed_out
