-- ===== src/Saga/Orchestrator.antt =====
-- services/order-service/src/saga/SagaOrchestrator.js: the orchestrator's handlers, each `await` a
-- step of its own.
mod Documents
mod Placement
mod Success
mod Compensation
unfoldable pub use Documents.*
unfoldable pub use Placement.*
unfoldable pub use Success.*
unfoldable pub use Compensation.*
use msa_training.Prelude.{Option, none, some}
use msa_training.Async.{Async, return, ◌>>=◌, ◌>>◌}
use msa_training.Saga.State.{SagaState, started, inventory_reserved, payment_charged, compensating}
use msa_training.Saga.Contracts.{Msg, Reply}
use msa_training.Models.{Saga}
use msa_training.Backend.{Backend, World}
use msa_training.Persistence.Sagas.{find_by_saga_id}

module _ (b : Backend) (c : Config) where
  -- the `switch` of `handleReply`
  unfoldable pub dispatch_reply : Msg → Saga → Reply → Async (World b) (Unit {0})
  unfolding on_payment_succeeded on_points_succeeded on_payment_failed on_points_failed
      on_refund_succeeded on_refund_failed
  dispatch_reply Msg.payment_succeeded g reply = on_payment_succeeded b c g reply
  dispatch_reply Msg.points_succeeded g reply = on_points_succeeded b c g
  dispatch_reply Msg.payment_failed g reply = on_payment_failed b c g
  dispatch_reply Msg.points_failed g reply = on_points_failed b c g
  dispatch_reply Msg.refund_succeeded g reply = on_refund_succeeded b c g
  dispatch_reply Msg.refund_failed g reply = on_refund_failed b c g
  dispatch_reply _ g reply = return tt

  unfoldable pub handle_found : Reply → Option Saga → Async (World b) (Unit {0})
  unfolding dispatch_reply
  handle_found reply none = return tt
  handle_found reply (some g) = dispatch_reply reply.type g reply

  unfoldable pub handle_reply : Reply → Async (World b) (Unit {0})
  unfolding handle_found
  handle_reply reply = do found ← find_by_saga_id b reply.saga_id; handle_found reply found

  -- the `switch` of `handleTimeout`, on the state that the sweep read
  unfoldable pub handle_timeout_in : SagaState → Saga → Async (World b) (Unit {0})
  unfolding reserve_and_advance on_payment_failed on_points_failed retry_or_escalate
  handle_timeout_in started g = reserve_and_advance b c g >> return tt
  handle_timeout_in inventory_reserved g = on_payment_failed b c g
  handle_timeout_in payment_charged g = on_points_failed b c g
  handle_timeout_in compensating g = retry_or_escalate b c g
  handle_timeout_in _ g = return tt

  unfoldable pub handle_timeout : Saga → Async (World b) (Unit {0})
  unfolding handle_timeout_in
  handle_timeout g = handle_timeout_in g.state g
