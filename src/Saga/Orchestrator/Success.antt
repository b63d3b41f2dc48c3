-- ===== src/Saga/Orchestrator/Success.antt =====
-- services/order-service/src/saga/SagaOrchestrator.js: `_onPaymentSucceeded`, `_onPointsSucceeded`.
use msa_training.Prelude.{Bool, true, false, Option, none, some, [], ◌∷◌}
use msa_training.Errors.{OrderStatus}
use msa_training.Async.{Async, return, ◌>>=◌, ◌>>◌}
use msa_training.Saga.State.{
  SagaState, inventory_reserved, payment_charged, points_earned, completed,
}
use msa_training.Saga.Contracts.{payment, points, Reply, ReplyData}
use msa_training.Models.{Saga, StepStatus}
use msa_training.Backend.{Backend, World}
use msa_training.Persistence.Sagas.{compare_and_advance}
use msa_training.Persistence.Orders
use msa_training.Saga.Orchestrator.Documents.{update, earn_command, Config, step_of}

module _ (b : Backend) (c : Config) where
  -- what a lost or won first transition lets follow, with the points switched off
  unfoldable pub complete_unless_lost : Saga → SagaState → Option Saga → Async (World b) (Unit {0})
  complete_unless_lost g from none = return tt
  complete_unless_lost g from (some _) = do
    Orders.update_status b g.order_id OrderStatus.success
    compare_and_advance b g.saga_id from completed none [] []
    return tt

  -- `_onPaymentSucceeded`, by `_pointsEnabled`
  unfoldable pub on_payment_succeeded_with :
      Bool → Saga → Option ReplyData → Async (World b) (Unit {0})
  unfolding complete_unless_lost
  on_payment_succeeded_with true g reply_data = do
    points_step ← step_of points g
    compare_and_advance b g.saga_id inventory_reserved payment_charged (some points)
        (record { name = payment; status = StepStatus.done; reply_data = reply_data } ∷ [])
        (earn_command g points_step.payload ∷ [])
    return tt
  on_payment_succeeded_with false g reply_data = do
    advanced ←
        compare_and_advance b g.saga_id inventory_reserved payment_charged (some points)
          (record { name = payment; status = StepStatus.done; reply_data = reply_data } ∷ []) []
    complete_unless_lost g payment_charged advanced

  unfoldable pub on_payment_succeeded : Saga → Reply → Async (World b) (Unit {0})
  unfolding on_payment_succeeded_with
  on_payment_succeeded g reply = on_payment_succeeded_with c.points_enabled g reply.payload

  unfoldable pub on_points_succeeded : Saga → Async (World b) (Unit {0})
  unfolding complete_unless_lost
  on_points_succeeded g = do
    advanced ←
        compare_and_advance b g.saga_id payment_charged points_earned none
          (update points StepStatus.done ∷ []) []
    complete_unless_lost g points_earned advanced
