-- ===== src/Saga/Orchestrator/Compensation.antt =====
-- services/order-service/src/saga/SagaOrchestrator.js: the failures, and their compensations.
use msa_training.Prelude.{ℕ, ◌+◌, Option, none, some, [], ◌∷◌, leb, if◌then◌else◌}
use msa_training.Errors.{OrderStatus}
use msa_training.Async.{Async, return, call, ◌>>=◌, ◌>>◌}
use msa_training.Saga.State.{
  SagaState, inventory_reserved, payment_charged, compensating, failed, compensation_failed,
}
use msa_training.Saga.Contracts.{inventory, payment, points}
use msa_training.Models.{Saga, SagaStep, StepStatus}
use msa_training.Backend.{Backend, World, compensation_given_up}
use msa_training.Persistence.Sagas.{compare_and_advance, retry_compensation}
use msa_training.Persistence.Orders
use msa_training.Persistence.Inventory
use msa_training.Saga.Orchestrator.Documents.{
  find_step, update, refund_command, compensated_steps, payment_id_of, Config, step_of, stock_of,
}

module _ (b : Backend) (c : Config) where
  -- the compensation that the winner of the entry into COMPENSATING makes
  unfoldable pub compensate_stock : Saga → Option Saga → Async (World b) (Unit {0})
  unfolding find_step
  compensate_stock g none = return tt
  compensate_stock g (some _) = do
    inv_step ← step_of inventory g
    (item_id, quantity) ← stock_of inv_step.payload
    Inventory.release b item_id quantity g.saga_id
    Orders.update_status b g.order_id OrderStatus.failed
    compare_and_advance b g.saga_id compensating failed none
        (update inventory StepStatus.compensated ∷ []) []
    return tt

  unfoldable pub on_payment_failed : Saga → Async (World b) (Unit {0})
  unfolding compensate_stock
  on_payment_failed g = do
    advanced ←
        compare_and_advance b g.saga_id inventory_reserved compensating none
          (update payment StepStatus.failed ∷ []) []
    compensate_stock g advanced

  unfoldable pub on_points_failed : Saga → Async (World b) (Unit {0})
  unfolding find_step
  on_points_failed g = do
    pay_step ← step_of payment g
    compare_and_advance b g.saga_id payment_charged compensating (some payment)
        (update points StepStatus.failed ∷ []) (refund_command g (payment_id_of pay_step) ∷ [])
    return tt

  -- what follows the transition out of COMPENSATING, if it was lost
  unfoldable pub heal_unless_advanced : Saga → Option Saga → Async (World b) (Unit {0})
  heal_unless_advanced g (some _) = return tt
  heal_unless_advanced g none = do
    compare_and_advance b g.saga_id compensation_failed failed none compensated_steps []
    return tt

  unfoldable pub refund_stock : Saga → Async (World b) (Unit {0})
  unfolding find_step heal_unless_advanced
  refund_stock g = do
    inv_step ← step_of inventory g
    (item_id, quantity) ← stock_of inv_step.payload
    Inventory.release b item_id quantity g.saga_id
    Orders.update_status b g.order_id OrderStatus.failed
    advanced ← compare_and_advance b g.saga_id compensating failed none compensated_steps []
    heal_unless_advanced g advanced

  -- `_onRefundSucceeded`, by the state that was read
  unfoldable pub on_refund_succeeded_in : SagaState → Saga → Async (World b) (Unit {0})
  unfolding refund_stock
  on_refund_succeeded_in compensating g = refund_stock g
  on_refund_succeeded_in compensation_failed g = refund_stock g
  on_refund_succeeded_in _ g = return tt

  unfoldable pub on_refund_succeeded : Saga → Async (World b) (Unit {0})
  unfolding on_refund_succeeded_in
  on_refund_succeeded g = on_refund_succeeded_in g.state g

  -- the error line, which only the winner of the escalation writes
  unfoldable pub report : Saga → ℕ → Option Saga → World b → Unit {0} × World b
  report g attempts none w = (tt, w)
  report g attempts (some _) w =
      (tt, record w { alerts = compensation_given_up g.saga_id attempts ∷ w.alerts })

  unfoldable pub retry_or_escalate_step : Saga → SagaStep → Async (World b) (Unit {0})
  unfolding report
  retry_or_escalate_step g pay_step =
      if leb c.max_compensate_attempts (pay_step.compensate_attempts + 1)
      then (compare_and_advance b g.saga_id compensating compensation_failed none
            (update payment StepStatus.failed ∷ []) []
          >>= λ escalated. call (report g (pay_step.compensate_attempts + 1) escalated))
      else (retry_compensation b g.saga_id payment pay_step.compensate_attempts
            (refund_command g (payment_id_of pay_step) ∷ [])
          >> return tt)

  -- `_retryOrEscalateCompensation`, by the state that was read
  unfoldable pub retry_or_escalate_in : SagaState → Saga → Async (World b) (Unit {0})
  unfolding find_step retry_or_escalate_step
  retry_or_escalate_in compensating g = step_of payment g >>= retry_or_escalate_step g
  retry_or_escalate_in _ g = return tt

  unfoldable pub retry_or_escalate : Saga → Async (World b) (Unit {0})
  unfolding retry_or_escalate_in
  retry_or_escalate g = retry_or_escalate_in g.state g

  -- `_onRefundFailed`
  unfoldable pub on_refund_failed : Saga → Async (World b) (Unit {0})
  unfolding retry_or_escalate
  on_refund_failed g = retry_or_escalate g
