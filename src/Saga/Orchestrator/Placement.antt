-- ===== src/Saga/Orchestrator/Placement.antt =====
-- services/order-service/src/saga/SagaOrchestrator.js: `startOrder` and `_reserveAndAdvance`.
use msa_training.Prelude.{◌+◌, String, Bool, true, false, none, some, [], ◌∷◌}
use msa_training.Prelude.Int.{ℤ}
use msa_training.Errors.{OrderStatus}
use msa_training.Async.{Async, return, call, from_result, ◌>>=◌, ◌>>◌}
use msa_training.Domain.Money
use msa_training.Domain.OrderItem
use msa_training.Domain.Order
use msa_training.Domain.Order.{Order}
use msa_training.Saga.State.{started, inventory_reserved, failed}
use msa_training.Saga.Contracts.{inventory, payment}
use msa_training.Models.{Saga, StepStatus}
use msa_training.Backend.{Backend, World}
use msa_training.Persistence.Sagas.{compare_and_advance, put}
use msa_training.Persistence.Orders
use msa_training.Persistence.Inventory
use msa_training.Saga.Orchestrator.Documents.{
  update, charge_command, new_saga, Config, Started, step_of, stock_of, amount_of,
}

module _ (b : Backend) (c : Config) where
  -- The draw of the saga's id, the reading of the clock and the issue of `save` lie between two
  -- `await`s.
  unfoldable pub open_saga : String → String → String → ℤ → ℤ → String → World b → Saga × World b
  open_saga order_id user_email item_id quantity amount correlation_id w =
      let g =
        new_saga (b.random_uuid w.drawn) order_id user_email item_id quantity amount correlation_id
          (w.clock + c.step_timeout_ms) in
      (g, (put b g (record w { drawn = w.drawn + 1 })).1)

  -- what follows `reserve`, by its result
  unfoldable pub settle_reservation : Saga → ℤ → Bool → Async (World b) Started
  settle_reservation g amount false = do
    compare_and_advance b g.saga_id started failed none (update inventory StepStatus.failed ∷ []) []
    Orders.update_status b g.order_id OrderStatus.failed
    return (record { order_id = g.order_id; saga_id = g.saga_id; status = OrderStatus.failed })
  settle_reservation g amount true = do
    compare_and_advance b g.saga_id started inventory_reserved (some payment)
        (update inventory StepStatus.done ∷ [])
        (charge_command g.saga_id g.order_id amount g.correlation_id ∷ [])
    return (record { order_id = g.order_id; saga_id = g.saga_id; status = OrderStatus.pending })

  -- `_reserveAndAdvance`
  unfoldable pub reserve_and_advance : Saga → Async (World b) Started
  unfolding settle_reservation
  reserve_and_advance g = do
    inv_step ← step_of inventory g
    (item_id, quantity) ← stock_of inv_step.payload
    pay_step ← step_of payment g
    amount ← amount_of pay_step.payload
    reserved ← Inventory.reserve b item_id quantity g.saga_id
    settle_reservation g amount reserved

  unfoldable pub start_order : String → String → ℤ → ℤ → String → Async (World b) Started
  unfolding reserve_and_advance
  start_order user_email item_id quantity price correlation_id = do
    unit_price ← from_result (Money.make price)
    item ← from_result (OrderItem.make item_id unit_price quantity)
    order ← from_result (Order.create user_email item)
    order_id ← Orders.save b order
    total ← from_result (Order.total_amount order)
    g ← call (open_saga order_id user_email item_id quantity total.amount correlation_id)
    reserve_and_advance g
