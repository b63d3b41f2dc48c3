-- ===== src/Application/OrderService.antt =====
-- services/order-service/src/application/OrderService.js
use msa_training.Prelude.{String, Bool, Option, none, some, ◌||◌, ◌==◌, if◌then◌else◌}
use msa_training.Prelude.Int.{ℤ}
use msa_training.Errors.{
  OrderStatus, invalid_payment_status, order_not_found, order_already_processed, Result,
}
use msa_training.Async.{Async, return, throw, call, from_result, ◌>>=◌, ◌>>◌}
use msa_training.Domain.Money
use msa_training.Domain.OrderItem
use msa_training.Domain.Order
use msa_training.Models.{OrderDoc}
use msa_training.Backend.{Backend, World}
use msa_training.Persistence.Orders.{save, update_status, find_by_id}

-- The message of the legacy flow to `order_queue`.
pub record OrderMessage : Type 0 where
  pub order_id : String
  pub amount : ℤ
  pub user_email : String
  pub correlation_id : String

-- `allowedStatuses.includes`
unfoldable pub is_allowed : String → Bool
is_allowed payment_status = payment_status == "COMPLETED" || payment_status == "FAILED"

unfoldable pub new_status : String → OrderStatus
new_status payment_status =
    if payment_status == "COMPLETED" then OrderStatus.success else OrderStatus.failed

module _ (b : Backend) where
  -- why no order was updated
  unfoldable pub explain : Option OrderDoc → Async (World b) OrderStatus
  explain none = throw order_not_found
  explain (some existing) = throw (order_already_processed existing.status)

  unfoldable pub answer : String → Option OrderDoc → Async (World b) OrderStatus
  unfolding explain
  answer order_id (some updated) = return updated.status
  answer order_id none = find_by_id b order_id >>= explain

  unfoldable pub process_payment_callback : String → String → Async (World b) OrderStatus
  unfolding answer
  process_payment_callback order_id payment_status =
      if is_allowed payment_status
      then (update_status b order_id (new_status payment_status) >>= answer order_id)
      else throw invalid_payment_status

  -- `publish` is the injected publisher.
  unfoldable pub create_order :
      (OrderMessage → World b → Result (Unit {0}) × World b)
      → String
      → String
      → ℤ
      → ℤ
      → String
      → Async (World b) (String × OrderStatus)
  create_order publish user_email item_id quantity price correlation_id = do
    unit_price ← from_result (Money.make price)
    item ← from_result (OrderItem.make item_id unit_price quantity)
    order ← from_result (Order.create user_email item)
    order_id ← save b order
    total ← from_result (Order.total_amount order)
    sent ← call (
        publish (record {
          order_id = order_id;
          amount = total.amount;
          user_email = user_email;
          correlation_id = correlation_id;
        }))
    from_result sent
    return (order_id, OrderStatus.pending)
