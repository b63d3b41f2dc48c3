-- ===== src/Domain/Order.antt =====
-- services/order-service/src/domain/Order.js
use msa_training.Prelude.{String, if◌then◌else◌, ◌==◌}
use msa_training.Errors.{
  Result, ok, err, OrderStatus, pending, success, failed, Action, complete_payment, fail_payment,
  missing_user_email, not_pending, ◌>>=◌,
}
use msa_training.Domain.Money.{Money}
use msa_training.Domain.OrderItem
use msa_training.Domain.OrderItem.{OrderItem}

pub record Order : Type 0 where
  pub user_email : String
  pub item : OrderItem
  pub status : OrderStatus

-- `Order.create`
unfoldable pub create : String → OrderItem → Result Order
create user_email item =
    if user_email == ""
    then err missing_user_email
    else ok (record { user_email = user_email; item = item; status = pending })

unfoldable pub total_amount : Order → Result Money
total_amount o = OrderItem.total_price o.item

-- `_assertPending`, on the order's status
abbrev assert_pending : Action → OrderStatus → Result (Unit {0})
assert_pending action pending = ok tt
assert_pending action success = err (not_pending action success)
assert_pending action failed = err (not_pending action failed)

-- `completePayment`: the order with its new status
unfoldable pub complete : Order → Result Order
complete o = assert_pending complete_payment o.status >>= λ _. ok (record o { status = success })

-- `failPayment`
unfoldable pub fail : Order → Result Order
fail o = assert_pending fail_payment o.status >>= λ _. ok (record o { status = failed })
