-- ===== src/Errors.antt =====
-- What a function or a promise of the order service ends in: a value, or a thrown error. Messages
-- are not modelled, only which `throw` it is and the data that it carries.

-- domain/OrderStatus.js
pub data OrderStatus : Type 0 where
  pending success failed : OrderStatus

-- The `action` that `_assertPending` names.
pub data Action : Type 0 where
  complete_payment fail_payment : Action

pub data Error : Type 0 where
  -- domain/Money.js, domain/OrderItem.js, domain/Order.js
  amount_not_positive quantity_not_positive missing_product_id missing_user_email : Error
  not_pending : Action → OrderStatus → Error
  -- saga/SagaState.js
  invalid_transition : Error
  -- `undefined.payload`, thrown by the language
  type_error : Error
  -- application/OrderService.js
  invalid_payment_status order_not_found : Error
  order_already_processed : OrderStatus → Error
  -- a rejected promise of a driver
  driver_error : Error
  -- mongoose's, for a text that is no ObjectId
  cast_error : Error

pub data Result {ℓ} (A : Type ℓ) : Type ℓ where
  ok : A → Result A
  err : Error → Result A

infixl 10 ◌>>=◌
abbrev pub ◌>>=◌ {ℓ κ} : {A : Type ℓ} {B : Type κ} → Result A → (A → Result B) → Result B
ok a >>= f = f a
err e >>= f = err e
