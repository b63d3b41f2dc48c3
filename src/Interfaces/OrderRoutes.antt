-- ===== src/Interfaces/OrderRoutes.antt =====
-- services/order-service/src/interfaces/routes/orderRoutes.js: the three routes. A response is its
-- status and the fields that the program computes; the texts are left out.
use msa_training.Prelude.{ℕ, String, Bool, true, false, Option, none, some, ◌==◌, if◌then◌else◌}
use msa_training.Prelude.Int.{ℤ}
use msa_training.Errors.{
  Error, Result, ok, err, OrderStatus, invalid_payment_status, order_not_found,
  order_already_processed,
}
use msa_training.Async.{Async, return, call, attempt, ◌>>=◌}
use msa_training.Backend.{Backend, World}
use msa_training.Saga.Orchestrator.{Config, Started, start_order}
use msa_training.Utils.CorrelationId.{normalize_correlation_id}
use msa_training.Application.OrderService.{OrderMessage, create_order, process_payment_callback}

pub data Body : Type 0 where
  -- only texts
  message : Body
  started : Started → Body
  -- what `createOrder` returns
  placed : (order_id : String) → OrderStatus → Body
  updated : OrderStatus → Body
  -- `error.data` of an order that is settled
  current_status : OrderStatus → Body
  health : (db_up : Bool) → Body

pub record Response : Type 0 where
  pub status : ℕ
  pub body : Body

abbrev respond : ℕ → Body → Response
respond status body = record { status = status; body = body }

-- `ERROR_STATUS_MAP[error.code]` with `error.data`; only the errors of `OrderService` have a code
unfoldable pub error_response : Error → Response
error_response invalid_payment_status = respond 400 message
error_response order_not_found = respond 404 message
error_response (order_already_processed status) = respond 409 (current_status status)
error_response _ = respond 500 message

unfoldable pub callback_response : Result OrderStatus → Response
unfolding error_response
callback_response (ok status) = respond 200 (updated status)
callback_response (err e) = error_response e

unfoldable pub order_response : Result Body → Response
order_response (ok result) = respond 202 result
order_response (err e) = respond 500 message

-- `GET /api/order/health`
unfoldable pub health_route : Bool → Response
health_route is_db_connected =
    if is_db_connected then respond 200 (health true) else respond 503 (health false)

-- How the router takes an order, by what is injected: the orchestrator, as index.js does, or the
-- order service alone, with its publisher.
pub data Flow (b : Backend) : Type 0 where
  orchestrated : Flow b
  order_queue : (OrderMessage → World b → Result (Unit {0}) × World b) → Flow b

module _ (b : Backend) (c : Config) where
  -- `orchestrator ? … : …`
  unfoldable pub take_order : Flow b → String → String → ℤ → ℤ → String → Async (World b) Body
  take_order orchestrated user_email item_id quantity price correlation_id = do
    result ← start_order b c user_email item_id quantity price correlation_id
    return (started result)
  take_order (order_queue publish) user_email item_id quantity price correlation_id = do
    (order_id, status) ← create_order b publish user_email item_id quantity price correlation_id
    return (placed order_id status)

  -- `POST /api/order`
  unfoldable pub order_route :
      Flow b
      → (user_email correlation_id : Option String) → String
      → ℤ
      → ℤ
      → Async (World b) Response
  order_route flow none header item_id quantity price = return (respond 401 message)
  order_route flow (some user_email) header item_id quantity price =
      if user_email == ""
      then return (respond 401 message)
      else (call (normalize_correlation_id b header) >>= λ correlation_id.
          attempt (take_order flow user_email item_id quantity price correlation_id) >>= λ r.
          return (order_response r))

  -- `POST /api/order/callback`
  unfoldable pub callback_route :
      (internal_api_key : String) → Option String → String → String → Async (World b) Response
  callback_route internal_api_key none order_id payment_status = return (respond 403 message)
  callback_route internal_api_key (some internal_key) order_id payment_status =
      if internal_key == internal_api_key
      then (attempt (process_payment_callback b order_id payment_status) >>= λ r.
          return (callback_response r))
      else return (respond 403 message)
