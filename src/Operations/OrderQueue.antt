-- ===== src/Operations/OrderQueue.antt =====
-- `POST /api/order` without an orchestrator: the order service publishes to `order_queue`.
use msa_training.Prelude.{String, ◌≡◌, refl, ap, ◌∙◌, false, Option, some, ◌==◌, eq_refl}
use msa_training.Prelude.Int.{ℤ, pos, ◌*ℤ◌, leb_ℤ}
use msa_training.Errors
use msa_training.Errors.{Error, Result, OrderStatus, ok, err}
use msa_training.Async.{Async, run, return, from_result, ◌>>=◌}
use msa_training.Async.Run.{follow, run->>=, run-from_result}
use msa_training.Domain.Totals.{total_amount_lem}
use msa_training.Backend.{Backend, World}
use msa_training.Persistence.Orders
use msa_training.Persistence.Orders.{order_doc}
use msa_training.Saga.Orchestrator.{Config}
use msa_training.Utils.CorrelationId.{normalize_correlation_id}
use msa_training.Application.OrderService.{OrderMessage, create_order}
use msa_training.Interfaces.OrderRoutes.{
  Response, Body, order_queue, message, placed, order_response, take_order, order_route,
}
use msa_training.Operations.Placement.{
  good_price, good_item, good_order, the_item, the_order, stored,
}
use msa_training.Operations.Ordering.{answered}

module _ (b : Backend) (c : Config) (publish : OrderMessage → World b → Result (Unit {0}) × World b)
    (keeps_orders : (m : OrderMessage) (v : World b) → (publish m v).1.orders ≡ v.orders)
    (header : Option String) (user_email item_id : String) (quantity price : ℤ) (w : World b)
    (price_positive : leb_ℤ price (pos 0) ≡ false)
    (quantity_positive : leb_ℤ quantity (pos 0) ≡ false) (item_given : item_id == "" ≡ false)
    (user_given : user_email == "" ≡ false) where
  -- the id that the request goes on with, and the state in which the order is taken
  abbrev pub trace : String
  trace = (normalize_correlation_id b header w).0

  abbrev pub w0 : World b
  w0 = (normalize_correlation_id b header w).1

  -- the order's id with the state that stores it
  abbrev pub saved : String × World b
  saved = stored b c user_email item_id quantity price trace w0

  abbrev pub the_message : OrderMessage
  the_message = record {
    order_id = saved.0;
    amount = price *ℤ quantity;
    user_email = user_email;
    correlation_id = trace;
  }

  -- The one call of the publisher.
  abbrev pub sent : Result (Unit {0}) × World b
  sent = publish the_message saved.1

  creates :
      run (create_order b publish user_email item_id quantity price trace) w0
      ≡ run (from_result sent.0 >>= λ _. return (saved.0, OrderStatus.pending)) sent.1
  unfolding create_order Orders.save run
  creates =
      run-from_result _ _ _ w0
        (good_price b c user_email item_id quantity price trace w0 price_positive)
      ∙ run-from_result _ _ _ w0
          (good_item b c user_email item_id quantity price trace w0 item_given quantity_positive)
      ∙ run-from_result _ _ _ w0
          (good_order b c user_email item_id quantity price trace w0 user_given)
      ∙ run-from_result _ _ _ saved.1 (
          total_amount_lem price quantity item_id user_email _
            (the_item b c user_email item_id quantity price trace w0)
            (the_order b c user_email item_id quantity price trace w0)
            (good_price b c user_email item_id quantity price trace w0 price_positive)
            (good_item b c user_email item_id quantity price trace w0 item_given quantity_positive)
            (good_order b c user_email item_id quantity price trace w0 user_given))

  abbrev pub answer : Result Response × World b
  answer =
      run (order_route b c (order_queue publish) (some user_email) header item_id quantity price) w

  abbrev respond_placed : String × OrderStatus → Async (World b) Body
  respond_placed (order_id, status) = return (placed order_id status)

  after :
      (r : Result (Unit {0}))
      → sent.0 ≡ r
      → answer ≡ (
        ok (order_response (Errors.◌>>=◌ r (λ _. ok (placed saved.0 OrderStatus.pending)))),
        sent.1,
      )
  unfolding take_order run
  after r e =
      let created =
        creates
        ∙ ap (λ x. run (from_result x >>= λ _. return (saved.0, OrderStatus.pending)) sent.1) e in
      let took =
        run->>= (create_order b publish user_email item_id quantity price trace) respond_placed w0
        ∙ ap (λ x. follow x respond_placed) created in
      answered b c (order_queue publish) header item_id quantity price w user_email user_given
      ∙ ap (λ x. (ok (order_response x.0), x.1)) (took ∙ ends r)
    where
      ends :
          (r : Result (Unit {0}))
          → follow
              (run (from_result r >>= λ _. return (saved.0, OrderStatus.pending)) sent.1)
              respond_placed
            ≡ (Errors.◌>>=◌ r (λ _. ok (placed saved.0 OrderStatus.pending)), sent.1)
      ends (ok _) = refl
      ends (err _) = refl

  order_stored :
      b.orders.find_one saved.0 sent.1.orders
      ≡ some (record {
        user_email = user_email;
        item_id = item_id;
        quantity = quantity;
        price = price;
        status = OrderStatus.pending;
      })
  unfolding Orders.insert_order order_doc
  order_stored =
      ap (b.orders.find_one saved.0) (keeps_orders the_message saved.1)
      ∙ b.orders.find_one-insert _ w0.orders _
      ∙ rw (eq_refl saved.0) refl

  -- The order route without an orchestrator, for a valid order of a user and a publisher that does
  -- not touch the orders: 202 with PENDING if the one message that is sent for the order, with the
  -- price times the quantity, is taken, and 500 if it is not. In both cases the order is stored as
  -- PENDING, so that one whose message was refused waits for a payment that nobody was asked for.
  pub queue_route_lem :
      (sent.0 ≡ ok tt
        → answer.0 ≡ ok (record { status = 202; body = placed saved.0 OrderStatus.pending }))
      × ((e : Error) → sent.0 ≡ err e → answer.0 ≡ ok (record { status = 500; body = message }))
      × (b.orders.find_one saved.0 answer.1.orders
          ≡ some (record {
            user_email = user_email;
            item_id = item_id;
            quantity = quantity;
            price = price;
            status = OrderStatus.pending;
          }))
  unfolding order_response
  queue_route_lem = (
    λ taken. ap (λ r. r.0) (after (ok tt) taken),
    λ e refused. ap (λ r. r.0) (after (err e) refused),
    ap (λ r. b.orders.find_one saved.0 r.1.orders) (after sent.0 refl) ∙ order_stored,
  )
