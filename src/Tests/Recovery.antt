-- ===== src/Tests/Recovery.antt =====
-- A saga that a crash left in STARTED, and one that was failed meanwhile, at the shop.
use msa_training.Prelude.{◌≡◌, refl, true, false, none, some, [], ◌∷◌, ◌++◌, ◌||◌, includes}
use msa_training.Prelude.Int.{pos, ◌-ℤ◌, leb_ℤ}
use msa_training.Errors.{OrderStatus, ok}
use msa_training.Async.{run}
use msa_training.Saga.State.{
  SagaState, failed, inventory_reserved, payment_charged, compensating, compensation_failed,
  completed, same_state,
}
use msa_training.Saga.Contracts.{inventory, payment, points, stock, invoice, award, Msg, Reply}
use msa_training.Models.{Saga, SagaStep, StepStatus, Inventory, OrderDoc}
use msa_training.Backend.{World}
use msa_training.Saga.Orchestrator.{new_saga, find_step, handle_timeout, handle_reply}
use msa_training.Operations.Resumption.{IsCharged, sweep_resumes, late_reservation_strands}
use msa_training.Operations.Timeouts.{timeout_is_refusal}
use msa_training.Operations.Replies.{is_quiet}
use msa_training.Operations.Success.{paid, earned}
use msa_training.Operations.Success.Paid.{paid_order_completes}
use msa_training.Tests.Store.{letters}
use msa_training.Tests.Shop.{shop, opening, config, stock_of_pens}

abbrev stuck : Saga
unfolding new_saga
stuck = new_saga (letters 0) (letters 1) "ann@example.com" "pen" (pos 2) (pos 20) "trace" 16000

abbrev stock_step : SagaStep
stock_step = record {
  name = inventory;
  status = StepStatus.pending;
  payload = stock "pen" (pos 2);
  reply_data = none;
  deadline = none;
  compensate_attempts = 0;
}

abbrev invoice_step : SagaStep
invoice_step = record stock_step { name = payment; payload = invoice (letters 1) (pos 20) }

abbrev points_step : SagaStep
points_step = record stock_step { name = points; payload = award "ann@example.com" (pos 20) }

abbrev pending_order : OrderDoc
pending_order = record {
  user_email = "ann@example.com";
  item_id = "pen";
  quantity = pos 2;
  price = pos 10;
  status = OrderStatus.pending;
}

-- The crash came after the stock was reserved.
abbrev pens_taken : Inventory
pens_taken = record stock_of_pens { available = pos 3; reserved_sagas = letters 0 ∷ [] }

abbrev crashed : World shop
crashed = record opening {
  sagas = (letters 0, stuck) ∷ [];
  orders = (letters 1, pending_order) ∷ [];
  inventory = ("pen", pens_taken) ∷ [];
}

sweep_resumes_example :
    let (result, w') = run (handle_timeout shop config stuck) crashed in
    (includes stuck.saga_id pens_taken.reserved_sagas ≡ true
      → (result ≡ ok tt)
        × IsCharged shop stuck stuck (pos 20) w'
        × (shop.inventory.find_one "pen" w'.inventory ≡ some pens_taken))
    × (includes stuck.saga_id pens_taken.reserved_sagas ≡ false
        → leb_ℤ (pos 2) pens_taken.available ≡ true
        → (result ≡ ok tt)
          × IsCharged shop stuck stuck (pos 20) w'
          × (shop.inventory.find_one "pen" w'.inventory
              ≡ some (record pens_taken {
                available = pens_taken.available -ℤ pos 2;
                reserved_sagas = pens_taken.reserved_sagas ++ stuck.saga_id ∷ [];
              })))
    × ((o : OrderDoc)
        → includes stuck.saga_id pens_taken.reserved_sagas ≡ false
        → leb_ℤ (pos 2) pens_taken.available ≡ false
        → shop.orders.find_one stuck.order_id crashed.orders ≡ some o
        → o.status ≡ OrderStatus.pending
        → (result ≡ ok tt)
          × ((g' : Saga) × (shop.sagas.find_one stuck.saga_id w'.sagas ≡ some g')
              × (g'.state ≡ failed))
          × (shop.orders.find_one stuck.order_id w'.orders
              ≡ some (record o { status = OrderStatus.failed }))
          × (shop.inventory.find_one "pen" w'.inventory ≡ some pens_taken))
unfolding find_step new_saga
sweep_resumes_example =
    sweep_resumes shop config stuck stock_step invoice_step "pen" (letters 1) (pos 2) (pos 20)
      crashed refl refl refl refl refl stuck refl pens_taken refl refl

abbrev failed_saga : Saga
failed_saga = record stuck { state = failed }

-- Another computation has failed the saga that the sweep has read, and pens have come in.
abbrev overtaken : World shop
overtaken = record opening {
  sagas = (letters 0, failed_saga) ∷ [];
  orders = (letters 1, record pending_order { status = OrderStatus.failed }) ∷ [];
}

late_reservation_strands_example :
    let (result, w') = run (handle_timeout shop config stuck) overtaken in
    (result ≡ ok tt)
    × (shop.sagas.find_one stuck.saga_id w'.sagas ≡ some failed_saga)
    × (shop.inventory.find_one "pen" w'.inventory
        ≡ some (record stock_of_pens {
          available = stock_of_pens.available -ℤ pos 2;
          reserved_sagas = stock_of_pens.reserved_sagas ++ stuck.saga_id ∷ [];
        }))
unfolding find_step new_saga
late_reservation_strands_example =
    late_reservation_strands shop config stuck stock_step invoice_step "pen" (letters 1) (pos 2)
      (pos 20) overtaken refl refl refl refl refl failed_saga refl stock_of_pens refl refl refl refl

abbrev reserved_saga : Saga
reserved_saga = record stuck { state = inventory_reserved; current_step = payment }

abbrev reserved : World shop
reserved = record crashed { sagas = (letters 0, reserved_saga) ∷ [] }

paid_order_completes_example :
    let (first, w1) =
      run (handle_reply shop config (paid shop config reserved_saga none)) reserved in
    let (second, w2) = run (handle_reply shop config (earned shop config reserved_saga)) w1 in
    (first ≡ ok tt)
    × (second ≡ ok tt)
    × ((g' : Saga) × (shop.sagas.find_one reserved_saga.saga_id w2.sagas ≡ some g')
        × (g'.saga_id ≡ reserved_saga.saga_id)
        × (g'.state ≡ completed))
    × (shop.orders.find_one reserved_saga.order_id w2.orders
        ≡ some (record pending_order { status = OrderStatus.success }))
    × (w2.inventory ≡ reserved.inventory)
unfolding find_step new_saga
paid_order_completes_example =
    paid_order_completes shop config reserved_saga points_step none pending_order reserved refl refl
      refl refl refl

abbrev refusal : Reply
refusal = record { saga_id = letters 0; type = Msg.payment_failed; payload = none }

timeout_is_refusal_example :
    (reserved_saga.state ≡ inventory_reserved
      → refusal.type ≡ Msg.payment_failed
      → run (handle_timeout shop config reserved_saga) reserved
        ≡ run (handle_reply shop config refusal) reserved)
    × (reserved_saga.state ≡ payment_charged
        → refusal.type ≡ Msg.points_failed
        → run (handle_timeout shop config reserved_saga) reserved
          ≡ run (handle_reply shop config refusal) reserved)
    × (reserved_saga.state ≡ compensating
        → refusal.type ≡ Msg.refund_failed
        → run (handle_timeout shop config reserved_saga) reserved
          ≡ run (handle_reply shop config refusal) reserved)
    × ((s : SagaState)
        → reserved_saga.state ≡ s
        → is_quiet s || same_state s compensation_failed ≡ true
        → run (handle_timeout shop config reserved_saga) reserved ≡ (ok tt, reserved))
unfolding new_saga
timeout_is_refusal_example = timeout_is_refusal shop config reserved_saga reserved refusal refl
