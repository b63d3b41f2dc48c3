-- ===== src/Tests/Failures.antt =====
-- Refusals, and a payment that succeeds after its saga has failed.
use msa_training.Prelude.{◌≡◌, ◌≢◌, refl, true, false, none, some, [], ◌∷◌, ◌++◌, arith}
use msa_training.Prelude.Int.{pos, ◌+ℤ◌}
use msa_training.Errors.{OrderStatus, ok}
use msa_training.Async.{run}
use msa_training.Saga.State.{started, failed}
use msa_training.Saga.Contracts.{inventory, stock, Msg, Reply}
use msa_training.Models.{Saga, SagaStep, StepStatus, Inventory}
use msa_training.Saga.Orchestrator.{settle_reservation, handle_reply, find_step, on_payment_failed}
use msa_training.Operations.Same.{Same}
use msa_training.Operations.Compensation.{refused_payment_compensates}
use msa_training.Operations.Refusal.{refusal_fails_order}
use msa_training.Operations.Replies.{is_quiet, replies_ignored}
use msa_training.Tests.Store.{letters}
use msa_training.Tests.Shop.{shop, config, stock_of_pens, after_order, after_refusal, run_shop}
use msa_training.Tests.Placement.{placed}
use msa_training.Tests.Transitions.{the_saga}

refusal_fails_order_example :
    let (result, w') = run (settle_reservation shop config the_saga (pos 20) false) after_order in
    (result
      ≡ ok (record {
        order_id = the_saga.order_id;
        saga_id = the_saga.saga_id;
        status = OrderStatus.failed;
      }))
    × (shop.orders.find_one the_saga.order_id w'.orders
        ≡ some (record placed { status = OrderStatus.failed }))
    × (the_saga.state ≡ started
        → (g'' : Saga) × (shop.sagas.find_one the_saga.saga_id w'.sagas ≡ some g'')
          × (g''.state ≡ failed))
    × (the_saga.state ≢ started → shop.sagas.find_one the_saga.saga_id w'.sagas ≡ some the_saga)
unfolding after_order run_shop the_saga
refusal_fails_order_example =
    refusal_fails_order shop config the_saga (pos 20) after_order the_saga placed refl refl refl

-- A payment that succeeds after its saga has failed

abbrev late : Reply
late = record { saga_id = letters 0; type = Msg.payment_succeeded; payload = none }

failed_already :
    (g : Saga)
    → shop.sagas.find_one (letters 0) after_refusal.sagas ≡ some g
    → (g.saga_id ≡ letters 0) × (is_quiet g.state ≡ true)
unfolding after_refusal after_order run_shop is_quiet
failed_already g e = ground (arith, e)

replies_ignored_example :
    Same shop after_refusal (run (handle_reply shop config late) after_refusal).1
replies_ignored_example = replies_ignored shop config after_refusal late failed_already

-- A refused payment

abbrev pens_step : SagaStep
pens_step = record {
  name = inventory;
  status = StepStatus.done;
  payload = stock "pen" (pos 2);
  reply_data = none;
  deadline = none;
  compensate_attempts = 0;
}

abbrev pens_left : Inventory
pens_left = record stock_of_pens { available = pos 3; reserved_sagas = letters 0 ∷ [] }

refused_payment_compensates_example :
    let (result, w') = run (on_payment_failed shop config the_saga) after_order in
    (result ≡ ok tt)
    × ((g' : Saga) × (shop.sagas.find_one the_saga.saga_id w'.sagas ≡ some g')
        × (g'.state ≡ failed))
    × (shop.orders.find_one the_saga.order_id w'.orders
        ≡ some (record placed { status = OrderStatus.failed }))
    × (shop.inventory.find_one "pen" w'.inventory
        ≡ some (record pens_left {
          available = pos 3 +ℤ pos 2;
          released_sagas = [] ++ the_saga.saga_id ∷ [];
        }))
unfolding the_saga after_order run_shop find_step
refused_payment_compensates_example =
    refused_payment_compensates shop config the_saga pens_step "pen" (pos 2) after_order refl refl
      the_saga pens_left placed refl refl refl refl refl refl
