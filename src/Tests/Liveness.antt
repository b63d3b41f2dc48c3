-- ===== src/Tests/Liveness.antt =====
-- What goes on until it has ended, at the shop: refunds, a tick of the relay, and the stock of pens.
use msa_training.Prelude.{
  subst, arith, ◌<◌, All, String, ◌≡◌, refl, false, none, some, List, [], ◌∷◌, map,
}
use msa_training.Prelude.Int.{pos}
use msa_training.Errors.{ok}
use msa_training.Async.{run}
use msa_training.Saga.State.{compensating, compensation_failed}
use msa_training.Saga.Contracts.{Msg, payment, invoice}
use msa_training.Models.{Saga, SagaStep, StepStatus, Inventory}
use msa_training.Backend.{World, compensation_given_up}
use msa_training.Persistence.Sagas.{has_pending}
use msa_training.Saga.Orchestrator.{new_saga, find_step}
use msa_training.Messaging.OutboxRelay.{pending_entries, relay_entries}
use msa_training.System.Attempts.{Below}
use msa_training.System.Attempts.Entries.{attempts_bounded}
use msa_training.Operations.Escalation.{refusals, refusals_escalate}
use msa_training.Operations.Book.{
  Order, take, give, perform_all, enter_all, book, Agrees, perform_refines,
}
use msa_training.Operations.Relay.{relay_sends_all}
use msa_training.Tests.Store.{letters, lookup}
use msa_training.Tests.Shop.{
  shop, opening, config, relay_config, stock_of_pens, after_order, run_shop, answered, times,
}

abbrev refunding : Saga
unfolding new_saga
refunding =
    record (new_saga (letters 0) (letters 1) "ann@example.com" "pen" (pos 2) (pos 20) "trace" 0) {
      state = compensating;
    }

abbrev in_refund : World shop
in_refund = record opening { sagas = (letters 0, refunding) ∷ [] }

abbrev payment_step : SagaStep
payment_step = record {
  name = payment;
  status = StepStatus.pending;
  payload = invoice (letters 1) (pos 20);
  reply_data = none;
  deadline = none;
  compensate_attempts = 0;
}

-- Five refusals of the refund.
refusals_escalate_example :
    (g' : Saga) × (shop.sagas.find_one
        (letters 0)
        (refusals shop config (letters 0) 5 in_refund).sagas
      ≡ some g')
    × (g'.state ≡ compensation_failed)
    × ((refusals shop config (letters 0) 5 in_refund).alerts
        ≡ compensation_given_up (letters 0) 5 ∷ [])
unfolding refunding new_saga find_step
refusals_escalate_example =
    refusals_escalate shop config (letters 0) 4 refunding payment_step in_refund refl refl refl refl
      refl

abbrev the_saga : Saga
unfolding after_order run_shop
the_saga = elim (lookup (letters 0) after_order.sagas) [ none ↦ refunding | some g ↦ g ]

relay_sends_all_example :
    let (result, w') =
      run
        (relay_entries shop relay_config the_saga (pending_entries the_saga.outbox))
        after_order in
    (result ≡ ok tt)
    × ((g' : Saga) × (shop.sagas.find_one the_saga.saga_id w'.sagas ≡ some g')
        × (has_pending g'.outbox ≡ false))
unfolding after_order run_shop
relay_sends_all_example =
    relay_sends_all shop relay_config the_saga (λ q m br. refl) after_order refl

-- Two sagas compete for five pens, one gives its three back twice, and the other asks again.
abbrev orders : List Order
orders =
    take "a" (pos 3)
    ∷ take "b" (pos 4)
    ∷ give "a" (pos 3)
    ∷ give "a" (pos 3)
    ∷ take "b" (pos 4)
    ∷ []

perform_refines_example :
    ((perform_all shop "pen" orders opening).0 ≡ map ok (enter_all orders (book stock_of_pens)).0)
    × ((d' : Inventory) × (shop.inventory.find_one "pen"
            (perform_all shop "pen" orders opening).1.inventory
          ≡ some d')
        × Agrees (book d') (enter_all orders (book stock_of_pens)).1)
perform_refines_example =
    perform_refines shop "pen" orders opening stock_of_pens (book stock_of_pens) refl
      (record { available = refl; reserved = λ _. refl; released = λ _. refl })

-- The quantities of the two sagas.
-- A refusal of the refund, after which it is retried.
after_retry : World shop
unfolding run_shop refunding
after_retry = run_shop (answered Msg.refund_failed ∷ []) (times 4 0 []) in_refund

abbrev retried_saga : Saga
unfolding after_retry
retried_saga = elim (lookup (letters 0) after_retry.sagas) [ none ↦ refunding | some g ↦ g ]

unretried :
    (j : String) (h : Saga)
    → lookup j in_refund.sagas ≡ some h
    → Below config.max_compensate_attempts h.steps
unfolding refunding new_saga
unretried j h e =
    let same : refunding ≡ h = ground arith in
    subst (λ g. Below 5 g.steps) same (omega arith, (omega arith, (omega arith, tt)))

attempts_bounded_example : All (λ s. s.compensate_attempts < 5) retried_saga.steps
unfolding after_retry run_shop refunding new_saga
attempts_bounded_example =
    attempts_bounded shop config (omega arith) relay_config (answered Msg.refund_failed ∷ [])
      (times 4 0 []) in_refund (letters 0) retried_saga unretried refl
