-- ===== src/Tests/Shop.antt =====
-- A backend over lists, a shop with one item in stock, and runs of the service on it.
use msa_training.Prelude.{ℕ, zero, suc, ◌≡◌, refl, true, Option, none, some, List, [], ◌∷◌}
use msa_training.Prelude.Int.{ℤ, pos, ◌+ℤ◌, ◌-ℤ◌, ◌*ℤ◌}
use msa_training.Errors.{ok}
use msa_training.Async.Schedule.{Pick, resume}
use msa_training.Saga.State.{SagaState, same_state}
use msa_training.Saga.Contracts.{Queue, Message, Msg}
use msa_training.Models.{Saga, Inventory, OrderDoc}
use msa_training.Backend.{Backend, World}
use msa_training.Domain.Money
use msa_training.Domain.OrderItem
use msa_training.Domain.Order
use msa_training.Persistence.Sagas.{
  put, update_step, update_steps, new_entries, advance_saga, is_attempt, may_retry, count_attempt,
  retry_saga, has_pending, is_active, is_timed_out, has_entry, set_sent, count_publish,
  find_by_saga_id, cas, compare_and_advance, retry_cas, retry_compensation,
  find_with_pending_outbox, find_timed_out, mark_sent, arm_deadline, mark_outbox_sent,
  inc_outbox_attempt,
}
use msa_training.Persistence.Orders
use msa_training.Persistence.Orders.{order_doc, insert_order, set_status, update_status, find_by_id}
use msa_training.Persistence.Inventory.{
  may_reserve, take_stock, may_release, return_stock, try_reserve, already_reserved, reserve,
  give_back, release,
}
use msa_training.Saga.Orchestrator.{
  Config, find_step, new_saga, open_saga, start_order, handle_reply,
}
use msa_training.Messaging.TimeoutSweep.{log_failure, sweep}
use msa_training.Messaging.ReplyConsumer.{on_message}
use msa_training.Application.OrderService.{is_allowed, new_status, process_payment_callback}
use msa_training.Messaging.OutboxRelay.{RelayConfig, send, warn, pending_entries, relay}
use msa_training.System.Requests.{Request, place, message, relay_tick, serve}
use msa_training.Tests.Store.{lists, letters, letters-injective, lookup}
use msa_training.Tests.Store.Identified.{identified, fresh-named, as_id, as_id-looked}

abbrev pub shop : Backend
shop = record {
  sagas = lists Saga;
  saga_upserts = record { upsert = λ k d s. (k, d) ∷ s; find_one-upsert = λ k d s j. refl };
  orders = identified (lists OrderDoc) fresh-named;
  cast_id = as_id;
  cast-stored = λ id s o e. as_id-looked id (lookup id s) o e;
  inventory = lists Inventory;
  random_uuid = letters;
  uuids_differ = letters-injective;
  Broker = List (Queue × Message);
  publish = λ queue m sent. (ok tt, (queue, m) ∷ sent);
}

abbrev pub stock_of_pens : Inventory
stock_of_pens = record {
  item_id = "pen";
  available = pos 5;
  reserved_sagas = [];
  released_sagas = [];
}

abbrev pub opening : World shop
opening = record {
  sagas = [];
  orders = [];
  inventory = ("pen", stock_of_pens) ∷ [];
  drawn = 0;
  clock = 1000;
  broker = [];
  alerts = [];
}

abbrev pub config : Config
config = record { points_enabled = true; step_timeout_ms = 15000; max_compensate_attempts = 5 }

abbrev pub relay_config : RelayConfig
relay_config = record { batch_size = 20; step_timeout_ms = 15000; max_outbox_attempts = 10 }

-- One step of each computation in turn.
abbrev pub times : ℕ → ℕ → List Pick → List Pick
times zero i ps = ps
times (suc n) i ps = resume i ∷ times n i ps

abbrev pub an_order : Request
an_order = place "ann@example.com" "pen" (pos 2) (pos 10) "trace"

abbrev pub answered : Msg → Request
answered type = message (some (ok (record { saga_id = letters 0; type = type; payload = none })))

-- The service on the shop, with all that a run of it computes through.
unfoldable pub run_shop : List Request → List Pick → World shop → World shop
unfolding serve start_order Money.make OrderItem.make Order.create Order.total_amount
    OrderItem.total_price Money.multiplied_by ◌*ℤ◌ ◌+ℤ◌ ◌-ℤ◌ find_step open_saga new_saga put
    order_doc insert_order Orders.save set_status update_status find_by_id may_reserve take_stock
    may_release return_stock try_reserve already_reserved reserve give_back release update_step
    update_steps new_entries advance_saga is_attempt may_retry count_attempt retry_saga has_pending
    is_active is_timed_out has_entry set_sent count_publish find_by_saga_id cas compare_and_advance
    retry_cas retry_compensation find_with_pending_outbox find_timed_out mark_sent arm_deadline
    mark_outbox_sent inc_outbox_attempt same_state sweep relay send warn pending_entries log_failure
    on_message handle_reply process_payment_callback is_allowed new_status
run_shop rs ps w = serve shop config relay_config rs ps w

abbrev pub saga_state : World shop → Option SagaState
saga_state w = elim (lookup (letters 0) w.sagas) [ none ↦ none | some g ↦ some g.state ]

abbrev pub pens : World shop → Option ℤ
pens w = elim (lookup "pen" w.inventory) [ none ↦ none | some d ↦ some d.available ]

-- The order's steps alone.
unfoldable pub after_order : World shop
unfolding run_shop
after_order = run_shop (an_order ∷ []) (times 6 0 []) opening

order_reserves :
    (saga_state after_order ≡ some SagaState.inventory_reserved) × (pens after_order ≡ some (pos 3))
unfolding after_order
order_reserves = (refl, refl)

-- A relay's tick, then the two answers that a paid order gets.
unfoldable pub after_payment : World shop
unfolding after_order
after_payment =
    run_shop (relay_tick ∷ answered Msg.payment_succeeded ∷ answered Msg.points_succeeded ∷ [])
      (times 6 0 (times 6 1 (times 6 2 []))) after_order

payment_completes :
    (saga_state after_payment ≡ some SagaState.completed) × (pens after_payment ≡ some (pos 3))
unfolding after_payment
payment_completes = (refl, refl)

-- Two consumers with the same refusal of the payment, step by step in turn: the stock is given back
-- once.
unfoldable pub after_refusal : World shop
unfolding after_order
after_refusal =
    run_shop (answered Msg.payment_failed ∷ answered Msg.payment_failed ∷ [])
      (resume 0 ∷ resume 1 ∷ resume 0 ∷ resume 1 ∷ times 6 0 (times 6 1 [])) after_order

refusal_compensates :
    (saga_state after_refusal ≡ some SagaState.failed) × (pens after_refusal ≡ some (pos 5))
unfolding after_refusal
refusal_compensates = (refl, refl)
