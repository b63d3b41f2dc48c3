-- ===== src/Operations/Compensation.antt =====
-- `_onPaymentFailed` from INVENTORY_RESERVED, run on its own.
use msa_training.Prelude.{
  String, ◌≡◌, refl, ap, ◌∙◌, false, Option, none, some, ◌∷◌, [], ◌++◌, includes,
}
use msa_training.Prelude.Int.{ℤ, ◌+ℤ◌}
use msa_training.Errors.{OrderStatus, ok}
use msa_training.Async.{run}
use msa_training.Mongo.Branches.{update-met}
use msa_training.Saga.State.{inventory_reserved, compensating, failed}
use msa_training.Saga.Contracts.{inventory, payment, stock}
use msa_training.Models.{Saga, SagaStep, StepStatus, Inventory, OrderDoc, is_pending_order}
use msa_training.Backend.{Backend, World}
use msa_training.Persistence.Sagas.{cas, compare_and_advance}
use msa_training.Persistence.Orders.{set_status}
use msa_training.Persistence.Orders.Casting.{run-update_status}
use msa_training.Persistence.Inventory.{release, give_back}
use msa_training.Saga.Orchestrator.{Config, update, find_step, compensate_stock, on_payment_failed}
use msa_training.Operations.Reading.{stock_read}
use msa_training.Operations.Transition.{cas-won}
use msa_training.Operations.Reservation.{release_gives}

module _ (b : Backend) (c : Config) (g : Saga) (step : SagaStep) (item_id : String) (quantity : ℤ)
    (w : World b) (has_step : find_step inventory g.steps ≡ some step)
    (holds : step.payload ≡ stock item_id quantity) where
  -- the states after the entry, the stock's return, the order's update and the end
  abbrev entered : Option Saga × World b
  entered =
      cas b g.saga_id inventory_reserved compensating none (update payment StepStatus.failed ∷ [])
        [] w

  abbrev given : World b
  given = (give_back b item_id quantity g.saga_id entered.1).1

  abbrev failed_order : World b
  failed_order = (set_status b g.order_id OrderStatus.failed given).1

  abbrev ended : World b
  ended =
      (cas b g.saga_id compensating failed none (update inventory StepStatus.compensated ∷ []) []
        failed_order).1

  compensates :
      (x : Option Saga) (g' : Saga) (o : OrderDoc)
      → x ≡ some g'
      → b.orders.find_one g.order_id w.orders ≡ some o
      → run (compensate_stock b c g x) entered.1 ≡ (ok tt, ended)
  unfolding compensate_stock release compare_and_advance run
  compensates none g' o e order = absurd (cc e)
  compensates (some _) g' o e order =
      stock_read step item_id quantity holds (find_step inventory g.steps) _ entered.1 has_step
      ∙ run-update_status b g.order_id OrderStatus.failed _ given w.orders o order

  -- A refused payment of a saga in INVENTORY_RESERVED is compensated: the quantity that its first
  -- step names is put back on the item, which has not had it back before, the pending order is
  -- FAILED, and so is the saga.
  pub refused_payment_compensates :
      (g0 : Saga) (d : Inventory) (o : OrderDoc)
      → b.sagas.find_one g.saga_id w.sagas ≡ some g0
      → g0.state ≡ inventory_reserved
      → b.inventory.find_one item_id w.inventory ≡ some d
      → includes g.saga_id d.released_sagas ≡ false
      → b.orders.find_one g.order_id w.orders ≡ some o
      → o.status ≡ OrderStatus.pending
      → let (result, w') = run (on_payment_failed b c g) w in
        (result ≡ ok tt)
        × ((g' : Saga) × (b.sagas.find_one g.saga_id w'.sagas ≡ some g') × (g'.state ≡ failed))
        × (b.orders.find_one g.order_id w'.orders ≡ some (record o { status = OrderStatus.failed }))
        × (b.inventory.find_one item_id w'.inventory
            ≡ some (record d {
              available = d.available +ℤ quantity;
              released_sagas = d.released_sagas ++ g.saga_id ∷ [];
            }))
  unfolding on_payment_failed compare_and_advance run release set_status give_back cas
  refused_payment_compensates g0 d o saga state item new order pending =
      let (g1, won, stored, here, _, _, _, _, _) =
        cas-won b g.saga_id inventory_reserved compensating none
          (update payment StepStatus.failed ∷ []) [] w g0 saga state in
      let result : run (on_payment_failed b c g) w ≡ (ok tt, ended) =
        compensates entered.0 g1 o won order in
      let (g2, _, saved, over, _, _, _, _, _) =
        cas-won b g.saga_id compensating failed none (update inventory StepStatus.compensated ∷ [])
          [] failed_order g1 stored here in
      let (_, order_failed, _) =
        update-met b.orders g.order_id (λ x. is_pending_order x.status)
          (λ x. record x { status = OrderStatus.failed }) w.orders o order (rw pending refl) in
      let (returned, _) = release_gives b item_id quantity g.saga_id entered.1 d item new in
      (
        ap (λ r. r.0) result,
        (g2, ap (λ r. b.sagas.find_one g.saga_id r.1.sagas) result ∙ saved, over),
        ap (λ r. b.orders.find_one g.order_id r.1.orders) result ∙ order_failed,
        ap (λ r. b.inventory.find_one item_id r.1.inventory) result ∙ returned,
      )
