-- ===== src/Operations/Refusal.antt =====
-- What follows a `reserve` that answers false, in `_reserveAndAdvance`.
use msa_training.Prelude.{
  String, ◌≡◌, ◌≢◌, refl, ap, ◌∙◌, false, Option, none, some, [], ◌∷◌, arith,
}
use msa_training.Prelude.Int.{ℤ}
use msa_training.Errors.{OrderStatus, ok}
use msa_training.Async.{run, call, return, ◌>>=◌}
use msa_training.Mongo.Branches.{update-met}
use msa_training.Saga.State.{started, failed}
use msa_training.Saga.Contracts.{inventory}
use msa_training.Models.{Saga, StepStatus, OrderDoc, is_pending_order}
use msa_training.Backend.{Backend, World}
use msa_training.Persistence.Sagas.{cas, compare_and_advance}
use msa_training.Persistence.Orders.{or_cast_error, set_status, update_status}
use msa_training.Persistence.Orders.Casting.{run-update_status}
use msa_training.Saga.Orchestrator.{Config, Started, update, settle_reservation}
use msa_training.Operations.Transition.{cas-lost, cas-won}

module _ (b : Backend) (c : Config) (g : Saga) (amount : ℤ) (w : World b) where
  -- the world after the transition, and after the order's update
  abbrev tried : Option Saga × World b
  tried = cas b g.saga_id started failed none (update inventory StepStatus.failed ∷ []) [] w

  abbrev settled : World b
  settled = (set_status b g.order_id OrderStatus.failed tried.1).1

  refused :
      (o : OrderDoc)
      → b.orders.find_one g.order_id w.orders ≡ some o
      → run (settle_reservation b c g amount false) w ≡ (
        ok (record { order_id = g.order_id; saga_id = g.saga_id; status = OrderStatus.failed }),
        settled,
      )
  unfolding settle_reservation compare_and_advance run
  refused o order = run-update_status b g.order_id OrderStatus.failed _ tried.1 w.orders o order

  sagas_settled : settled.sagas ≡ tried.1.sagas
  unfolding set_status
  sagas_settled = refl

  orders_tried : tried.1.orders ≡ w.orders
  unfolding cas
  orders_tried = refl

  order_failed :
      (o : OrderDoc)
      → b.orders.find_one g.order_id w.orders ≡ some o
      → o.status ≡ OrderStatus.pending
      → b.orders.find_one g.order_id settled.orders
        ≡ some (record o { status = OrderStatus.failed })
  unfolding set_status cas
  order_failed o e pending =
      let (_, stored, _) =
        update-met b.orders g.order_id (λ x. is_pending_order x.status)
          (λ x. record x { status = OrderStatus.failed }) w.orders o e (rw pending refl) in
      stored

  updated-inventory :
      (key : Option String) (answer : Started) (v : World b)
      → (run
          (or_cast_error b key >>= (λ k. call (set_status b k OrderStatus.failed)) >>= λ _.
            return answer)
          v).1.inventory
        ≡ v.inventory
  unfolding set_status run
  updated-inventory none answer v = refl
  updated-inventory (some k) answer v = refl

  pub refusal-inventory : (run (settle_reservation b c g amount false) w).1.inventory ≡ w.inventory
  unfolding settle_reservation compare_and_advance update_status cas set_status run
  refusal-inventory = updated-inventory (b.cast_id g.order_id) _ tried.1

  -- After a refusal of the stock, a pending order of the saga is FAILED and the answer says so,
  -- whether or not the saga's transition is won: a saga in STARTED becomes FAILED with it, and one
  -- that another computation has taken further stays as it is, with its order FAILED under it.
  pub refusal_fails_order :
      (g' : Saga) (o : OrderDoc)
      → b.sagas.find_one g.saga_id w.sagas ≡ some g'
      → b.orders.find_one g.order_id w.orders ≡ some o
      → o.status ≡ OrderStatus.pending
      → let (result, w') = run (settle_reservation b c g amount false) w in
        (result
          ≡ ok (record { order_id = g.order_id; saga_id = g.saga_id; status = OrderStatus.failed }))
        × (b.orders.find_one g.order_id w'.orders ≡ some (record o { status = OrderStatus.failed }))
        × (g'.state ≡ started
            → (g'' : Saga) × (b.sagas.find_one g.saga_id w'.sagas ≡ some g'')
              × (g''.state ≡ failed))
        × (g'.state ≢ started → b.sagas.find_one g.saga_id w'.sagas ≡ some g')
  refusal_fails_order g' o saga order pending = (
    ap (λ r. r.0) (refused o order),
    ap (λ r. b.orders.find_one g.order_id r.1.orders) (refused o order)
        ∙ order_failed o order pending,
    λ here.
        let (g'', _, stored, state, _, _, _, _, _) =
          cas-won b g.saga_id started failed none (update inventory StepStatus.failed ∷ []) [] w g'
            saga here in
        (g'', at_end ∙ stored, state),
    λ elsewhere.
        let (_, same) =
          cas-lost b g.saga_id started failed none (update inventory StepStatus.failed ∷ []) [] w
            (λ x e now.
              let one : g' ≡ x = ground (arith, saga, e) in
              elsewhere (ap (λ y. y.state) one ∙ now)) in
        at_end ∙ same.sagas g.saga_id ∙ saga,
  )
    where
      at_end :
          b.sagas.find_one g.saga_id (run (settle_reservation b c g amount false) w).1.sagas
          ≡ b.sagas.find_one g.saga_id tried.1.sagas
      at_end =
          ap (λ r. b.sagas.find_one g.saga_id r.1.sagas) (refused o order)
          ∙ ap (b.sagas.find_one g.saga_id) sagas_settled
