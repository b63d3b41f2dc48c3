-- ===== src/Operations/Success.antt =====
-- The end of a paid order: POINTS_SUCCEEDED, and what follows a won transition before it.
pub mod Paid
use msa_training.Prelude.{
  String, ◌≡◌, ◌≢◌, refl, ap, sym, subst, ◌∙◌, Bool, true, false, Option, none, some, [], ◌∷◌,
  arith,
}
use msa_training.Errors.{OrderStatus, ok}
use msa_training.Async.{run}
use msa_training.Mongo.Branches.{update-met}
use msa_training.Saga.State.{
  SagaState, inventory_reserved, payment_charged, points_earned, completed,
}
use msa_training.Saga.Contracts.{payment, points, Reply, ReplyData, Msg}
use msa_training.Models.{Saga, SagaStep, StepStatus, OrderDoc, is_pending_order}
use msa_training.Backend.{Backend, World}
use msa_training.Persistence.Sagas.{
  StepUpdate, Command, cas, advance_saga, new_entries, compare_and_advance,
}
use msa_training.Persistence.Orders.{set_status}
use msa_training.Persistence.Orders.Casting.{run-update_status}
use msa_training.Saga.Orchestrator.{
  Config, update, earn_command, find_step, complete_unless_lost, on_payment_succeeded_with,
  on_payment_succeeded, on_points_succeeded, dispatch_reply, handle_reply,
}
use msa_training.Operations.Reading.{step_read, reply_read}
use msa_training.Operations.Same.{Same}
use msa_training.Operations.Transition.{cas-exact, cas-lost}

module _ (b : Backend) (c : Config) where
  -- The saga is stored as COMPLETED, and the order as `o` with SUCCESS.
  abbrev pub IsDone : String → String → OrderDoc → World b → Type 0
  IsDone id order_id o w =
      ((g' : Saga) × (b.sagas.find_one id w.sagas ≡ some g')
        × (g'.saga_id ≡ id)
        × (g'.state ≡ completed))
      × (b.orders.find_one order_id w.orders ≡ some (record o { status = OrderStatus.success }))

  -- What the winner of the transition before it does.
  module _ (g : Saga) (from : SagaState) (w : World b) where
    abbrev pub confirmed : World b
    confirmed = (set_status b g.order_id OrderStatus.success w).1

    abbrev pub finished : World b
    finished = (cas b g.saga_id from completed none [] [] confirmed).1

    pub finishes :
        (x : Option Saga) (g' : Saga) (o : OrderDoc)
        → x ≡ some g'
        → b.orders.find_one g.order_id w.orders ≡ some o
        → run (complete_unless_lost b c g from x) w ≡ (ok tt, finished)
    unfolding complete_unless_lost compare_and_advance run
    finishes none g' o e order = absurd (cc e)
    finishes (some _) g' o e order =
        run-update_status b g.order_id OrderStatus.success _ w w.orders o order

    pub finished-IsDone :
        (g1 : Saga) (o : OrderDoc)
        → g1.saga_id ≡ g.saga_id
        → b.sagas.find_one g.saga_id w.sagas ≡ some g1
        → g1.state ≡ from
        → b.orders.find_one g.order_id w.orders ≡ some o
        → o.status ≡ OrderStatus.pending
        → IsDone g.saga_id g.order_id o finished × (finished.inventory ≡ w.inventory)
    unfolding cas set_status advance_saga
    finished-IsDone g1 o key found here order pending =
        let (_, stored) = cas-exact b g.saga_id from completed none [] [] confirmed g1 found here in
        let (_, success, _) =
          update-met b.orders g.order_id (λ x. is_pending_order x.status)
            (λ x. record x { status = OrderStatus.success }) w.orders o order (rw pending refl) in
        (((_, stored, key, refl), success), refl)

  module _ (g : Saga) where
    abbrev pub paid : Option ReplyData → Reply
    paid reply_data = record {
      saga_id = g.saga_id;
      type = Msg.payment_succeeded;
      payload = reply_data;
    }

    abbrev pub earned : Reply
    earned = record { saga_id = g.saga_id; type = Msg.points_succeeded; payload = none }

    -- POINTS_SUCCEEDED completes a saga in PAYMENT_CHARGED.
    pub earned_completes :
        (g1 : Saga) (o : OrderDoc) (w : World b)
        → g1.saga_id ≡ g.saga_id
        → b.sagas.find_one g.saga_id w.sagas ≡ some g1
        → g1.state ≡ payment_charged
        → b.orders.find_one g1.order_id w.orders ≡ some o
        → o.status ≡ OrderStatus.pending
        → let (result, w') = run (handle_reply b c earned) w in
          (result ≡ ok tt) × IsDone g1.saga_id g1.order_id o w' × (w'.inventory ≡ w.inventory)
    unfolding dispatch_reply on_points_succeeded compare_and_advance run cas advance_saga
    earned_completes g1 o w key found here order pending =
        let found1 : b.sagas.find_one g1.saga_id w.sagas ≡ some g1 =
          ap (λ j. b.sagas.find_one j w.sagas) key ∙ found in
        let us = update points StepStatus.done ∷ [] in
        let won =
          cas-exact b g1.saga_id payment_charged points_earned none us [] w g1 found1 here in
        let w1 : World b = (cas b g1.saga_id payment_charged points_earned none us [] w).1 in
        let result : run (handle_reply b c earned) w ≡ (ok tt, finished g1 points_earned w1) =
          reply_read b c earned g1 w found ∙ finishes g1 points_earned w1 _ _ o won.0 order in
        let (over, same) = finished-IsDone g1 points_earned w1 _ o refl won.1 refl order pending in
        (
          ap (λ r. r.0) result,
          subst (IsDone g1.saga_id g1.order_id o) (ap (λ r. r.1) (sym result)) over,
          ap (λ r. r.1.inventory) result ∙ same,
        )

    -- And leaves a saga that is COMPLETED as it is.
    pub earned_ignored :
        (g1 : Saga) (w : World b)
        → g1.saga_id ≡ g.saga_id
        → b.sagas.find_one g.saga_id w.sagas ≡ some g1
        → g1.state ≡ completed
        → let (result, w') = run (handle_reply b c earned) w in
          (result ≡ ok tt) × Same b w w' × (w'.inventory ≡ w.inventory)
    unfolding dispatch_reply on_points_succeeded complete_unless_lost compare_and_advance run cas
    earned_ignored g1 w key found over =
        let us = update points StepStatus.done ∷ [] in
        let (nothing, same) =
          cas-lost b g1.saga_id payment_charged points_earned none us [] w (λ x e now.
            let one : g1 ≡ x = ground (arith, key, found) in
            gone x.state (ap (λ y. y.state) (sym one) ∙ over) now) in
        let w1 : World b = (cas b g1.saga_id payment_charged points_earned none us [] w).1 in
        let result : run (handle_reply b c earned) w ≡ (ok tt, w1) =
          reply_read b c earned g1 w found
          ∙ ap (λ x. run (complete_unless_lost b c g1 points_earned x) w1) nothing in
        (
          ap (λ r. r.0) result,
          subst (Same b w) (ap (λ r. r.1) (sym result)) same,
          ap (λ r. r.1.inventory) result,
        )
      where
        gone : (s : SagaState) → s ≡ completed → s ≢ payment_charged
        gone s e f = cc
