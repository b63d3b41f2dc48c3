-- ===== src/Operations/Success/Paid.antt =====
-- A paid order: the replies PAYMENT_SUCCEEDED and POINTS_SUCCEEDED, one handled after the other.
use msa_training.Prelude.{
  List, Bool-cases, inl, inr, ◌≡◌, refl, ap, ◌∙◌, Bool, true, false, Option, some, [], ◌∷◌,
}
use msa_training.Errors.{OrderStatus, ok}
use msa_training.Async.{run}
use msa_training.Saga.State.{inventory_reserved, payment_charged, completed}
use msa_training.Saga.Contracts.{payment, points, ReplyData}
use msa_training.Models.{Saga, SagaStep, StepStatus, OrderDoc}
use msa_training.Backend.{Backend, World}
use msa_training.Persistence.Sagas.{StepUpdate, Command, cas, advance_saga, compare_and_advance}
use msa_training.Saga.Orchestrator.{
  Config, earn_command, find_step, on_payment_succeeded_with, on_payment_succeeded, dispatch_reply,
  handle_reply,
}
use msa_training.Operations.Reading.{step_read, reply_read}
use msa_training.Operations.Transition.{cas-exact}
use msa_training.Operations.Success.{
  IsDone, finished, finishes, finished-IsDone, paid, earned, earned_completes, earned_ignored,
}

module _ (b : Backend) (c : Config) (g : Saga) (points_step : SagaStep)
    (reply_data : Option ReplyData) (o : OrderDoc) (w : World b)
    (has_points : find_step points g.steps ≡ some points_step)
    (found : b.sagas.find_one g.saga_id w.sagas ≡ some g) (state : g.state ≡ inventory_reserved)
    (order : b.orders.find_one g.order_id w.orders ≡ some o)
    (pending : o.status ≡ OrderStatus.pending) where
  abbrev done_payment : List StepUpdate
  done_payment = record { name = payment; status = StepStatus.done; reply_data = reply_data } ∷ []

  -- the state after the transition to PAYMENT_CHARGED, with these commands
  abbrev charged : List Command → Option Saga × World b
  charged cs = cas b g.saga_id inventory_reserved payment_charged (some points) done_payment cs w

  abbrev AreDone : Type 0
  AreDone =
      let (first, w1) = run (handle_reply b c (paid b c g reply_data)) w in
      let (second, w2) = run (handle_reply b c (earned b c g)) w1 in
      (first ≡ ok tt)
      × (second ≡ ok tt)
      × IsDone b c g.saga_id g.order_id o w2
      × (w2.inventory ≡ w.inventory)

  reads :
      (enabled : Bool)
      → c.points_enabled ≡ enabled
      → run (handle_reply b c (paid b c g reply_data)) w
        ≡ run (on_payment_succeeded_with b c enabled g reply_data) w
  unfolding dispatch_reply on_payment_succeeded
  reads enabled e =
      reply_read b c (paid b c g reply_data) g w found
      ∙ ap (λ p. run (on_payment_succeeded_with b c p g reply_data) w) e

  with_points : c.points_enabled ≡ true → AreDone
  unfolding on_payment_succeeded_with compare_and_advance run cas advance_saga
  with_points e =
      let w1 : World b = (charged (earn_command g points_step.payload ∷ [])).1 in
      let result : run (handle_reply b c (paid b c g reply_data)) w ≡ (ok tt, w1) =
        reads true e ∙ step_read points_step (find_step points g.steps) _ w has_points in
      let (_, stored) =
        cas-exact b g.saga_id inventory_reserved payment_charged (some points) done_payment
          (earn_command g points_step.payload ∷ []) w g found state in
      let (second, over, same) = earned_completes b c g _ o w1 refl stored refl order pending in
      rw result (refl, second, over, same)

  without_points : c.points_enabled ≡ false → AreDone
  unfolding on_payment_succeeded_with compare_and_advance run cas advance_saga
  without_points e =
      let w1 : World b = (charged []).1 in
      let (won, stored) =
        cas-exact b g.saga_id inventory_reserved payment_charged (some points) done_payment [] w g
          found state in
      let result : run (handle_reply b c (paid b c g reply_data)) w
          ≡ (ok tt, finished b c g payment_charged w1) =
        reads false e ∙ finishes b c g payment_charged w1 _ _ o won order in
      let (((g2, saved, key, over), success), same) =
        finished-IsDone b c g payment_charged w1 _ o refl stored refl order pending in
      let (second, as_was, items) =
        earned_ignored b c g g2 (finished b c g payment_charged w1) key saved over in
      rw result (
        refl,
        second,
        ((g2, as_was.sagas g.saga_id ∙ saved, key, over), as_was.orders g.order_id ∙ success),
        items ∙ same,
      )

  -- A saga that is stored in INVENTORY_RESERVED, with its step for the points and a pending order,
  -- and whose payment and then whose points are reported as successful, one reply handled after the
  -- other, is then COMPLETED with its order in SUCCESS, whether or not points are enabled. No item
  -- changes, and neither reply's handling throws.
  pub paid_order_completes :
      let (first, w1) = run (handle_reply b c (paid b c g reply_data)) w in
      let (second, w2) = run (handle_reply b c (earned b c g)) w1 in
      (first ≡ ok tt)
      × (second ≡ ok tt)
      × ((g' : Saga) × (b.sagas.find_one g.saga_id w2.sagas ≡ some g')
          × (g'.saga_id ≡ g.saga_id)
          × (g'.state ≡ completed))
      × (b.orders.find_one g.order_id w2.orders ≡ some (record o { status = OrderStatus.success }))
      × (w2.inventory ≡ w.inventory)
  paid_order_completes =
      let both : AreDone = elim (Bool-cases c.points_enabled) [
        | inl on ↦ with_points on
        | inr off ↦ without_points off
      ] in
      let (first, second, (saga, success), items) = both in (first, second, saga, success, items)
