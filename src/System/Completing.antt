-- ===== src/System/Completing.antt =====
-- The handlers of good replies, begun at a saga that was read, keep the invariant at every `await`
-- and let the state only grow.
use msa_training.Prelude.{
  ap, arith, subst, sym, ◌∙◌, ◌≡◌, refl, Bool, true, false, Option, none, some,
}
use msa_training.Errors.{OrderStatus}
use msa_training.Async.Logic.{Triple-return, Triple-step, Triple-await}
use msa_training.Saga.State.{
  SagaState, inventory_reserved, payment_charged, points_earned, completed, can_transition,
}
use msa_training.Saga.Contracts.{points, ReplyData}
use msa_training.Models.{Saga}
use msa_training.Backend.{Backend, World}
use msa_training.Persistence.Sagas.{compare_and_advance}
use msa_training.Saga.Orchestrator.{
  Config, complete_unless_lost, on_payment_succeeded_with, on_points_succeeded,
}
use msa_training.System.Invariant.{holds_stock, Grows}
use msa_training.System.Commands.{none-Affords}
use msa_training.System.Advance.{other-Unmarking}
use msa_training.System.Snapshot.{Seen, Seen-grows, step_of-Triple}
use msa_training.System.Rules.{Safe, done, cas_held-Safe}
use msa_training.Persistence.Orders.{set_status, update_status}
use msa_training.Persistence.Orders.Casting.{cast-Triple}
use msa_training.System.Advance.{cas_completes-Inv}
use msa_training.System.Orders.{set_status-Inv, set_status-Closes}
use msa_training.System.Invariant.{IsSettled, IsSettled-grows}
use msa_training.Saga.State.Path.{is_final}

module _ (b : Backend) (c : Config) where
  -- The saga was seen, and its order has ended.
  abbrev Over : Saga → World b → Type 0
  Over g w = Seen b g w × IsSettled b w g.order_id

  Over-grows : (g : Saga) (u v : World b) → Over g u → Grows b u v → Over g v
  Over-grows g u v (s, e) gr = (Seen-grows b g u v s gr, IsSettled-grows b u v g.order_id gr e)

  pub complete_unless_lost-Safe :
      (g : Saga) (from : SagaState) (o : Option Saga)
      → can_transition from completed ≡ true
      → holds_stock from ≡ true
      → Safe b g (complete_unless_lost b c g from o)
  unfolding complete_unless_lost compare_and_advance update_status
  complete_unless_lost-Safe g from none t held = done b
  complete_unless_lost-Safe g from (some _) t held =
      cast-Triple b (λ key. set_status b key OrderStatus.success) _ (b.cast_id g.order_id)
        (λ _ _. tt)
        (λ key cast.
          Triple-await _ _ (λ _. Over g)
            (λ w i s.
              let (i', gr) = set_status-Inv b key OrderStatus.success w i in
              (
                i',
                gr,
                λ u gr'.
                    Over-grows g _ u
                      (
                        Seen-grows b g w _ s gr,
                        set_status-Closes b g.order_id key OrderStatus.success w refl cast
                            s.ordered,
                      )
                      gr',
              ))
            (λ _.
              Triple-step _ _ (Over-grows g)
                (λ w i p.
                  cas_completes-Inv b g.saga_id from _ _ w t (none-Affords from completed t) held
                    (λ g' e.
                      let same : p.0.stored ≡ g' = ground (arith, p.0.found) in
                      subst (IsSettled b w) (sym p.0.grown.same_order ∙ ap (λ x. x.order_id) same)
                        p.1)
                    i)
                (λ _. Triple-return (λ _ _ _. tt))))

  pub on_payment_succeeded_with-Safe :
      (enabled : Bool) (g : Saga) (r : Option ReplyData)
      → Safe b g (on_payment_succeeded_with b c enabled g r)
  unfolding on_payment_succeeded_with compare_and_advance can_transition holds_stock is_final
  on_payment_succeeded_with-Safe true g r =
      step_of-Triple (λ _. tt) points g _
        λ s _.
          cas_held-Safe b g inventory_reserved payment_charged _ _ _ _ refl (omega arith) refl refl
            (other-Unmarking _ refl) (λ _. done b)
  on_payment_succeeded_with-Safe false g r =
      cas_held-Safe b g inventory_reserved payment_charged _ _ _ _ refl (omega arith) refl refl
        (other-Unmarking _ refl) (λ o. complete_unless_lost-Safe g payment_charged o refl refl)

  pub on_points_succeeded-Safe : (g : Saga) → Safe b g (on_points_succeeded b c g)
  unfolding on_points_succeeded compare_and_advance can_transition holds_stock is_final
  on_points_succeeded-Safe g =
      cas_held-Safe b g payment_charged points_earned _ _ _ _ refl (omega arith) refl refl
        (other-Unmarking _ refl) (λ o. complete_unless_lost-Safe g points_earned o refl refl)
