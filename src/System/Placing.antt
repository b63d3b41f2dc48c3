-- ===== src/System/Placing.antt =====
-- The reservation of an order's stock, begun at a saga that was read, keeps the invariant at every
-- `await` and lets the state only grow.
use msa_training.Prelude.{
  ◌≡◌, refl, ap, ◌∙◌, sym, subst, Bool, true, false, none, some, [], ◌∷◌, arith,
}
use msa_training.Prelude.Int.{ℤ}
use msa_training.Errors.{OrderStatus}
use msa_training.Async.Logic.{Triple-return, Triple-await, Triple-bind, Triple-mono}
use msa_training.Saga.State.{started, inventory_reserved, can_transition}
use msa_training.Saga.Contracts.{inventory, payment, stock}
use msa_training.Models.{Saga, StepStatus}
use msa_training.Backend.{Backend}
use msa_training.Persistence.Sagas.{compare_and_advance, advance_saga}
use msa_training.Saga.Orchestrator.{Config, update, settle_reservation, reserve_and_advance}
use msa_training.System.Invariant.{payload_at, holds_stock, HasReserved}
use msa_training.System.Steps.{status_after, status_at-update_steps}
use msa_training.System.Advance.{Unmarking, cas-Inv, cas_refuses-Inv}
use msa_training.System.Snapshot.{
  Seen, Seen-grows, Seen-HasOrdered, step_of-Triple, stock_of-Triple, amount_of-Triple,
}
use msa_training.System.Rules.{Keeps, Safe, reserve-Keeps, set_status-Safe, HoldsStock}

done-Unmarking : Unmarking (update inventory StepStatus.done ∷ [])
unfolding status_after
done-Unmarking none e = absurd (cc e)
done-Unmarking (some _) e = absurd (cc e)

module _ (b : Backend) (c : Config) where
  pub settle_reservation-Keeps :
      (g : Saga) (amount : ℤ) (r : Bool)
      → Keeps b
          (settle_reservation b c g amount r)
          (λ w. Seen b g w × (r ≡ true → HoldsStock b g w))
          (λ _ _. Unit {0})
  unfolding settle_reservation compare_and_advance advance_saga holds_stock can_transition
  settle_reservation-Keeps g amount false =
      Triple-await _ _ (λ _. Seen b g)
        (λ w i h.
          let (i', gr) = cas_refuses-Inv b g.saga_id _ _ w (omega arith) i in
          (i', gr, λ u gr'. Seen-grows b g _ u (Seen-grows b g w _ h.0 gr) gr'))
        (λ _. set_status-Safe b g OrderStatus.failed _ (Triple-return (λ _ _ _. tt)))
  settle_reservation-Keeps g amount true =
      Triple-await _ _ (λ _ _. Unit {0})
        (λ w i h.
          let (i', gr) =
            cas-Inv b g.saga_id started inventory_reserved _ _ _ w refl (omega arith)
              (λ g' e _ ok.
                let same : h.0.stored ≡ g' = ground (arith, h.0.found) in
                record {
                  reserved = λ _. h.1 refl ok.item_id ok.quantity (
                      sym (h.0.grown.same_payloads inventory)
                      ∙ subst
                          (λ x. payload_at inventory x.steps ≡ some (stock ok.item_id ok.quantity))
                          (sym same) ok.payload);
                  settled = λ e. absurd (cc e);
                  returned = λ e. ok.returned (
                      done-Unmarking _ (
                        sym (
                          status_at-update_steps (update inventory StepStatus.done ∷ []) inventory
                            g'.steps)
                        ∙ e));
                  ended = λ e. absurd (cc e);
                })
              i in
          (i', gr, λ _ _. tt))
        (λ _. Triple-return (λ _ _ _. tt))

  pub reserve_and_advance-Safe : (g : Saga) → Safe b g (reserve_and_advance b c g)
  unfolding reserve_and_advance
  reserve_and_advance-Safe g =
      step_of-Triple (λ _. tt) inventory g _
        λ s e.
          stock_of-Triple (λ _. tt) s.payload _
            λ item_id quantity p.
              step_of-Triple (λ _. tt) payment g _
                λ pay _.
                  amount_of-Triple (λ _. tt) pay.payload _
                    λ amount.
                      Triple-bind _ _
                        (reserve-Keeps b item_id quantity g.saga_id (Seen-grows b g)
                          (λ w s. Seen-HasOrdered b g w item_id quantity s (e ∙ ap some p)))
                        λ r.
                          Triple-mono
                            (λ w _ h. (
                              h.0,
                              λ reserved. λ item quantity' at.
                                  let same : item_id ≡ item = ground (arith, e, p) in
                                  subst (λ i. HasReserved b w i g.saga_id) same (h.1 reserved),
                            ))
                            (λ _ _ _ h. h) (settle_reservation-Keeps g amount r)
