-- ===== src/System/Advance.antt =====
-- The transitions of `compareAndAdvance` keep the invariant, and make the state grow.
use msa_training.Prelude.{
  ◌+◌, String, ◌≡◌, refl, ap, ◌∙◌, sym, subst, true, false, Option, some, List, [], none, ◌∷◌,
  length, arith, inl, inr,
}
use msa_training.Prelude.Int.{ℤ}
use msa_training.Saga.State.{
  SagaState, started, completed, failed, same_state, same_state_iff, can_transition,
}
use msa_training.Saga.State.Path.{is_final}
use msa_training.Saga.Contracts.{StepName, inventory, same_step, stock}
use msa_training.Models.{Saga, StepStatus}
use msa_training.Backend.{Backend, World}
use msa_training.Persistence.Sagas.{
  StepUpdate, Command, new_entries, update_steps, advance_saga, cas,
}
use msa_training.Saga.Orchestrator.{update}
use msa_training.System.Invariant.{
  payload_at, status_at, holds_stock, Standing, SagaOk, IsSettled, HasReleased, Grows, Inv,
}
use msa_training.System.Commands.{Asked, Affords, more-Asked}
use msa_training.System.Steps.{
  advance_saga-SagaGrows, status_after, status_at-update_steps, payload_at-status_at,
}
use msa_training.System.Documents.{update-Inv}

-- The updates do not mark the first step as compensated.
abbrev pub Unmarking : List StepUpdate → Type 0
Unmarking us =
    (mark : Option StepStatus)
    → status_after inventory us mark ≡ some StepStatus.compensated
    → mark ≡ some StepStatus.compensated

-- As none that is about another step does.
pub other-Unmarking : (u : StepUpdate) → same_step inventory u.name ≡ false → Unmarking (u ∷ [])
unfolding status_after
other-Unmarking u other none e = absurd (cc e)
other-Unmarking u other (some status) e = rw other at e

module _ (b : Backend) where
  -- A transition of the table, where the stock is there for the state that it enters, and which asks
  -- for no more than that state may have asked for.
  pub cas-Inv :
      (id : String) (from to : SagaState) (step : Option StepName) (us : List StepUpdate)
      (cs : List Command) (w : World b)
      → can_transition from to ≡ true
      → Affords from to cs
      → ((g : Saga)
          → b.sagas.find_one id w.sagas ≡ some g
          → g.state ≡ from
          → (ok : SagaOk b w id g)
          → Standing b w id ok.item_id to g.order_id
              (status_at inventory (update_steps us g.steps)))
      → Inv b w
      → Inv b (cas b id from to step us cs w).1 × Grows b w (cas b id from to step us cs w).1
  unfolding cas advance_saga
  cas-Inv id from to step us cs w t affords backs inv =
      let es = new_entries b.random_uuid w.drawn cs in
      update-Inv b w id (λ g. same_state g.state from) (advance_saga to step us es)
        (w.drawn + length cs) (omega arith) (λ g h. advance_saga-SagaGrows from to step us es g t h)
        (λ g e h.
          let here_from = (same_state_iff g.state from).0 h in
          (
            backs g e here_from,
            λ asked.
                more-Asked from to b.random_uuid w.drawn g.outbox cs affords
                  (subst (λ s. Asked s g.outbox) here_from asked),
          ))
        inv

  -- What a transition out of a state with stock, to one that is not final, leaves of the standing.
  -- It does not mark the first step as compensated.
  pub cas_held-Inv :
      (id : String) (from to : SagaState) (step : Option StepName) (us : List StepUpdate)
      (cs : List Command) (w : World b)
      → can_transition from to ≡ true
      → Affords from to cs
      → holds_stock from ≡ true
      → is_final to ≡ false
      → Unmarking us
      → Inv b w
      → Inv b (cas b id from to step us cs w).1 × Grows b w (cas b id from to step us cs w).1
  unfolding is_final
  cas_held-Inv id from to step us cs w t affords held goes_on unmarking =
      cas-Inv id from to step us cs w t affords λ g _ here_from ok. record {
        reserved = λ _. ok.reserved (rw here_from held);
        settled = λ e. absurd (cc (sym goes_on ∙ ap is_final e));
        returned =
            λ e. ok.returned (unmarking _ (sym (status_at-update_steps us inventory g.steps) ∙ e));
        ended = λ e. absurd (cc (sym goes_on ∙ ap is_final e));
      }

  -- A saga is completed once its order has ended.
  pub cas_completes-Inv :
      (id : String) (from : SagaState) (step : Option StepName) (cs : List Command) (w : World b)
      → can_transition from completed ≡ true
      → Affords from completed cs
      → holds_stock from ≡ true
      → ((g : Saga) → b.sagas.find_one id w.sagas ≡ some g → IsSettled b w g.order_id)
      → Inv b w
      → Inv b (cas b id from completed step [] cs w).1
        × Grows b w (cas b id from completed step [] cs w).1
  unfolding update_steps
  cas_completes-Inv id from step cs w t affords held over =
      cas-Inv id from completed step [] cs w t affords λ g found here_from ok. record {
        reserved = λ _. ok.reserved (rw here_from held);
        settled = λ _. over g found;
        returned = ok.returned;
        ended = λ e. absurd (cc e);
      }

  -- A saga fails as refused; its first step is marked so.
  pub cas_refuses-Inv :
      (id : String) (step : Option StepName) (cs : List Command) (w : World b)
      → Affords started failed cs
      → Inv b w
      → Inv b (cas b id started failed step (update inventory StepStatus.failed ∷ []) cs w).1
        × Grows b w (cas b id started failed step (update inventory StepStatus.failed ∷ []) cs w).1
  unfolding holds_stock can_transition status_after
  cas_refuses-Inv id step cs w affords =
      cas-Inv id started failed step _ cs w refl affords λ g _ _ ok.
        let (status, at) = payload_at-status_at inventory g.steps _ ok.payload in
        let mark =
          status_at-update_steps (update inventory StepStatus.failed ∷ []) inventory g.steps
          ∙ rw at refl in
        record {
          reserved = λ h. absurd (cc h);
          settled = λ h. absurd (cc h);
          returned = λ e. absurd (cc (sym mark ∙ e));
          ended = λ _. inl mark;
        }

  -- Or as compensated, once its stock has been given back and its order has ended.
  pub cas_undoes-Inv :
      (id : String) (from : SagaState) (step : Option StepName) (us : List StepUpdate)
      (cs : List Command) (w : World b)
      → can_transition from failed ≡ true
      → Affords from failed cs
      → ((status : StepStatus)
          → status_after inventory us (some status) ≡ some StepStatus.compensated)
      → ((g : Saga) (item_id : String) (quantity : ℤ)
          → b.sagas.find_one id w.sagas ≡ some g
          → payload_at inventory g.steps ≡ some (stock item_id quantity)
          → HasReleased b w item_id id × IsSettled b w g.order_id)
      → Inv b w
      → Inv b (cas b id from failed step us cs w).1
        × Grows b w (cas b id from failed step us cs w).1
  unfolding holds_stock
  cas_undoes-Inv id from step us cs w t affords marking closed =
      cas-Inv id from failed step us cs w t affords λ g found _ ok.
        let (status, at) = payload_at-status_at inventory g.steps _ ok.payload in
        record {
          reserved = λ h. absurd (cc h);
          settled = λ h. absurd (cc h);
          returned = λ _. closed g ok.item_id ok.quantity found ok.payload;
          ended = λ _. inr (
              status_at-update_steps us inventory g.steps
              ∙ ap (status_after inventory us) at
              ∙ marking status);
        }
