-- ===== src/System/Handlers.antt =====
-- Each handler of the orchestrator, begun at a saga that was read, keeps the invariant at every
-- `await` and lets the state only grow.
use msa_training.Prelude.{
  arith, ℕ, ◌+◌, ◌≡◌, refl, true, Option, none, some, leb, inl, inr, Bool-cases,
}
use msa_training.Async.{call}
use msa_training.Async.Logic.{Triple-return, Triple-step, Triple-await, Triple-bind, Triple-mono}
use msa_training.Saga.State.{
  SagaState, started, inventory_reserved, payment_charged, compensating, compensation_failed,
  can_transition,
}
use msa_training.Saga.Contracts.{payment, Reply, Msg}
use msa_training.Models.{Saga, SagaStep}
use msa_training.Backend.{Backend, World}
use msa_training.Persistence.Sagas.{compare_and_advance, retry_compensation}
use msa_training.Saga.Orchestrator.{
  Config, reserve_and_advance, compensate_stock, on_payment_failed, on_points_failed,
  heal_unless_advanced, refund_stock, on_refund_succeeded_in, report, retry_or_escalate_step,
  retry_or_escalate_in, dispatch_reply, handle_timeout_in, handle_timeout,
}
use msa_training.System.Invariant.{holds_stock, Grows, Grows-refl, Inv}
use msa_training.System.Documents.{change_rest-Inv}
use msa_training.System.Advance.{cas_held-Inv, other-Unmarking}
use msa_training.System.Sagas.{retry_cas-Inv}
use msa_training.System.Snapshot.{
  Seen-grows, cas-HasReserved, cas-IsUndone, Seen-IsUndone, step_of-Triple,
}
use msa_training.System.Rules.{Keeps, Safe, done, cas_held-Safe, HoldsStock-grows, Seen-HoldsStock}
use msa_training.System.Placing.{reserve_and_advance-Safe}
use msa_training.System.Steps.{status_after}
use msa_training.System.Undoing.{
  MayGive-grows, Won, Closed, release-Safe, close-Safe, cas_undoes-Safe,
}
use msa_training.Saga.State.Path.{is_compensated, is_final}
use msa_training.System.Completing.{on_payment_succeeded_with-Safe, on_points_succeeded-Safe}

module _ (b : Backend) (c : Config) where
  pub compensate_stock-Keeps :
      (g : Saga) (o : Option Saga)
      → Keeps b (compensate_stock b c g o) (Won b g o) (λ _ _. Unit {0})
  unfolding compensate_stock compare_and_advance can_transition status_after
  compensate_stock-Keeps g none = done b
  compensate_stock-Keeps g (some g') =
      Triple-mono (λ w _ h. (h.0, h.1 g' refl)) (λ _ _ _ h. h)
        (release-Safe b g _ (
          close-Safe b g _ (
            cas_undoes-Safe b g compensating _ _ _ _ refl (omega arith) (λ _. refl) (λ _. done b))))

  pub on_payment_failed-Safe : (g : Saga) → Safe b g (on_payment_failed b c g)
  unfolding on_payment_failed compare_and_advance can_transition holds_stock is_final is_compensated
  on_payment_failed-Safe g =
      Triple-await _ _ (Won b g)
        (λ w i s.
          let (i', gr) =
            cas_held-Inv b g.saga_id inventory_reserved compensating _ _ _ w refl (omega arith) refl
              refl (other-Unmarking _ refl) i in
          (
            i',
            gr,
            λ u gr'. (
              Seen-grows b g _ u (Seen-grows b g w _ s gr) gr',
              λ g' e. MayGive-grows b g _ u gr' (
                HoldsStock-grows b g w _ gr (
                    Seen-HoldsStock b g w s
                      (cas-HasReserved b g inventory_reserved compensating _ _ _ w g' s refl i e)),
                cas-IsUndone b g.saga_id inventory_reserved compensating _ _ _ w g' refl e,
              ),
            ),
          ))
        (compensate_stock-Keeps g)

  pub on_points_failed-Safe : (g : Saga) → Safe b g (on_points_failed b c g)
  unfolding on_points_failed compare_and_advance can_transition holds_stock is_final
  on_points_failed-Safe g =
      step_of-Triple (λ _. tt) payment g _
        λ s _.
          cas_held-Safe b g payment_charged compensating _ _ _ _ refl (omega arith) refl refl
            (other-Unmarking _ refl) (λ _. done b)

  heal_unless_advanced-Keeps :
      (g : Saga) (o : Option Saga)
      → Keeps b (heal_unless_advanced b c g o) (Closed b g) (λ _ _. Unit {0})
  unfolding heal_unless_advanced compare_and_advance can_transition status_after
  heal_unless_advanced-Keeps g (some _) = done b
  heal_unless_advanced-Keeps g none =
      cas_undoes-Safe b g compensation_failed _ _ _ _ refl (omega arith) (λ _. refl) (λ _. done b)

  refund_stock-Safe :
      (g : Saga)
      → holds_stock g.state ≡ true
      → is_compensated g.state ≡ true
      → Safe b g (refund_stock b c g)
  unfolding refund_stock compare_and_advance can_transition status_after
  refund_stock-Safe g held undone =
      Triple-mono
        (λ w _ s. (s, (Seen-HoldsStock b g w s (s.reserved held), Seen-IsUndone b g w s undone)))
        (λ _ _ _ h. h)
        (release-Safe b g _ (
          close-Safe b g _ (
            cas_undoes-Safe b g compensating _ _ _ _ refl (omega arith) (λ _. refl)
              (heal_unless_advanced-Keeps g))))

  on_refund_succeeded_in-Safe :
      (s : SagaState) (g : Saga) → g.state ≡ s → Safe b g (on_refund_succeeded_in b c s g)
  unfolding on_refund_succeeded_in holds_stock is_compensated
  on_refund_succeeded_in-Safe compensating g e = refund_stock-Safe g (rw e) (rw e)
  on_refund_succeeded_in-Safe compensation_failed g e = refund_stock-Safe g (rw e) (rw e)
  on_refund_succeeded_in-Safe _ g e = done b

  report-Safe : (g : Saga) (n : ℕ) (o : Option Saga) → Safe b g (call (report b c g n o))
  unfolding report
  report-Safe g n o =
      Triple-step _ _ (Seen-grows b g) (λ w i _. quiet o w i) (λ _. Triple-return (λ _ _ _. tt))
    where
      quiet :
          (o : Option Saga) (w : World b)
          → Inv b w
          → Inv b (report b c g n o w).1 × Grows b w (report b c g n o w).1
      quiet none w i = (i, Grows-refl b w)
      quiet (some _) w i = change_rest-Inv b w w.clock w.broker _ i

  retry_or_escalate_step-Safe :
      (g : Saga) (s : SagaStep) → Safe b g (retry_or_escalate_step b c g s)
  unfolding retry_or_escalate_step compare_and_advance retry_compensation can_transition holds_stock
      is_final
  retry_or_escalate_step-Safe g s =
      elim (Bool-cases (leb c.max_compensate_attempts (s.compensate_attempts + 1))) [
        | inl enough ↦ rw enough (
            cas_held-Safe b g compensating compensation_failed _ _ _ _ refl (omega arith) refl refl
              (other-Unmarking _ refl) (report-Safe g (s.compensate_attempts + 1)))
        | inr again ↦ rw again (
            Triple-step _ _ (Seen-grows b g)
              (λ w i _. retry_cas-Inv b g.saga_id payment s.compensate_attempts _ w (refl, refl) i)
              (λ _. done b))
      ]

  retry_or_escalate_in-Safe : (s : SagaState) (g : Saga) → Safe b g (retry_or_escalate_in b c s g)
  unfolding retry_or_escalate_in
  retry_or_escalate_in-Safe compensating g =
      step_of-Triple (λ _. tt) payment g _ λ s _. retry_or_escalate_step-Safe g s
  retry_or_escalate_in-Safe _ g = done b

  pub dispatch_reply-Safe : (m : Msg) (g : Saga) (r : Reply) → Safe b g (dispatch_reply b c m g r)
  unfolding dispatch_reply
  dispatch_reply-Safe Msg.payment_succeeded g r =
      on_payment_succeeded_with-Safe b c c.points_enabled g r.payload
  dispatch_reply-Safe Msg.points_succeeded g r = on_points_succeeded-Safe b c g
  dispatch_reply-Safe Msg.payment_failed g r = on_payment_failed-Safe g
  dispatch_reply-Safe Msg.points_failed g r = on_points_failed-Safe g
  dispatch_reply-Safe Msg.refund_succeeded g r = on_refund_succeeded_in-Safe g.state g refl
  dispatch_reply-Safe Msg.refund_failed g r = retry_or_escalate_in-Safe g.state g
  dispatch_reply-Safe _ g r = done b

  handle_timeout_in-Safe : (s : SagaState) (g : Saga) → Safe b g (handle_timeout_in b c s g)
  unfolding handle_timeout_in
  handle_timeout_in-Safe started g =
      Triple-bind (reserve_and_advance b c g) _ (reserve_and_advance-Safe b c g) (λ _. done b)
  handle_timeout_in-Safe inventory_reserved g = on_payment_failed-Safe g
  handle_timeout_in-Safe payment_charged g = on_points_failed-Safe g
  handle_timeout_in-Safe compensating g = retry_or_escalate_in-Safe g.state g
  handle_timeout_in-Safe _ g = done b

  pub handle_timeout-Safe : (g : Saga) → Safe b g (handle_timeout b c g)
  unfolding handle_timeout
  handle_timeout-Safe g = handle_timeout_in-Safe g.state g
