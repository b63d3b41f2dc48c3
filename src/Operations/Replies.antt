-- ===== src/Operations/Replies.antt =====
-- The replies that `handleReply` ignores.
use msa_training.Prelude.{
  ℕ, String, ◌≡◌, ◌≢◌, refl, subst, sym, Bool, true, false, Option, none, some, List, not, ◌&&◌,
  ltb, arith,
}
use msa_training.Async.{Async, return, run, ◌>>=◌}
use msa_training.Saga.State.{
  SagaState, inventory_reserved, payment_charged, points_earned, completed, compensating, failed,
  compensation_failed, same_state,
}
use msa_training.Saga.Contracts.{StepName, points, payment, Msg, Reply, ReplyData}
use msa_training.Models.{Saga, SagaStep}
use msa_training.Backend.{Backend, World}
use msa_training.Persistence.Sagas.{
  StepUpdate, Command, cas, compare_and_advance, find_by_saga_id, is_timed_out, is_active,
}
use msa_training.Saga.Orchestrator.{
  Config, find_step, or_type_error, complete_unless_lost, on_payment_succeeded_with,
  on_payment_succeeded, on_points_succeeded, compensate_stock, on_payment_failed, on_points_failed,
  on_refund_succeeded_in, on_refund_succeeded, on_refund_failed, retry_or_escalate,
  retry_or_escalate_in, dispatch_reply, handle_found, handle_reply,
}
use msa_training.Operations.Same.{Same, Same-refl, Same-trans}
use msa_training.Operations.Transition.{cas-lost}

-- COMPLETED and FAILED, which are final, and POINTS_EARNED, which is not.
unfoldable pub is_quiet : SagaState → Bool
is_quiet points_earned = true
is_quiet completed = true
is_quiet failed = true
is_quiet _ = false

quiet≢reserved : (s : SagaState) → is_quiet s ≡ true → s ≢ inventory_reserved
unfolding is_quiet
quiet≢reserved s h e = absurd (cc (subst (λ x. is_quiet x ≡ true) e h))

quiet≢charged : (s : SagaState) → is_quiet s ≡ true → s ≢ payment_charged
unfolding is_quiet
quiet≢charged s h e = absurd (cc (subst (λ x. is_quiet x ≡ true) e h))

module _ (b : Backend) (c : Config) where
  lost-Same :
      {A : Type 0} (id : String) (from to : SagaState) (step : Option StepName)
      (updates : List StepUpdate) (outbox : List Command) (w : World b)
      (k : Option Saga → Async (World b) A)
      → ((g : Saga) → b.sagas.find_one id w.sagas ≡ some g → g.state ≢ from)
      → ((v : World b) → Same b v (run (k none) v).1)
      → Same b w (run (compare_and_advance b id from to step updates outbox >>= k) w).1
  unfolding compare_and_advance run
  lost-Same id from to step updates outbox w k h t =
      let (lost, same) = cas-lost b id from to step updates outbox w h in
      let v = (cas b id from to step updates outbox w).1 in
      subst (λ o. Same b w (run (k o) v).1) (sym lost) (Same-trans b w v _ same (t v))

  ends-Same : {A : Type 0} (a : A) (v : World b) → Same b v (run (return a) v).1
  unfolding run
  ends-Same a v = Same-refl b v

  or_type_error-Same :
      (o : Option SagaStep) (f : SagaStep → Async (World b) (Unit {0})) (w : World b)
      → ((s : SagaStep) → Same b w (run (f s) w).1)
      → Same b w (run (or_type_error o >>= f) w).1
  unfolding run
  or_type_error-Same none f w h = Same-refl b w
  or_type_error-Same (some s) f w h = h s

  module _ (w : World b) (g : Saga) where
    abbrev Quiet : Type 0
    Quiet = (g' : Saga) → b.sagas.find_one g.saga_id w.sagas ≡ some g' → is_quiet g'.state ≡ true

    payment_succeeded-Same :
        Quiet
        → (enabled : Bool) (d : Option ReplyData)
        → Same b w (run (on_payment_succeeded_with b c enabled g d) w).1
    unfolding on_payment_succeeded_with complete_unless_lost
    payment_succeeded-Same q true d = or_type_error-Same (find_step points g.steps) _ w (λ s.
        lost-Same g.saga_id _ _ _ _ _ w (λ _. return tt) (λ g' e. quiet≢reserved g'.state (q g' e))
          (ends-Same tt))
    payment_succeeded-Same q false d =
        lost-Same g.saga_id _ _ _ _ _ w (complete_unless_lost b c g payment_charged)
          (λ g' e. quiet≢reserved g'.state (q g' e)) (ends-Same tt)

    refund_succeeded-Same :
        (s : SagaState) → is_quiet s ≡ true → Same b w (run (on_refund_succeeded_in b c s g) w).1
    unfolding on_refund_succeeded_in is_quiet
    refund_succeeded-Same compensating h = absurd (cc h)
    refund_succeeded-Same compensation_failed h = absurd (cc h)
    refund_succeeded-Same _ h = ends-Same tt w

    refund_failed-Same :
        (s : SagaState) → is_quiet s ≡ true → Same b w (run (retry_or_escalate_in b c s g) w).1
    unfolding retry_or_escalate_in is_quiet
    refund_failed-Same compensating h = absurd (cc h)
    refund_failed-Same _ h = ends-Same tt w

    dispatch-Same :
        Quiet
        → is_quiet g.state ≡ true
        → (m : Msg) (r : Reply) → Same b w (run (dispatch_reply b c m g r) w).1
    unfolding dispatch_reply on_payment_succeeded on_points_succeeded on_payment_failed
        on_points_failed on_refund_succeeded on_refund_failed retry_or_escalate complete_unless_lost
        compensate_stock
    dispatch-Same q here Msg.payment_succeeded r =
        payment_succeeded-Same q c.points_enabled r.payload
    dispatch-Same q here Msg.points_succeeded r =
        lost-Same g.saga_id _ _ _ _ _ w (complete_unless_lost b c g points_earned)
          (λ g' e. quiet≢charged g'.state (q g' e)) (ends-Same tt)
    dispatch-Same q here Msg.payment_failed r =
        lost-Same g.saga_id _ _ _ _ _ w (compensate_stock b c g)
          (λ g' e. quiet≢reserved g'.state (q g' e)) (ends-Same tt)
    dispatch-Same q here Msg.points_failed r =
        or_type_error-Same (find_step payment g.steps) _ w (λ s.
          lost-Same g.saga_id _ _ _ _ _ w (λ _. return tt) (λ g' e. quiet≢charged g'.state (q g' e))
            (ends-Same tt))
    dispatch-Same q here Msg.refund_succeeded r = refund_succeeded-Same g.state here
    dispatch-Same q here Msg.refund_failed r = refund_failed-Same g.state here
    dispatch-Same q here Msg.charge r = ends-Same tt w
    dispatch-Same q here Msg.refund r = ends-Same tt w
    dispatch-Same q here Msg.earn r = ends-Same tt w
    dispatch-Same q here Msg.cancel r = ends-Same tt w
    dispatch-Same q here (Msg.unknown _) r = ends-Same tt w

  found-Same :
      (w : World b) (r : Reply) (o : Option Saga)
      → b.sagas.find_one r.saga_id w.sagas ≡ o
      → ((g : Saga) → o ≡ some g → (g.saga_id ≡ r.saga_id) × (is_quiet g.state ≡ true))
      → Same b w (run (handle_found b c r o) w).1
  unfolding handle_found
  found-Same w r none e h = ends-Same tt w
  found-Same w r (some g) e h =
      let (key, quiet) = h g refl in
      dispatch-Same w g
        (λ g' e'.
          let one : g ≡ g' = ground (arith, e, e', key) in
          subst (λ x. is_quiet x.state ≡ true) one quiet)
        quiet r.type r

  -- A reply, of any type and with any payload, changes no document, publishes nothing and reports
  -- nothing if its saga is not stored, or is stored under its id in one of the states COMPLETED,
  -- FAILED and POINTS_EARNED.
  pub replies_ignored :
      (w : World b) (r : Reply)
      → ((g : Saga)
          → b.sagas.find_one r.saga_id w.sagas ≡ some g
          → (g.saga_id ≡ r.saga_id) × (is_quiet g.state ≡ true))
      → Same b w (run (handle_reply b c r) w).1
  unfolding handle_reply find_by_saga_id run
  replies_ignored w r h = found-Same w r (b.sagas.find_one r.saga_id w.sagas) refl h

-- At no time does the sweep take up a saga in one of the states COMPLETED, FAILED, POINTS_EARNED and
-- COMPENSATION_FAILED; every other one it takes up once its deadline is past.
sweep_takes_up :
    (now deadline : ℕ) (g : Saga)
    → g.deadline ≡ some deadline
    → is_timed_out now g
      ≡ (not (is_quiet g.state) && not (same_state g.state compensation_failed) && ltb deadline now)
unfolding is_timed_out is_active is_quiet same_state
sweep_takes_up now deadline g e = rw e (ground arith)
