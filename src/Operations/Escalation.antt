-- ===== src/Operations/Escalation.antt =====
-- A refund that keeps failing: `_retryOrEscalateCompensation`, reply after reply.
use msa_training.Prelude.{
  ℕ, zero, suc, ◌+◌, String, ◌≡◌, refl, ap, sym, subst, ◌∙◌, true, false, Option, none, some, List,
  [], ◌∷◌, leb, arith,
}
use msa_training.Errors.{ok}
use msa_training.Async.{run}
use msa_training.Mongo.Branches.{update-met}
use msa_training.Saga.State.{SagaState, compensating, compensation_failed, same_state_iff}
use msa_training.Saga.Contracts.{payment, Reply, Msg}
use msa_training.Models.{Saga, SagaStep, StepStatus, OutboxEntry}
use msa_training.Backend.{Backend, World, compensation_given_up}
use msa_training.Persistence.Sagas.{
  cas, retry_cas, retry_saga, may_retry, new_entries, compare_and_advance, retry_compensation,
}
use msa_training.Saga.Orchestrator.{
  Config, update, find_step, report, refund_command, payment_id_of, retry_or_escalate_step,
  retry_or_escalate_in, retry_or_escalate, on_refund_failed, dispatch_reply, handle_reply,
}
use msa_training.Operations.Reading.{step_read, reply_read}
use msa_training.Operations.Transition.{cas-won}
use msa_training.Operations.Retry.{counted_step, found-attempt, found-counted}

module _ (b : Backend) (c : Config) (id : String) where
  abbrev pub refund_failed : Reply
  refund_failed = record { saga_id = id; type = Msg.refund_failed; payload = none }

  -- The state after `n` replies REFUND_FAILED, one handled after the other.
  abbrev pub refusals : ℕ → World b → World b
  refusals zero w = w
  refusals (suc n) w = refusals n (run (handle_reply b c refund_failed) w).1

  module _ (g : Saga) (s : SagaStep) (w : World b) (state : g.state ≡ compensating)
      (has_step : find_step payment g.steps ≡ some s) where
    in_state :
        (t : SagaState)
        → t ≡ compensating
        → run (retry_or_escalate_in b c t g) w ≡ run (retry_or_escalate_step b c g s) w
    unfolding retry_or_escalate_in
    in_state t e =
        subst (λ x. run (retry_or_escalate_in b c x g) w ≡ run (retry_or_escalate_step b c g s) w)
          (sym e)
          (step_read s (find_step payment g.steps) (retry_or_escalate_step b c g) w has_step)

    reads :
        b.sagas.find_one id w.sagas ≡ some g
        → run (handle_reply b c refund_failed) w ≡ run (retry_or_escalate_step b c g s) w
    unfolding dispatch_reply on_refund_failed retry_or_escalate
    reads found = reply_read b c refund_failed g w found ∙ in_state g.state state

    retries :
        leb c.max_compensate_attempts (s.compensate_attempts + 1) ≡ false
        → run (retry_or_escalate_step b c g s) w ≡ (
          ok tt,
          (retry_cas b g.saga_id payment s.compensate_attempts
              (refund_command g (payment_id_of s) ∷ [])
              w).1,
        )
    unfolding retry_or_escalate_step retry_compensation run
    retries again = rw again refl

    reported :
        (n : ℕ) (o : Option Saga) (g' : Saga) (v : World b)
        → o ≡ some g'
        → (report b c g n o v).1
          ≡ record v { alerts = compensation_given_up g.saga_id n ∷ v.alerts }
    unfolding report
    reported n none g' v e = absurd (cc e)
    reported n (some _) g' v e = refl

    gives_up :
        leb c.max_compensate_attempts (s.compensate_attempts + 1) ≡ true
        → b.sagas.find_one g.saga_id w.sagas ≡ some g
        → let w' = (run (retry_or_escalate_step b c g s) w).1 in
          (g' : Saga) × (b.sagas.find_one g.saga_id w'.sagas ≡ some g')
          × (g'.state ≡ compensation_failed)
          × (w'.alerts ≡ compensation_given_up g.saga_id (s.compensate_attempts + 1) ∷ w.alerts)
    unfolding retry_or_escalate_step compare_and_advance run cas
    gives_up enough found =
        let (g', won, stored, here, _, _, _, _, _) =
          cas-won b g.saga_id compensating compensation_failed none
            (update payment StepStatus.failed ∷ []) [] w g found state in
        let rep = reported (s.compensate_attempts + 1) _ g' _ won in
        rw enough (
          g',
          ap (λ v. b.sagas.find_one g.saga_id v.sagas) rep ∙ stored,
          here,
          ap (λ v. v.alerts) rep,
        )

  -- the saga and the world after a retry
  abbrev entries : Saga → SagaStep → World b → List OutboxEntry
  entries g s w = new_entries b.random_uuid w.drawn (refund_command g (payment_id_of s) ∷ [])

  abbrev retried_saga : Saga → SagaStep → World b → Saga
  retried_saga g s w = retry_saga payment s.compensate_attempts (entries g s w) g

  abbrev retried_world : Saga → SagaStep → World b → World b
  retried_world g s w =
      (retry_cas b g.saga_id payment s.compensate_attempts (refund_command g (payment_id_of s) ∷ [])
        w).1

  retry_stored :
      (g : Saga) (s : SagaStep) (w : World b)
      → g.state ≡ compensating
      → find_step payment g.steps ≡ some s
      → g.saga_id ≡ id
      → b.sagas.find_one id w.sagas ≡ some g
      → b.sagas.find_one id (retried_world g s w).sagas ≡ some (retried_saga g s w)
  unfolding retry_cas may_retry
  retry_stored g s w state has_step keyed found =
      let (_, stored, _) =
        update-met b.sagas g.saga_id (may_retry payment s.compensate_attempts)
          (retry_saga payment s.compensate_attempts (entries g s w)) w.sagas g
          (subst (λ i. b.sagas.find_one i w.sagas ≡ some g) (sym keyed) found)
          (rw ((same_state_iff g.state compensating).1 state) (found-attempt g.steps s has_step)) in
      subst (λ i. b.sagas.find_one i (retried_world g s w).sagas ≡ some (retried_saga g s w)) keyed
        stored

  -- A saga in COMPENSATING whose refund is refused again and again does not stay there: with `k`
  -- retries left below the maximum, `k + 1` replies REFUND_FAILED, handled one after the other, take it
  -- to COMPENSATION_FAILED, and the operators are told once.
  pub refusals_escalate :
      (k : ℕ) (g : Saga) (s : SagaStep) (w : World b)
      → b.sagas.find_one id w.sagas ≡ some g
      → g.saga_id ≡ id
      → g.state ≡ compensating
      → find_step payment g.steps ≡ some s
      → s.compensate_attempts + k + 1 ≡ c.max_compensate_attempts
      → (g' : Saga) × (b.sagas.find_one id (refusals (suc k) w).sagas ≡ some g')
        × (g'.state ≡ compensation_failed)
        × ((refusals (suc k) w).alerts
            ≡ compensation_given_up id c.max_compensate_attempts ∷ w.alerts)
  unfolding retry_saga retry_cas counted_step
  refusals_escalate zero g s w found keyed state has_step left =
      let last : leb c.max_compensate_attempts (s.compensate_attempts + 1) ≡ true =
        ground (arith, left) in
      let handled = reads g s w state has_step found in
      let (g', stored, here, told) =
        gives_up g s w state has_step last
          (subst (λ i. b.sagas.find_one i w.sagas ≡ some g) (sym keyed) found) in
      let count : s.compensate_attempts + 1 ≡ c.max_compensate_attempts = omega (arith, left) in
      (
        g',
        ap (λ r. b.sagas.find_one id r.1.sagas) handled
            ∙ subst
                (λ i. b.sagas.find_one i (run (retry_or_escalate_step b c g s) w).1.sagas ≡ some g')
                keyed stored,
        here,
        ap (λ r. r.1.alerts) handled
            ∙ told
            ∙ ap (λ i. compensation_given_up i (s.compensate_attempts + 1) ∷ w.alerts) keyed
            ∙ ap (λ n. compensation_given_up id n ∷ w.alerts) count,
      )
  refusals_escalate (suc k) g s w found keyed state has_step left =
      let again : leb c.max_compensate_attempts (s.compensate_attempts + 1) ≡ false =
        ground (arith, left) in
      let handled = reads g s w state has_step found ∙ retries g s w state has_step again in
      let later = retried_world g s w in
      subst
        (λ v.
          (g' : Saga) × (b.sagas.find_one id (refusals (suc k) v).sagas ≡ some g')
          × (g'.state ≡ compensation_failed)
          × ((refusals (suc k) v).alerts
              ≡ compensation_given_up id c.max_compensate_attempts ∷ w.alerts))
        (sym (ap (λ r. r.1) handled))
        (refusals_escalate k (retried_saga g s w) (counted_step s) later
          (retry_stored g s w state has_step keyed found) keyed state
          (found-counted g.steps s has_step) (omega (arith, left)))
