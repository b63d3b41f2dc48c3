-- ===== src/Operations/Retry.antt =====
-- `_retryOrEscalateCompensation`: the retries of a refund, counted on the payment's step.
use msa_training.Prelude.{
  ℕ, ◌+◌, String, ◌≡◌, refl, true, false, none, List, ◌∷◌, [], ◌++◌, Bool-cases, inl, inr, map,
  length, arith, subst, nat_eq, ◌||◌, some,
}
use msa_training.Mongo.Branches.{update-missed, update-met}
use msa_training.Saga.State.{compensating, same_state_iff}
use msa_training.Saga.Contracts.{StepName, payment, same_step}
use msa_training.Models.{Saga, SagaStep}
use msa_training.Backend.{Backend, World}
use msa_training.Persistence.Sagas.{
  Command, new_entries, is_attempt, any_attempt, may_retry, count_attempt, retry_saga, retry_cas,
  is_timed_out,
}
use msa_training.Saga.Orchestrator.{find_step}
use msa_training.Operations.Same.{Same}

not_attempt :
    (name : StepName) (n : ℕ) (s : SagaStep) → is_attempt name n (count_attempt name n s) ≡ false
unfolding count_attempt is_attempt
not_attempt name n s = elim (Bool-cases (is_attempt name n s)) [
  | inl at ↦ rw at (ground arith)
  | inr other ↦ rw other other
]

-- Once the steps at a count have been counted on, none is at that count.
counted :
    (name : StepName) (n : ℕ) (ss : List SagaStep)
    → any_attempt name n (map (count_attempt name n) ss) ≡ false
counted name n [] = refl
counted name n (s ∷ ss) = rw (not_attempt name n s) (counted name n ss)

unfoldable pub counted_step : SagaStep → SagaStep
counted_step s = record s { compensate_attempts = s.compensate_attempts + 1 }

-- The step that is found is at its own count, and is the one that is counted on.
pub found-attempt :
    (ss : List SagaStep) (s : SagaStep)
    → find_step payment ss ≡ some s
    → any_attempt payment s.compensate_attempts ss ≡ true
unfolding find_step is_attempt
found-attempt [] s e = absurd (cc e)
found-attempt (x ∷ ss) s e = elim (Bool-cases (same_step x.name payment)) [
  | inl here ↦
      let same : x ≡ s = ground arith in
      rw here (
        subst
          (λ y.
            (nat_eq x.compensate_attempts y.compensate_attempts
              || any_attempt payment y.compensate_attempts ss)
            ≡ true)
          same (ground arith))
  | inr elsewhere ↦ rw elsewhere (found-attempt ss s (rw elsewhere at e))
]

first_counted :
    (x : SagaStep) (ss : List SagaStep)
    → same_step x.name payment ≡ true
    → find_step payment (map (count_attempt payment x.compensate_attempts) (x ∷ ss))
      ≡ some (counted_step x)
unfolding find_step is_attempt count_attempt counted_step
first_counted x ss here =
    let itself : nat_eq x.compensate_attempts x.compensate_attempts ≡ true = ground arith in
    rw here (rw itself (rw here refl))

pub found-counted :
    (ss : List SagaStep) (s : SagaStep)
    → find_step payment ss ≡ some s
    → find_step payment (map (count_attempt payment s.compensate_attempts) ss)
      ≡ some (counted_step s)
unfolding find_step is_attempt count_attempt counted_step
found-counted [] s e = absurd (cc e)
found-counted (x ∷ ss) s e = elim (Bool-cases (same_step x.name payment)) [
  | inl here ↦
      let same : x ≡ s = ground arith in
      subst
        (λ y.
          find_step payment (map (count_attempt payment y.compensate_attempts) (x ∷ ss))
          ≡ some (counted_step y))
        same (first_counted x ss here)
  | inr elsewhere ↦ rw elsewhere (rw elsewhere (found-counted ss s (rw elsewhere at e)))
]

module _ (b : Backend) (id : String) (step : StepName) (n : ℕ) (outbox again : List Command)
    (w : World b) where
  -- Of two attempts to retry a compensation that have read the same count, one is made: a saga in
  -- COMPENSATING that has the step at this count gets the commands, pending, behind the ones it
  -- had, and has no deadline, so that the sweep finds it at no time; the second attempt gives null
  -- and changes no document.
  pub retry_once :
      (g : Saga)
      → b.sagas.find_one id w.sagas ≡ some g
      → g.state ≡ compensating
      → any_attempt step n g.steps ≡ true
      → let (first, w') = retry_cas b id step n outbox w in
        let (second, w'') = retry_cas b id step n again w' in
        (g' : Saga) × (first ≡ some g')
        × (b.sagas.find_one id w'.sagas ≡ some g')
        × (g'.state ≡ compensating)
        × (g'.outbox ≡ g.outbox ++ new_entries b.random_uuid w.drawn outbox)
        × ((now : ℕ) → is_timed_out now g' ≡ false)
        × (second ≡ none)
        × Same b w' w''
  unfolding retry_cas may_retry retry_saga is_timed_out
  retry_once g e state at =
      let (returned, stored, _) =
        update-met b.sagas id (may_retry step n)
          (retry_saga step n (new_entries b.random_uuid w.drawn outbox)) w.sagas g e
          (rw ((same_state_iff g.state compensating).1 state) at) in
      let (nothing, as_was) =
        update-missed b.sagas id (may_retry step n)
          (retry_saga step n (new_entries b.random_uuid (w.drawn + length outbox) again))
          (retry_cas b id step n outbox w).1.sagas
          (rw stored (rw (counted step n g.steps) (ground arith))) in
      (
        _,
        returned,
        stored,
        state,
        refl,
        λ now. ground arith,
        nothing,
        record {
          sagas = as_was;
          orders = λ _. refl;
          inventory = λ _. refl;
          clock = refl;
          broker = refl;
          alerts = refl;
        },
      )
