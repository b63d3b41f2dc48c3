-- ===== src/System/Steps.antt =====
-- What a transition and a retry do to a saga's steps, and how its document grows by them.
use msa_training.Prelude.{
  ℕ, ◌≡◌, refl, ap, ◌∙◌, sym, subst, true, Option, none, some, List, [], ◌∷◌, map, arith,
  if◌then◌else◌, Bool-cases, inl, inr,
}
use msa_training.Saga.State.{SagaState, same_state, same_state_iff, can_transition}
use msa_training.Saga.State.Path.{here, next}
use msa_training.Saga.Contracts.{StepName, Payload, same_step, same_step_iff}
use msa_training.Models.{Saga, SagaStep, StepStatus, OutboxEntry}
use msa_training.Persistence.Sagas.{
  StepUpdate, update_step, update_steps, advance_saga, count_attempt, retry_saga, may_retry,
}
use msa_training.System.Moves.{one_move, transition, retried}
use msa_training.System.Growth.{payload_at, status_at, SagaGrows}

-- A map over the steps that leaves names and payloads alone.
payload_at-map :
    (f : SagaStep → SagaStep)
    → ((s : SagaStep) → (f s).name ≡ s.name)
    → ((s : SagaStep) → (f s).payload ≡ s.payload)
    → (n : StepName) (ss : List SagaStep) → payload_at n (map f ss) ≡ payload_at n ss
unfolding payload_at
payload_at-map f hn hp n [] = refl
payload_at-map f hn hp n (s ∷ ss) = rw (hn s, hp s, payload_at-map f hn hp n ss)

payload_at-update_steps :
    (us : List StepUpdate) (n : StepName) (ss : List SagaStep)
    → payload_at n (update_steps us ss) ≡ payload_at n ss
unfolding update_steps
payload_at-update_steps [] n ss = refl
payload_at-update_steps (u ∷ us) n ss =
    payload_at-update_steps us n (map (update_step u) ss)
    ∙ payload_at-map (update_step u) (λ s. ground arith) (λ s. ground arith) n ss

-- The status of a step after updates.
abbrev overwrite : StepName → StepUpdate → Option StepStatus → Option StepStatus
overwrite n u none = none
overwrite n u (some status) = some (if same_step n u.name then u.status else status)

unfoldable pub status_after : StepName → List StepUpdate → Option StepStatus → Option StepStatus
status_after n [] o = o
status_after n (u ∷ us) o = status_after n us (overwrite n u o)

status_at-update_step :
    (u : StepUpdate) (n : StepName) (ss : List SagaStep)
    → status_at n (map (update_step u) ss) ≡ overwrite n u (status_at n ss)
unfolding status_at update_step
status_at-update_step u n [] = refl
status_at-update_step u n (s ∷ ss) =
    ground (arith, status_at-update_step u n ss, same_step_iff s.name n)

pub status_at-update_steps :
    (us : List StepUpdate) (n : StepName) (ss : List SagaStep)
    → status_at n (update_steps us ss) ≡ status_after n us (status_at n ss)
unfolding update_steps status_after
status_at-update_steps [] n ss = refl
status_at-update_steps (u ∷ us) n ss =
    status_at-update_steps us n (map (update_step u) ss)
    ∙ ap (status_after n us) (status_at-update_step u n ss)

pub status_at-count_attempt :
    (step : StepName) (attempts : ℕ) (n : StepName) (ss : List SagaStep)
    → status_at n (map (count_attempt step attempts) ss) ≡ status_at n ss
unfolding status_at count_attempt
status_at-count_attempt step attempts n [] = refl
status_at-count_attempt step attempts n (s ∷ ss) =
    ground (arith, status_at-count_attempt step attempts n ss)

-- A step with a payload has a status.
pub payload_at-status_at :
    (n : StepName) (ss : List SagaStep) (p : Payload)
    → payload_at n ss ≡ some p
    → (status : StepStatus) × (status_at n ss ≡ some status)
unfolding payload_at status_at
payload_at-status_at n [] p e = absurd (cc e)
payload_at-status_at n (s ∷ ss) p e = elim (Bool-cases (same_step s.name n)) [
  | inl this ↦ (s.status, rw this refl)
  | inr other ↦ rw other (payload_at-status_at n ss p (sym (rw other refl) ∙ e))
]

pub advance_saga-SagaGrows :
    (from to : SagaState) (step : Option StepName) (us : List StepUpdate) (es : List OutboxEntry)
    (g : Saga)
    → can_transition from to ≡ true
    → same_state g.state from ≡ true
    → SagaGrows g (advance_saga to step us es g)
unfolding advance_saga
advance_saga-SagaGrows from to step us es g t s =
    let here_from : g.state ≡ from = (same_state_iff g.state from).0 s in
    record {
      same_id = refl;
      same_order = refl;
      path = next here (subst (λ x. can_transition x to ≡ true) (sym here_from) t);
      same_payloads = λ n. payload_at-update_steps us n g.steps;
      moves =
          one_move g _ (
            transition g to step us es (subst (λ x. can_transition x to ≡ true) (sym here_from) t));
    }

pub retry_saga-SagaGrows :
    (step : StepName) (attempts : ℕ) (es : List OutboxEntry) (g : Saga)
    → may_retry step attempts g ≡ true
    → SagaGrows g (retry_saga step attempts es g)
unfolding retry_saga
retry_saga-SagaGrows step attempts es g may = record {
  same_id = refl;
  same_order = refl;
  path = here;
  same_payloads = λ n.
      payload_at-map (count_attempt step attempts) (λ s. ground arith) (λ s. ground arith) n
        g.steps;
  moves = one_move g _ (retried g step attempts es may);
}
