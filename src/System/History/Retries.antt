-- ===== src/System/History/Retries.antt =====
-- When a saga's refund has been retried.
use msa_training.Prelude.{ℕ, ◌≡◌, refl, sym, ◌∙◌, true, false, List, [], ◌∷◌, map, arith, All}
use msa_training.Saga.State.{
  SagaState, compensating, can_transition, transitions, same_state, same_state_iff,
}
use msa_training.Saga.State.Path.{is_compensated}
use msa_training.Saga.Contracts.{StepName}
use msa_training.Models.{Saga, SagaStep}
use msa_training.Persistence.Sagas.{
  advance_saga, retry_saga, may_retry, StepUpdate, update_step, update_steps,
}
use msa_training.Saga.Orchestrator.{new_saga}
use msa_training.System.Moves.{
  Move, Moves, transition, retried, published, armed, counted, still, then_move, Born, born,
  History,
}

abbrev pub Untried : List SagaStep → Type 0
Untried ss = All (λ s. s.compensate_attempts ≡ 0) ss

-- No retry is counted before COMPENSATING.
abbrev RetriesLate : Saga → Type 0
RetriesLate g = is_compensated g.state ≡ false → Untried g.steps

Untried-map :
    (f : SagaStep → SagaStep) (ss : List SagaStep)
    → ((s : SagaStep) → (f s).compensate_attempts ≡ s.compensate_attempts)
    → Untried ss
    → Untried (map f ss)
Untried-map f [] same h = tt
Untried-map f (s ∷ ss) same h = (same s ∙ h.0, Untried-map f ss same h.1)

Untried-update_steps :
    (us : List StepUpdate) (ss : List SagaStep) → Untried ss → Untried (update_steps us ss)
unfolding update_steps
Untried-update_steps [] ss h = h
Untried-update_steps (u ∷ us) ss h =
    Untried-update_steps us (map (update_step u) ss)
      (Untried-map (update_step u) ss (λ s. ground arith) h)

before :
    (s t : SagaState)
    → can_transition s t ≡ true
    → is_compensated t ≡ false
    → is_compensated s ≡ false
unfolding is_compensated can_transition transitions same_state
before s t e f = ground arith

retried-compensating :
    (g : Saga) (step : StepName) (n : ℕ) → may_retry step n g ≡ true → g.state ≡ compensating
unfolding may_retry
retried-compensating g step n e = ground (arith, same_state_iff g.state compensating)

is_compensated-compensating : (s : SagaState) → s ≡ compensating → is_compensated s ≡ true
unfolding is_compensated
is_compensated-compensating s e = rw e refl

Move-RetriesLate : (g h : Saga) → Move g h → RetriesLate g → RetriesLate h
unfolding advance_saga retry_saga
Move-RetriesLate g _ (transition _ to step us entries t) late =
    λ f. Untried-update_steps us g.steps (late (before g.state to t f))
Move-RetriesLate g _ (retried _ step n entries t) late =
    λ f. absurd (cc (sym f ∙ is_compensated-compensating g.state (retried-compensating g step n t)))
Move-RetriesLate g _ (published _ id now t) late = late
Move-RetriesLate g _ (armed _ step deadline t) late = late
Move-RetriesLate g _ (counted _ id now) late = late

Moves-RetriesLate : (g h : Saga) → Moves g h → RetriesLate g → RetriesLate h
Moves-RetriesLate g _ (still _) late = late
Moves-RetriesLate f _ (then_move _ g h p m) late =
    Move-RetriesLate g h m (Moves-RetriesLate f g p late)

Born-Untried : (g : Saga) → Born g → Untried g.steps
unfolding new_saga
Born-Untried _ (born _ _ _ _ _ _ _ _) = (refl, (refl, (refl, tt)))

pub History-RetriesLate : (g : Saga) → History g → is_compensated g.state ≡ false → Untried g.steps
History-RetriesLate g y =
    Moves-RetriesLate y.origin g y.since (λ _. Born-Untried y.origin y.is_born)
