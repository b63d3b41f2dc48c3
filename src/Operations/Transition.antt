-- ===== src/Operations/Transition.antt =====
-- `compareAndAdvance`: what its winner gets, and that of two attempts one wins.
use msa_training.Prelude.{
  ℕ, String, ◌≡◌, ◌≢◌, refl, ap, subst, sym, ◌∙◌, true, false, Option, none, some, List, ◌++◌, ◌==◌,
  Bool-cases, inl, inr, arith,
}
use msa_training.Async.Schedule.{Pick}
use msa_training.Mongo.{meets}
use msa_training.Mongo.Laws.{updated-found}
use msa_training.Mongo.Branches.{update-missed, update-met}
use msa_training.Saga.State.{SagaState, same_state, same_state_iff, can_transition}
use msa_training.Saga.State.Path.{Leads, rank, can_transition-rank, Leads-rank}
use msa_training.Saga.Contracts.{StepName}
use msa_training.Models.{Saga}
use msa_training.Backend.{Backend, World}
use msa_training.Saga.Orchestrator.{Config}
use msa_training.Messaging.OutboxRelay.{RelayConfig}
use msa_training.Persistence.Sagas.{
  StepUpdate, Command, new_entries, advance_saga, cas, update_steps, or_else, is_timed_out,
}
use msa_training.System.Invariant.{Inv}
use msa_training.System.Requests.{Request, serve, serve-Inv}
use msa_training.Operations.Same.{Same}

module _ (b : Backend) (id : String) (from to : SagaState) (step : Option StepName)
    (updates : List StepUpdate) (outbox : List Command) (w : World b) where
  not_in_state :
      (found : Option Saga)
      → ((g : Saga) → found ≡ some g → g.state ≢ from)
      → meets (λ g. same_state g.state from) found ≡ false
  not_in_state none h = refl
  not_in_state (some g) h = elim (Bool-cases (same_state g.state from)) [
    | inl e ↦ absurd (h g refl ((same_state_iff g.state from).0 e))
    | inr e ↦ e
  ]

  -- A transition that no stored saga is in the state for gives null and changes no document.
  pub cas-lost :
      ((g : Saga) → b.sagas.find_one id w.sagas ≡ some g → g.state ≢ from)
      → ((cas b id from to step updates outbox w).0 ≡ none)
        × Same b w (cas b id from to step updates outbox w).1
  unfolding cas
  cas-lost h =
      let (nothing, as_was) =
        update-missed b.sagas id (λ g. same_state g.state from)
          (advance_saga to step updates (new_entries b.random_uuid w.drawn outbox)) w.sagas
          (not_in_state (b.sagas.find_one id w.sagas) h) in
      (
        nothing,
        record {
          sagas = as_was;
          orders = λ _. refl;
          inventory = λ _. refl;
          clock = refl;
          broker = refl;
          alerts = refl;
        },
      )

  -- A transition of a saga that is stored in its state `from` wins: it returns the saga, and stores
  -- it, in the state `to`, with its commands' entries behind those it had, without a deadline, so
  -- that the sweep finds it at no time. No other saga changes.
  pub cas-won :
      (g : Saga)
      → b.sagas.find_one id w.sagas ≡ some g
      → g.state ≡ from
      → (g' : Saga) × ((cas b id from to step updates outbox w).0 ≡ some g')
        × (b.sagas.find_one id (cas b id from to step updates outbox w).1.sagas ≡ some g')
        × (g'.state ≡ to)
        × (g'.current_step ≡ or_else step g.current_step)
        × (g'.steps ≡ update_steps updates g.steps)
        × (g'.outbox ≡ g.outbox ++ new_entries b.random_uuid w.drawn outbox)
        × ((now : ℕ) → is_timed_out now g' ≡ false)
        × ((j : String)
            → id == j ≡ false
            → b.sagas.find_one j (cas b id from to step updates outbox w).1.sagas
              ≡ b.sagas.find_one j w.sagas)
  unfolding cas advance_saga is_timed_out
  cas-won g e same =
      let (returned, stored, others) =
        update-met b.sagas id (λ g. same_state g.state from)
          (advance_saga to step updates (new_entries b.random_uuid w.drawn outbox)) w.sagas g e
          ((same_state_iff g.state from).1 same) in
      (_, returned, stored, refl, refl, refl, refl, λ now. ground arith, others)

  -- That saga is the update document's.
  pub cas-exact :
      (g : Saga)
      → b.sagas.find_one id w.sagas ≡ some g
      → g.state ≡ from
      → let g' = advance_saga to step updates (new_entries b.random_uuid w.drawn outbox) g in
        ((cas b id from to step updates outbox w).0 ≡ some g')
        × (b.sagas.find_one id (cas b id from to step updates outbox w).1.sagas ≡ some g')
  unfolding cas
  cas-exact g e same =
      let (returned, stored, _) =
        update-met b.sagas id (λ g. same_state g.state from)
          (advance_saga to step updates (new_entries b.random_uuid w.drawn outbox)) w.sagas g e
          ((same_state_iff g.state from).1 same) in
      (returned, stored)

-- Whoever wins a transition of the table has left its state for good.
left_for_good :
    (from to : SagaState) {t : SagaState} → can_transition from to ≡ true → Leads to t → t ≢ from
left_for_good from to {t} e p same =
    let equal : rank t ≡ rank from = ap rank same in
    absurd (omega (arith, can_transition-rank from to e, Leads-rank p))

-- Of two attempts at a transition out of the same state at most one wins, whatever the service does
-- in between: after one has won a transition of the table and left the
-- invariant `Inv` in place, another one gives null and changes no document.
pub transition_won_once :
    (b : Backend) (c : Config) (rc : RelayConfig) (rs : List Request) (ps : List Pick) (id : String)
    (from to to' : SagaState) (step step' : Option StepName) (updates updates' : List StepUpdate)
    (outbox outbox' : List Command) (w : World b) (g : Saga)
    → can_transition from to ≡ true
    → (cas b id from to step updates outbox w).0 ≡ some g
    → Inv b (cas b id from to step updates outbox w).1
    → let later = serve b c rc rs ps (cas b id from to step updates outbox w).1 in
      ((cas b id from to' step' updates' outbox' later).0 ≡ none)
      × Same b later (cas b id from to' step' updates' outbox' later).1
unfolding cas advance_saga
transition_won_once b c rc rs ps id from to to' step step' updates updates' outbox outbox' w g t won
      inv =
    let (d, _, _, value, stored) =
      updated-found b.sagas id (λ x. same_state x.state from)
        (advance_saga to step updates (new_entries b.random_uuid w.drawn outbox)) w.sagas g won in
    let (g', found, grown) = (serve-Inv b c rc rs ps _ inv).1.sagas id g stored in
    let path : Leads to g'.state =
      subst (λ s. Leads s g'.state) (ap (λ x. x.state) (sym value)) grown.path in
    cas-lost b id from to' step' updates' outbox' _ (λ g'' e same.
      let one : g' ≡ g'' = ground (arith, found) in
      left_for_good from to t path (ap (λ x. x.state) one ∙ same))
