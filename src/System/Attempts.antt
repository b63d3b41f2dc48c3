-- ===== src/System/Attempts.antt =====
-- The counts of a saga's retries stay below the maximum: the operations of the repositories.
pub mod Handlers
pub mod Entries
use native.Mathlib.Nat.{le_refl}
use msa_training.Prelude.{
  ℕ, ◌+◌, ◌<◌, String, ◌≡◌, refl, subst, sym, Bool, true, false, ◌&&◌, Option, List, [], ◌∷◌, map,
  leb, nat_eq, All, Bool-cases, inl, inr, arith,
}
use msa_training.Async.{Async, return, await}
use msa_training.Async.Logic.{Triple, Triple-return, Triple-step}
use msa_training.Mongo.Laws.{StoreAll, update-StoreAll, update_one-StoreAll, upsert-StoreAll}
use msa_training.Saga.State.{SagaState}
use msa_training.Saga.Contracts.{StepName}
use msa_training.Models.{Saga, SagaStep, OutboxEntry}
use msa_training.Backend.{Backend, World}
use msa_training.Persistence.Sagas.{
  StepUpdate, Command, update_step, update_steps, advance_saga, count_attempt, is_attempt,
  retry_saga, cas, retry_cas, mark_sent, arm_deadline, inc_outbox_attempt,
}

module _ (max : ℕ) where
  -- No step of the saga has been retried as often as `max`.
  abbrev pub Below : List SagaStep → Type 0
  Below ss = All (λ s. s.compensate_attempts < max) ss

  Below-map :
      (f : SagaStep → SagaStep) (ss : List SagaStep)
      → ((s : SagaStep) → s.compensate_attempts < max → (f s).compensate_attempts < max)
      → Below ss
      → Below (map f ss)
  Below-map f [] keep h = tt
  Below-map f (s ∷ ss) keep h = (keep s h.0, Below-map f ss keep h.1)

  Below-update_steps :
      (us : List StepUpdate) (ss : List SagaStep) → Below ss → Below (update_steps us ss)
  unfolding update_steps
  Below-update_steps [] ss h = h
  Below-update_steps (u ∷ us) ss h =
      Below-update_steps us (map (update_step u) ss)
        (Below-map (update_step u) ss (λ s below. ground (arith, below)) h)

  count_attempt-Below :
      (step : StepName) (n : ℕ) (s : SagaStep)
      → leb max (n + 1) ≡ false
      → s.compensate_attempts < max
      → (count_attempt step n s).compensate_attempts < max
  unfolding count_attempt is_attempt
  count_attempt-Below step n s again below = ground (arith, again, below)

  module _ (b : Backend) where
    pub record Bounded (w : World b) : Type 0 where
      pub sagas : StoreAll b.sagas (λ _ g. Below g.steps) w.sagas

    -- A computation that keeps the bound, whatever the others do that keep it.
    abbrev pub Free : {A : Type 0} → Async (World b) A → Type 0
    Free m = Triple Bounded (λ _ _. Unit {0}) m (λ _. Unit {0}) (λ _ _. Unit {0}) (λ _. Unit {0})

    pub Free-return : {A : Type 0} {a : A} → Free (return a)
    Free-return = Triple-return (λ _ _ _. tt)

    pub Free-step :
        {A B : Type 0} (op : World b → B × World b) (k : B → Async (World b) A)
        → ((w : World b) → Bounded w → Bounded (op w).1)
        → ((x : B) → Free (k x))
        → Free (await op k)
    Free-step op k h t = Triple-step op k (λ _ _ _ _. tt) (λ w i _. (h w i, tt)) t

    pub cas-Bounded :
        (id : String) (from to : SagaState) (step : Option StepName) (us : List StepUpdate)
        (cs : List Command) (w : World b)
        → Bounded w
        → Bounded (cas b id from to step us cs w).1
    unfolding cas advance_saga
    cas-Bounded id from to step us cs w i = record {
      sagas =
          update-StoreAll b.sagas (λ _ g. Below g.steps) id _ _ w.sagas
            (λ g _ _ below. Below-update_steps us g.steps below) i.sagas;
    }

    pub retry_cas-Bounded :
        (id : String) (step : StepName) (n : ℕ) (cs : List Command) (w : World b)
        → leb max (n + 1) ≡ false
        → Bounded w
        → Bounded (retry_cas b id step n cs w).1
    unfolding retry_cas retry_saga
    retry_cas-Bounded id step n cs w again i = record {
      sagas =
          update-StoreAll b.sagas (λ _ g. Below g.steps) id _ _ w.sagas
            (λ g _ _ below.
              Below-map (count_attempt step n) g.steps
                (λ s less. count_attempt-Below step n s again less) below)
            i.sagas;
    }

    -- An update that leaves the steps alone.
    update_one-Bounded :
        (id : String) (p : Saga → Bool) (f : Saga → Saga) (w : World b)
        → ((g : Saga) → (f g).steps ≡ g.steps)
        → Bounded w
        → Bounded (record w { sagas = (b.sagas.update_one id p f w.sagas).1 })
    update_one-Bounded id p f w same i = record {
      sagas =
          update_one-StoreAll b.sagas (λ _ g. Below g.steps) id p f w.sagas
            (λ g _ _ below. subst Below (sym (same g)) below) i.sagas;
    }

    pub mark_sent-Bounded :
        (id entry_id : String) (now : ℕ) (w : World b)
        → Bounded w
        → Bounded (mark_sent b id entry_id now w).1
    unfolding mark_sent
    mark_sent-Bounded id entry_id now w i = update_one-Bounded id _ _ w (λ _. refl) i

    pub arm_deadline-Bounded :
        (id : String) (step : StepName) (deadline : ℕ) (w : World b)
        → Bounded w
        → Bounded (arm_deadline b id step deadline w).1
    unfolding arm_deadline
    arm_deadline-Bounded id step deadline w i = update_one-Bounded id _ _ w (λ _. refl) i

    pub inc_outbox_attempt-Bounded :
        (id entry_id : String) (now : ℕ) (w : World b)
        → Bounded w
        → Bounded (inc_outbox_attempt b id entry_id now w).1
    unfolding inc_outbox_attempt
    inc_outbox_attempt-Bounded id entry_id now w i = update_one-Bounded id _ _ w (λ _. refl) i
