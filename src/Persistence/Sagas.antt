-- ===== src/Persistence/Sagas.antt =====
-- services/order-service/src/infrastructure/persistence/MongoSagaRepository.js: the operations. Their
-- filters and update documents are in Updates.
mod Updates
unfoldable pub use Updates.*
use msa_training.Prelude.{
  ℕ, suc, ◌+◌, String, Bool, true, false, ◌&&◌, ◌||◌, Option, none, some, List, [], ◌∷◌, ◌++◌, map,
  ◌==◌, ltb, nat_eq, if◌then◌else◌,
}
use msa_training.Prelude.{length}
use msa_training.Async.{Async, return, call, ◌>>=◌}
use msa_training.Saga.State.{
  SagaState, same_state, started, inventory_reserved, payment_charged, compensating,
}
use msa_training.Saga.Contracts.{Queue, StepName, same_step, Message, ReplyData}
use msa_training.Models.{Saga, SagaStep, StepStatus, OutboxEntry, OutboxStatus, is_pending}
use msa_training.Backend.{Backend, World}

module _ (b : Backend) where
  unfoldable pub put : Saga → World b → Unit {0} × World b
  put g w = (tt, record w { sagas = b.saga_upserts.upsert g.saga_id g w.sagas })

  unfoldable pub find_by_saga_id : String → Async (World b) (Option Saga)
  find_by_saga_id saga_id = call (λ w. (b.sagas.find_one saga_id w.sagas, w))

  -- the one operation of `compareAndAdvance`
  unfoldable pub cas :
      String
      → SagaState
      → SagaState
      → Option StepName
      → List StepUpdate
      → List Command
      → World b
      → Option Saga × World b
  cas saga_id from to step updates outbox w =
      let entries = new_entries b.random_uuid w.drawn outbox in
      let (found, store) =
        b.sagas.find_one_and_update saga_id (λ g. same_state g.state from)
          (advance_saga to step updates entries) w.sagas in
      (found, record w { sagas = store; drawn = w.drawn + length outbox })

  unfoldable pub compare_and_advance :
      String
      → SagaState
      → SagaState
      → Option StepName
      → List StepUpdate
      → List Command
      → Async (World b) (Option Saga)
  compare_and_advance saga_id from to step updates outbox =
      call (cas saga_id from to step updates outbox)

  -- the one operation of `retryCompensation`
  unfoldable pub retry_cas : String → StepName → ℕ → List Command → World b → Option Saga × World b
  retry_cas saga_id step attempts outbox w =
      let entries = new_entries b.random_uuid w.drawn outbox in
      let (found, store) =
        b.sagas.find_one_and_update saga_id (may_retry step attempts)
          (retry_saga step attempts entries) w.sagas in
      (found, record w { sagas = store; drawn = w.drawn + length outbox })

  unfoldable pub retry_compensation :
      String → StepName → ℕ → List Command → Async (World b) (Option Saga)
  retry_compensation saga_id step attempts outbox = call (retry_cas saga_id step attempts outbox)

  unfoldable pub find_with_pending_outbox : ℕ → World b → List (String × Saga) × World b
  find_with_pending_outbox limit w = (b.sagas.find (λ g. has_pending g.outbox) limit w.sagas, w)

  unfoldable pub find_timed_out : ℕ → ℕ → World b → List (String × Saga) × World b
  find_timed_out now limit w = (b.sagas.find (is_timed_out now) limit w.sagas, w)

  -- the first `updateOne` of `markOutboxSent`, with its `modifiedCount`
  unfoldable pub mark_sent : String → String → ℕ → World b → ℕ × World b
  mark_sent saga_id entry_id now w =
      let (modified, store) =
        b.sagas.update_one saga_id (λ g. has_entry entry_id g.outbox)
          (λ g. record g { outbox = set_sent entry_id now g.outbox }) w.sagas in
      (modified, record w { sagas = store })

  -- the second one
  unfoldable pub arm_deadline : String → StepName → ℕ → World b → Unit {0} × World b
  arm_deadline saga_id step deadline w =
      let (_, store) =
        b.sagas.update_one saga_id (λ g. same_step g.current_step step)
          (λ g. record g { deadline = some deadline }) w.sagas in
      (tt, record w { sagas = store })

  -- The relay always gives a deadline and a step.
  unfoldable pub mark_outbox_sent : String → String → ℕ → ℕ → StepName → Async (World b) (Unit {0})
  mark_outbox_sent saga_id entry_id now deadline step = do
    modified ← call (mark_sent saga_id entry_id now)
    if ltb 0 modified then call (arm_deadline saga_id step deadline) else return tt

  unfoldable pub inc_outbox_attempt : String → String → ℕ → World b → Unit {0} × World b
  inc_outbox_attempt saga_id entry_id now w =
      let (_, store) =
        b.sagas.update_one saga_id (λ g. has_id entry_id g.outbox)
          (λ g. record g { outbox = count_publish entry_id now g.outbox }) w.sagas in
      (tt, record w { sagas = store })
