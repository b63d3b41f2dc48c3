-- ===== src/Operations/Reading.antt =====
-- A handler's reading of the steps of its saga, `saga.steps.find((s) => s.name === …).payload`.
use msa_training.Prelude.{String, ◌≡◌, ap, ◌∙◌, Option, none, some, arith}
use msa_training.Prelude.Int.{ℤ}
use msa_training.Async.{Async, run, ◌>>=◌}
use msa_training.Saga.Contracts.{Payload, stock, invoice, Reply}
use msa_training.Models.{Saga, SagaStep}
use msa_training.Backend.{Backend, World}
use msa_training.Persistence.Sagas.{find_by_saga_id}
use msa_training.Saga.Orchestrator.{
  Config, or_type_error, stock_of, amount_of, dispatch_reply, handle_found, handle_reply,
}

module _ {S A : Type 0} (step : SagaStep) where
  payload_read :
      {B : Type 0} (of : Payload → Async S B) (p : Payload) (o : Option SagaStep)
      (f : B → Async S A) (s : S)
      → step.payload ≡ p
      → o ≡ some step
      → run (or_type_error o >>= λ x. of x.payload >>= f) s ≡ run (of p >>= f) s
  payload_read of p none f s holds e = absurd (cc e)
  payload_read of p (some x) f s holds e =
      let same : x ≡ step = ground arith in
      ap (λ q. run (of q >>= f) s) (ap (λ y. y.payload) same ∙ holds)

  -- The step itself.
  pub step_read :
      (o : Option SagaStep) (f : SagaStep → Async S A) (s : S)
      → o ≡ some step
      → run (or_type_error o >>= f) s ≡ run (f step) s
  step_read none f s e = absurd (cc e)
  step_read (some x) f s e = let same : x ≡ step = ground arith in ap (λ y. run (f y) s) same

  pub stock_read :
      (item_id : String) (quantity : ℤ)
      → step.payload ≡ stock item_id quantity
      → (o : Option SagaStep) (f : String × ℤ → Async S A) (s : S) → o ≡ some step
      → run (or_type_error o >>= λ x. stock_of x.payload >>= f) s ≡ run (f (item_id, quantity)) s
  stock_read item_id quantity holds o f s = payload_read stock_of _ o f s holds

  pub amount_read :
      (order_id : String) (amount : ℤ)
      → step.payload ≡ invoice order_id amount
      → (o : Option SagaStep) (f : ℤ → Async S A) (s : S) → o ≡ some step
      → run (or_type_error o >>= λ x. amount_of x.payload >>= f) s ≡ run (f amount) s
  amount_read order_id amount holds o f s = payload_read amount_of _ o f s holds

-- The orchestrator's reading of the saga that a reply names.
module _ (b : Backend) (c : Config) (r : Reply) (g : Saga) (w : World b) where
  found_read :
      (o : Option Saga)
      → o ≡ some g
      → run (handle_found b c r o) w ≡ run (dispatch_reply b c r.type g r) w
  unfolding handle_found
  found_read none e = absurd (cc e)
  found_read (some x) e =
      let same : x ≡ g = ground arith in ap (λ y. run (dispatch_reply b c r.type y r) w) same

  pub reply_read :
      b.sagas.find_one r.saga_id w.sagas ≡ some g
      → run (handle_reply b c r) w ≡ run (dispatch_reply b c r.type g r) w
  unfolding handle_reply find_by_saga_id run
  reply_read found = found_read (b.sagas.find_one r.saga_id w.sagas) found
