-- ===== src/System/Moves.antt =====
-- The abstract specification of a saga's document: the moves that it may make, one for each database
-- operation of MongoSagaRepository, under the conditions that the design asks for.
use msa_training.Prelude.{ℕ, String, ◌≡◌, true, Option, some, List}
use msa_training.Prelude.Int.{ℤ}
use msa_training.Saga.State.{SagaState, can_transition}
use msa_training.Saga.Contracts.{StepName, same_step}
use msa_training.Models.{Saga, OutboxEntry}
use msa_training.Saga.Orchestrator.{new_saga}
use msa_training.Persistence.Sagas.{
  StepUpdate, advance_saga, retry_saga, may_retry, has_entry, set_sent, count_publish,
}

pub data Move : Saga → Saga → Type 0 where
  -- a transition of the table, with its commands
  transition :
      (g : Saga) (to : SagaState) (step : Option StepName) (us : List StepUpdate)
      (entries : List OutboxEntry)
      → can_transition g.state to ≡ true
      → Move g (advance_saga to step us entries g)
  -- a compensation tried again, in COMPENSATING, from the count that was read
  retried :
      (g : Saga) (step : StepName) (attempts : ℕ) (entries : List OutboxEntry)
      → may_retry step attempts g ≡ true
      → Move g (retry_saga step attempts entries g)
  -- a command that was PENDING becomes SENT
  published :
      (g : Saga) (entry_id : String) (now : ℕ)
      → has_entry entry_id g.outbox ≡ true
      → Move g (record g { outbox = set_sent entry_id now g.outbox })
  -- the deadline of the step that the saga waits for
  armed :
      (g : Saga) (step : StepName) (deadline : ℕ)
      → same_step g.current_step step ≡ true
      → Move g (record g { deadline = some deadline })
  -- one more attempt to publish is counted
  counted :
      (g : Saga) (entry_id : String) (now : ℕ)
      → Move g (record g { outbox = count_publish entry_id now g.outbox })

pub data Moves : Saga → Saga → Type 0 where
  still : (g : Saga) → Moves g g
  then_move : (f g h : Saga) → Moves f g → Move g h → Moves f h

pub one_move : (g h : Saga) → Move g h → Moves g h
one_move g h m = then_move g g h (still g) m

pub Moves-trans : (f g h : Saga) → Moves f g → Moves g h → Moves f h
Moves-trans f _ _ p (still _) = p
Moves-trans f g _ p (then_move _ h k q m) = then_move f h k (Moves-trans f g h p q) m

-- What `startOrder` stores.
pub data Born : Saga → Type 0 where
  born :
      (saga_id order_id user_email item_id : String) (quantity amount : ℤ) (correlation_id : String)
      (deadline : ℕ)
      → Born (new_saga saga_id order_id user_email item_id quantity amount correlation_id deadline)

-- A document that `startOrder` stored and that moves since have led to.
pub record History (g : Saga) : Type 0 where
  pub origin : Saga
  pub is_born : Born origin
  pub since : Moves origin g

pub History-Moves : (g h : Saga) → Moves g h → History g → History h
History-Moves g h m y = record {
  origin = y.origin;
  is_born = y.is_born;
  since = Moves-trans y.origin g h y.since m;
}
