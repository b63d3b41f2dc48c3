-- ===== src/Backend.antt =====
-- What the order service calls and does not implement, and the state that its computations share.
use msa_training.Prelude.{ℕ, String, ◌≡◌, List, Option, some}
use msa_training.Errors.{Result}
use msa_training.Mongo.{Collection, Upserts}
use msa_training.Models.{Saga, Inventory, OrderDoc}
use msa_training.Saga.Contracts.{Queue, Message}

pub record Backend : Type 1 where
  pub sagas : Collection Saga
  pub saga_upserts : Upserts sagas
  pub orders : Collection OrderDoc
  -- The `_id` that mongoose casts a text to, as its hexadecimal text, before it sends a query of
  -- orders. A text that is no ObjectId has none, and the query is rejected with CastError.
  pub cast_id : String → Option String
  -- an order stands under the text of an ObjectId, which is cast to itself
  pub cast-stored :
      (id : String) (s : orders.Store) (o : OrderDoc)
      → orders.find_one id s ≡ some o
      → cast_id id ≡ some id
  pub inventory : Collection Inventory
  -- the successive results of `crypto.randomUUID()`, which never repeat
  pub random_uuid : ℕ → String
  pub uuids_differ : (m n : ℕ) → random_uuid m ≡ random_uuid n → m ≡ n
  -- RabbitMQ behind `commandPublisher.publish`, which may fail
  pub Broker : Type 0
  pub publish : Queue → Message → Broker → Result (Unit {0}) × Broker

-- An error line for the operators.
pub data Alert : Type 0 where
  compensation_given_up : (saga_id : String) (attempts : ℕ) → Alert
  outbox_stuck : (saga_id entry_id : String) → Alert
  timeout_not_handled : (saga_id : String) → Alert

pub record World (b : Backend) : Type 0 where
  pub sagas : b.sagas.Store
  pub orders : b.orders.Store
  pub inventory : b.inventory.Store
  -- how many uuids have been drawn
  pub drawn : ℕ
  -- the time in milliseconds, by the clock that `_now` reads
  pub clock : ℕ
  pub broker : b.Broker
  pub alerts : List Alert
