-- ===== src/Models.antt =====
-- services/order-service/models: the documents of the three collections.
use msa_training.Prelude.{ℕ, String, Bool, true, false, Option, List}
use msa_training.Prelude.Int.{ℤ}
use msa_training.Errors.{OrderStatus}
use msa_training.Saga.State.{SagaState}
use msa_training.Saga.Contracts.{Queue, StepName, Message, Payload, ReplyData}

-- models/Saga.js
pub data StepStatus : Type 0 where
  pending done compensated failed : StepStatus

pub record SagaStep : Type 0 where
  pub name : StepName
  pub status : StepStatus
  pub payload : Payload
  pub reply_data : Option ReplyData
  pub deadline : Option ℕ
  pub compensate_attempts : ℕ

pub data OutboxStatus : Type 0 where
  pending sent : OutboxStatus

abbrev pub is_pending : OutboxStatus → Bool
is_pending OutboxStatus.pending = true
is_pending OutboxStatus.sent = false

pub record OutboxEntry : Type 0 where
  pub id : String
  pub queue : Queue
  pub message : Message
  pub status : OutboxStatus
  pub attempts : ℕ
  pub last_attempt_at : Option ℕ

pub record Saga : Type 0 where
  pub saga_id : String
  pub order_id : String
  pub state : SagaState
  pub current_step : StepName
  pub deadline : Option ℕ
  pub correlation_id : String
  pub steps : List SagaStep
  pub outbox : List OutboxEntry

-- models/Inventory.js
pub record Inventory : Type 0 where
  pub item_id : String
  pub available : ℤ
  pub reserved_sagas : List String
  pub released_sagas : List String

-- models/Order.js, less `createdAt`
pub record OrderDoc : Type 0 where
  pub user_email : String
  pub item_id : String
  pub quantity : ℤ
  pub price : ℤ
  pub status : OrderStatus

abbrev pub is_pending_order : OrderStatus → Bool
is_pending_order OrderStatus.pending = true
is_pending_order OrderStatus.success = false
is_pending_order OrderStatus.failed = false
