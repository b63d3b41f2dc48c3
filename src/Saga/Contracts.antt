-- ===== src/Saga/Contracts.antt =====
-- services/order-service/src/saga/sagaContracts.js, and the messages that it gives names to.
use Prim.Native.String.{◌++◌}
use msa_training.Prelude.{String, Bool, true, false, Option, ◌≡◌, ◌↔◌, arith}
use msa_training.Prelude.Int.{ℤ}

-- `QUEUE`
pub data Queue : Type 0 where
  payment_command points_command reply : Queue

unfoldable pub queue_name : Queue → String
queue_name payment_command = "saga.payment.command"
queue_name points_command = "saga.points.command"
queue_name reply = "saga.reply"

-- `STEP`
pub data StepName : Type 0 where
  inventory payment points : StepName

abbrev pub same_step : StepName → StepName → Bool
same_step inventory inventory = true
same_step payment payment = true
same_step points points = true
same_step _ _ = false

pub same_step_iff : (s t : StepName) → (same_step s t ≡ true) ↔ (s ≡ t)
same_step_iff s t = ground arith

-- `MSG`: the commands and the replies; `unknown` is any other text.
pub data Msg : Type 0 where
  charge refund earn cancel : Msg
  payment_succeeded payment_failed points_succeeded points_failed : Msg
  refund_succeeded refund_failed : Msg
  unknown : String → Msg

-- What the payload objects hold, by the step or command that they belong to.
pub data Payload : Type 0 where
  stock : (item_id : String) (quantity : ℤ) → Payload
  invoice : (order_id : String) (amount : ℤ) → Payload
  award : (user_email : String) (amount : ℤ) → Payload
  repayment : (payment_id : Option String) (order_id : String) → Payload

pub record Message : Type 0 where
  pub saga_id : String
  pub type : Msg
  pub step_name : StepName
  pub payload : Payload
  pub correlation_id : String

-- A participant's answer; of its payload the program reads the payment's id.
pub record ReplyData : Type 0 where
  pub payment_id : Option String

pub record Reply : Type 0 where
  pub saga_id : String
  pub type : Msg
  pub payload : Option ReplyData

-- `dlqName`
unfoldable pub dlq_name : String → String
dlq_name queue = queue ++ ".dlq"

-- `queueAssertOptions`
pub record QueueOptions : Type 0 where
  pub durable : Bool
  pub dead_letter_exchange : String
  pub dead_letter_routing_key : String

unfoldable pub queue_assert_options : String → QueueOptions
unfolding dlq_name
queue_assert_options queue = record {
  durable = true;
  dead_letter_exchange = "";
  dead_letter_routing_key = dlq_name queue;
}
