-- ===== src/Saga/Orchestrator/Documents.antt =====
-- services/order-service/src/saga/SagaOrchestrator.js: the steps, sagas and commands that the handlers
-- read and write, and the settings.
use msa_training.Prelude.{ℕ, String, Bool, Option, none, some, List, [], ◌∷◌, if◌then◌else◌}
use msa_training.Prelude.Int.{ℤ}
use msa_training.Errors.{type_error, OrderStatus}
use msa_training.Async.{Async, return, throw}
use msa_training.Saga.State.{started}
use msa_training.Saga.Contracts.{
  payment_command, points_command, StepName, inventory, payment, points, same_step, Msg, Payload,
  stock, invoice, award, repayment,
}
use msa_training.Models.{Saga, SagaStep, StepStatus}
use msa_training.Persistence.Sagas.{StepUpdate, Command}

-- `steps.find((s) => s.name === name)`
unfoldable pub find_step : StepName → List SagaStep → Option SagaStep
find_step name [] = none
find_step name (s ∷ ss) = if same_step s.name name then some s else find_step name ss

abbrev pub update : StepName → StepStatus → StepUpdate
update name status = record { name = name; status = status; reply_data = none }

abbrev pub charge_command : String → String → ℤ → String → Command
charge_command saga_id order_id amount correlation_id = record {
  queue = payment_command;
  message = record {
    saga_id = saga_id;
    type = Msg.charge;
    step_name = payment;
    payload = invoice order_id amount;
    correlation_id = correlation_id;
  };
}

abbrev pub earn_command : Saga → Payload → Command
earn_command g payload = record {
  queue = points_command;
  message = record {
    saga_id = g.saga_id;
    type = Msg.earn;
    step_name = points;
    payload = payload;
    correlation_id = g.correlation_id;
  };
}

abbrev pub refund_command : Saga → Option String → Command
refund_command g payment_id = record {
  queue = payment_command;
  message = record {
    saga_id = g.saga_id;
    type = Msg.refund;
    step_name = payment;
    payload = repayment payment_id g.order_id;
    correlation_id = g.correlation_id;
  };
}

abbrev pub compensated_steps : List StepUpdate
compensated_steps =
    update payment StepStatus.compensated ∷ update inventory StepStatus.compensated ∷ []

-- `step.replyData && step.replyData.paymentId`
abbrev pub payment_id_of : SagaStep → Option String
payment_id_of s = elim s.reply_data [ none ↦ none | some r ↦ r.payment_id ]

abbrev new_step : StepName → Payload → SagaStep
new_step name payload = record {
  name = name;
  status = StepStatus.pending;
  payload = payload;
  reply_data = none;
  deadline = none;
  compensate_attempts = 0;
}

-- The saga that `startOrder` saves.
unfoldable pub new_saga : String → String → String → String → ℤ → ℤ → String → ℕ → Saga
new_saga saga_id order_id user_email item_id quantity amount correlation_id deadline = record {
  saga_id = saga_id;
  order_id = order_id;
  state = started;
  current_step = inventory;
  deadline = some deadline;
  correlation_id = correlation_id;
  steps =
      new_step inventory (stock item_id quantity)
      ∷ new_step payment (invoice order_id amount)
      ∷ new_step points (award user_email amount)
      ∷ [];
  outbox = [];
}

-- `new SagaOrchestrator({…})`, but for the repositories
pub record Config : Type 0 where
  pub points_enabled : Bool
  pub step_timeout_ms : ℕ
  pub max_compensate_attempts : ℕ

-- What `startOrder` returns.
pub record Started : Type 0 where
  pub order_id : String
  pub saga_id : String
  pub status : OrderStatus

module _ {S : Type 0} where
  -- A step that is not there is `undefined`, and so has no `payload`.
  abbrev pub or_type_error : Option SagaStep → Async S SagaStep
  or_type_error none = throw type_error
  or_type_error (some s) = return s

  abbrev pub step_of : StepName → Saga → Async S SagaStep
  step_of name g = or_type_error (find_step name g.steps)

  -- `startOrder` gives the steps payloads of these forms. Of another object the source would read
  -- `undefined`.
  abbrev pub stock_of : Payload → Async S (String × ℤ)
  stock_of (stock item_id quantity) = return (item_id, quantity)
  stock_of _ = throw type_error

  abbrev pub amount_of : Payload → Async S ℤ
  amount_of (invoice order_id amount) = return amount
  amount_of _ = throw type_error
