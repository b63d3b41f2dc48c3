-- ===== src/Messaging/Channel.antt =====
-- What the service calls amqplib for. A message's content is left out.
use msa_training.Prelude.{String, Bool, Option}
use msa_training.Saga.Contracts.{QueueOptions}

pub data Call : Type 0 where
  connect create_channel get_channel close_channel close_connection : Call
  -- the options are there when the queue has a queue for dead letters
  assert_queue : (name : String) → (durable : Bool) → Option QueueOptions → Call
  send_to_queue : (name : String) → (persistent : Bool) → Call
  consume : (name : String) → Call
  on_close : Call
