-- ===== src/Messaging/Publishers.antt =====
-- src/infrastructure/messaging/SagaCommandPublisher.js and producer.js of the order service.
pub mod Delivery
use msa_training.Prelude.{ℕ, String, Bool, true, false, Option, none, some, List}
use msa_training.Async.{Async, ◌>>◌}
use msa_training.Saga.Contracts.{dlq_name, queue_assert_options}
use msa_training.Driver.{ask}
use msa_training.Messaging.Channel.{
  Call, connect, create_channel, get_channel, close_channel, close_connection, assert_queue,
  send_to_queue,
}

module _ (granted : ℕ → Bool) where
  -- `publish` of the publisher of commands
  unfoldable pub publish : String → Async (List Call) (Unit {0})
  publish queue =
      ask granted get_channel
      >> (ask granted (assert_queue (dlq_name queue) true none)
          >> (ask granted (assert_queue queue true (some (queue_assert_options queue)))
              >> ask granted (send_to_queue queue true)))

  unfoldable pub send_order_message : Async (List Call) (Unit {0})
  send_order_message =
      ask granted connect
      >> (ask granted create_channel
          >> (ask granted (assert_queue "order_dlq" true none)
              >> (ask granted (
                    assert_queue "order_queue" true (
                      some (record {
                        durable = true;
                        dead_letter_exchange = "";
                        dead_letter_routing_key = "order_dlq";
                      })))
                  >> (ask granted (send_to_queue "order_queue" false)
                      >> (ask granted close_channel >> ask granted close_connection)))))
