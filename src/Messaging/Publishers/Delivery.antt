-- ===== src/Messaging/Publishers/Delivery.antt =====
-- What has been asked of RabbitMQ when a message is sent, and what is left open.
use msa_training.Prelude.{
  ℕ, zero, suc, ◌≡◌, refl, ◌∙◌, arith, inl, inr, String, Bool, true, false, ◌&&◌, List, [], ◌∷◌,
  length, none, some, Bool-cases, if◌then◌else◌,
}
use msa_training.Errors.{Result, ok, err, driver_error}
use msa_training.Async.{Async, run, from_result, ◌>>◌}
use msa_training.Saga.Contracts.{dlq_name, queue_assert_options}
use msa_training.Driver.{ask, verdict}
use msa_training.Driver.Run.{run-ask, run-ask_refused}
use msa_training.Messaging.Channel.{
  Call, connect, create_channel, get_channel, close_channel, close_connection, assert_queue,
  send_to_queue,
}
use msa_training.Messaging.Publishers.{publish, send_order_message}

-- Whether the first `n` calls are granted.
abbrev pub grants : (ℕ → Bool) → ℕ → Bool
grants granted zero = true
grants granted (suc n) = grants granted n && granted n

abbrev pub is_ok : Result (Unit {0}) → Bool
is_ok (ok _) = true
is_ok (err _) = false

abbrev pub sent_to : List Call → Bool
sent_to [] = false
sent_to (send_to_queue _ _ ∷ _) = true
sent_to (_ ∷ cs) = sent_to cs

abbrev pub closed : List Call → Bool
closed [] = false
closed (close_connection ∷ _) = true
closed (_ ∷ cs) = closed cs

module _ (granted : ℕ → Bool) where
  -- Calls one after the other, and what they come to.
  abbrev asks : Call → List Call → Async (List Call) (Unit {0})
  asks c [] = ask granted c
  asks c (d ∷ cs) = ask granted c >> asks d cs

  abbrev tried : Call → List Call → List Call → Result (Unit {0}) × List Call
  tried c [] log = (verdict (granted (length log)), c ∷ log)
  tried c (d ∷ cs) log =
      if granted (length log) then tried d cs (c ∷ log) else (err driver_error, c ∷ log)

  run-asks : (c : Call) (cs log : List Call) → run (asks c cs) log ≡ tried c cs log
  unfolding run
  run-asks c [] log = decided (granted (length log)) (c ∷ log)
    where
      decided : (b : Bool) (log : List Call) → run (from_result (verdict b)) log ≡ (verdict b, log)
      decided true log = refl
      decided false log = refl
  run-asks c (d ∷ cs) log = elim (Bool-cases (granted (length log))) [
    | inl granted_ ↦
        rw granted_ (run-ask granted c log (λ _. asks d cs) granted_ ∙ run-asks d cs (c ∷ log))
    | inr refused ↦ rw refused (run-ask_refused granted c log (λ _. asks d cs) refused)
  ]

  -- A command is published, that is the promise resolves, when all four calls are granted; it is handed
  -- to RabbitMQ only when the channel, its dead letters' queue and its own queue were granted.
  pub publish_lem :
      (queue : String)
      → is_ok (run (publish granted queue) []).0 ≡ grants granted 4
        × sent_to (run (publish granted queue) []).1 ≡ grants granted 3
  unfolding publish
  publish_lem queue =
      rw
        (run-asks get_channel
          (assert_queue (dlq_name queue) true none
            ∷ assert_queue queue true (some (queue_assert_options queue))
            ∷ send_to_queue queue true
            ∷ [])
          [])
        (ground arith)

  -- An order's message is handed to RabbitMQ when the connection, the channel and both queues were
  -- granted; the promise resolves when all seven calls are. The connection is closed only if
  -- every call before was granted, so that a failure after the connection was made leaves it open.
  pub send_order_message_lem :
      is_ok (run (send_order_message granted) []).0 ≡ grants granted 7
      × sent_to (run (send_order_message granted) []).1 ≡ grants granted 4
      × closed (run (send_order_message granted) []).1 ≡ grants granted 6
  unfolding send_order_message
  send_order_message_lem =
      rw
        (run-asks connect
          (create_channel
            ∷ assert_queue "order_dlq" true none
            ∷ assert_queue "order_queue" true (
                some (record {
                  durable = true;
                  dead_letter_exchange = "";
                  dead_letter_routing_key = "order_dlq";
                }))
            ∷ send_to_queue "order_queue" false
            ∷ close_channel
            ∷ close_connection
            ∷ [])
          [])
        (ground arith)
