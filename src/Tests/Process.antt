-- ===== src/Tests/Process.antt =====
-- The process around the sagas, at concrete inputs: registration, metrics, workers, RabbitMQ, start.
use msa_training.Prelude.{
  ℕ, ◌+◌, ◌≤◌, ◌<◌, ◌≡◌, refl, String, Bool, true, false, none, some, [], ◌∷◌, ltb, leb, length,
  arith,
}
use msa_training.Errors.{ok}
use msa_training.Async.{run}
use msa_training.Infrastructure.Consul.{Options, service_id, register}
use msa_training.Infrastructure.Consul.Retries.{puts, register-attempts}
use msa_training.Infrastructure.Metrics.{Request, Metrics, End, middleware}
use msa_training.Infrastructure.Metrics.Once.{ends, counted, ends-once}
use msa_training.Messaging.Timers.{handles}
use msa_training.Messaging.ReplyConsumer.Restart as Restart
use msa_training.Messaging.ReplyConsumer.Restart.Alive.{fresh, awaited, consumer_waits}
use msa_training.Messaging.Connection as Connection
use msa_training.Messaging.Connection.Single.{unconnected, connects_once}
use msa_training.Messaging.Publishers.{send_order_message}
use msa_training.Messaging.Publishers.Delivery.{
  is_ok, sent_to, closed, grants, send_order_message_lem,
}
use msa_training.Bootstrap.{Env}
use msa_training.Bootstrap.Workers as Workers

abbrev order_service : Options
order_service = record {
  consul_url = "http://consul:8500";
  name = "order-service";
  host = "10.0.0.7";
  port = 8081;
  health_path = "/api/order/health";
  instance_key = some "order-1";
}

-- Consul grants from the fifth call on: two attempts, with a wait each, are refused.
abbrev late : ℕ → Bool
late n = leb 4 n

register-attempts_example :
    (run (register late order_service) []).0 ≡ ok (service_id order_service)
    × puts (run (register late order_service) []).1 ≡ 3
register-attempts_example =
    register-attempts late order_service 2 (omega arith) (λ j small. ground (arith, small)) refl

abbrev asked : Request
asked = record {
  method = "GET";
  path = "/api/order/7";
  base_url = some "/api/order";
  route_path = some "/:id";
}

abbrev finish : End
finish = record {
  request = asked;
  outcome = record { status_code = 200; writable_ended = true };
  now_ns = 5000;
}

abbrev no_metrics : Metrics
no_metrics = record {
  http_requests_total = [];
  http_request_duration = [];
  service_dependency_ready = [];
}

ends-once_example :
    (ends (finish ∷ finish ∷ []) (middleware "/api/order/metrics" asked 1000, no_metrics)).1
    ≡ counted 1000 finish no_metrics
ends-once_example = ends-once "/api/order/metrics" asked 1000 finish (finish ∷ []) no_metrics

-- A start that RabbitMQ refuses.
abbrev scheduled : Restart.Consumer
scheduled =
    Restart.start_ended (run (Restart.subscribe (λ _. false)) []).0 (Restart.start (fresh 3))

begun : 0 < (Restart.start (fresh 3)).starting
unfolding Restart.start
begun = omega arith

consumer_waits_example :
    0 < awaited scheduled
    × length scheduled.held.timers.live ≤ 1
    × (Restart.stop scheduled).held.timers.live ≡ []
consumer_waits_example = consumer_waits 3 scheduled (
    Restart.then_ _ _ _ (Restart.here _)
      (Restart.start_ends (Restart.start (fresh 3)) (λ _. false) begun))

abbrev dialing : Connection.Connection
dialing = (Connection.get_channel unconnected).1

connects_once_example :
    length dialing.attempts + length (handles dialing.channel) ≤ 1
    × dialing.channel ≡ dialing.connection
connects_once_example =
    connects_once dialing
      (Connection.next_step _ _ _ (Connection.here _) (Connection.asks unconnected))

-- RabbitMQ grants the connection alone.
abbrev first_only : ℕ → Bool
first_only n = ltb n 1

send_order_message_example :
    is_ok (run (send_order_message first_only) []).0 ≡ grants first_only 7
    × sent_to (run (send_order_message first_only) []).1 ≡ grants first_only 4
    × closed (run (send_order_message first_only) []).1 ≡ grants first_only 6
send_order_message_example = send_order_message_lem first_only

abbrev pod : String → Env
pod name = record {
  internal_api_key = some "secret";
  points_enabled = some "true";
  consul_host = none;
  consul_port = none;
  pod_ip = some "10.0.0.7";
  consul_service_address = none;
  hostname = none;
  pod_name = some name;
  outbox_relay_interval_ms = none;
  step_timeout_ms = some 0;
  timeout_sweep_interval_ms = some 100;
  max_compensate_attempts = none;
  max_outbox_attempts = none;
}

abbrev running : Workers.Workers
running = Workers.start_workers (Workers.start_workers Workers.at_rest)

timers_bounded_example : Workers.live running ≤ 3 × Workers.live (Workers.clean_up running) ≡ 0
timers_bounded_example = Workers.timers_bounded running (
    Workers.next_turn _ _ _
      (Workers.next_turn _ _ _ (Workers.here _) (Workers.start_all Workers.at_rest))
      (Workers.start_all (Workers.start_workers Workers.at_rest)))
