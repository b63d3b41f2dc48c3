-- ===== src/Bootstrap.antt =====
-- services/order-service/index.js and src/saga/sagaConfig.js: what the process does from its start
-- until it serves. The wiring of the objects is the parameters of the other modules; Express, the log
-- lines and MongoDB's address are left out.
pub mod Start
pub mod Workers
use Prim.Native.String.{◌++◌}
use msa_training.Prelude.{
  ℕ, zero, suc, String, Bool, true, false, Option, none, some, List, ◌==◌, if◌then◌else◌,
}
use msa_training.Errors.{Result, ok, err}
use msa_training.Async.{Async, attempt, ◌>>=◌, ◌>>◌}
use msa_training.Saga.Orchestrator.{Config}
use msa_training.Messaging.OutboxRelay.{RelayConfig}
use msa_training.Driver.{ask, note}
use msa_training.Infrastructure.Consul.{Options, or_host}

-- `process.env`, of what is read; the settings are what `Number` makes of them, none for NaN.
-- Fractions and negative numbers are left out.
pub record Env : Type 0 where
  pub internal_api_key : Option String
  pub points_enabled : Option String
  pub consul_host : Option String
  pub consul_port : Option String
  pub pod_ip : Option String
  pub consul_service_address : Option String
  pub hostname : Option String
  pub pod_name : Option String
  pub outbox_relay_interval_ms : Option ℕ
  pub step_timeout_ms : Option ℕ
  pub timeout_sweep_interval_ms : Option ℕ
  pub max_compensate_attempts : Option ℕ
  pub max_outbox_attempts : Option ℕ

-- `Number(…) || n`
abbrev pub or_number : Option ℕ → ℕ → ℕ
or_number none n = n
or_number (some zero) n = n
or_number (some (suc k)) n = suc k

pub record Settings : Type 0 where
  pub outbox_relay_interval_ms : ℕ
  pub step_timeout_ms : ℕ
  pub timeout_sweep_interval_ms : ℕ
  pub max_compensate_attempts : ℕ
  pub max_outbox_attempts : ℕ

unfoldable pub settings : Env → Settings
settings e = record {
  outbox_relay_interval_ms = or_number e.outbox_relay_interval_ms 2000;
  step_timeout_ms = or_number e.step_timeout_ms 15000;
  timeout_sweep_interval_ms = or_number e.timeout_sweep_interval_ms 5000;
  max_compensate_attempts = or_number e.max_compensate_attempts 5;
  max_outbox_attempts = or_number e.max_outbox_attempts 10;
}

-- `!key`
abbrev pub is_missing : Option String → Bool
is_missing none = true
is_missing (some key) = key == ""

abbrev pub is_text : String → Option String → Bool
is_text text none = false
is_text text (some t) = t == text

unfoldable pub orchestrator_config : Env → Config
unfolding settings
orchestrator_config e = record {
  points_enabled = is_text "true" e.points_enabled;
  step_timeout_ms = (settings e).step_timeout_ms;
  max_compensate_attempts = (settings e).max_compensate_attempts;
}

-- `batchSize` has the worker's default
unfoldable pub relay_config : Env → RelayConfig
unfolding settings
relay_config e = record {
  batch_size = 20;
  step_timeout_ms = (settings e).step_timeout_ms;
  max_outbox_attempts = (settings e).max_outbox_attempts;
}

unfoldable pub my_host : Env → String
my_host e = or_host e.pod_ip (or_host e.consul_service_address (or_host e.hostname "order-service"))

unfoldable pub service_options : Env → Options
unfolding my_host
service_options e = record {
  consul_url =
      "http://" ++ or_host e.consul_host "localhost" ++ ":" ++ or_host e.consul_port "8500";
  name = "order-service";
  host = my_host e;
  port = 8081;
  health_path = "/api/order/health";
  instance_key = some (or_host e.pod_name (my_host e));
}

pub data Act : Type 0 where
  exit : (code : ℕ) → Act
  connect_mongo : Act
  listen : (port : ℕ) → Act
  start_reply_consumer start_outbox_relay start_timeout_sweep : Act
  register_service : Options → Act

unfoldable pub start_http_server : Env → Async (List Act) (Unit {0})
start_http_server e =
    note (listen 8081)
    >> (note start_reply_consumer
        >> (note start_outbox_relay
            >> (note start_timeout_sweep >> note (register_service (service_options e)))))

unfoldable pub on_mongo_connect : Env → Result (Unit {0}) → Async (List Act) (Unit {0})
unfolding start_http_server
on_mongo_connect e (ok _) = start_http_server e
on_mongo_connect e (err _) = note (exit 1)

-- `mongoose.connect(…)`, with what follows it
unfoldable pub connect_database : (ℕ → Bool) → Env → Async (List Act) (Unit {0})
unfolding on_mongo_connect
connect_database granted e = attempt (ask granted connect_mongo) >>= on_mongo_connect e

-- the module's body; nothing comes after the exit for a missing key
unfoldable pub main : (ℕ → Bool) → Env → Async (List Act) (Unit {0})
unfolding connect_database
main granted e = if is_missing e.internal_api_key then note (exit 1) else connect_database granted e
