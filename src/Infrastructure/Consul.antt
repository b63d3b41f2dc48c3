-- ===== src/Infrastructure/Consul.antt =====
-- services/order-service/infrastructure/consulRegistrar.js. What axios is called for and the waits are
-- logged; log lines are left out.
pub mod Retries
pub mod Shutdown
use Prim.Native.Nat.{◌^◌}
use Prim.Native.String.{◌++◌}
use msa_training.Prelude.{
  ℕ, zero, suc, ◌+◌, ◌-◌, ◌*◌, String, Bool, true, false, Option, none, some, List, ◌==◌, leb, ltb,
  if◌then◌else◌,
}
use msa_training.Prelude.Decimal.{decimal}
use msa_training.Errors.{Result, ok, err}
use msa_training.Async.{Async, return, attempt, catch, ◌>>=◌, ◌>>◌}
use msa_training.Driver.{ask, note}

-- `payload.Check`
pub record HealthCheck : Type 0 where
  pub http : String
  pub interval : String
  pub timeout : String
  pub deregister_critical_service_after : String

pub record Registration : Type 0 where
  pub id : String
  pub name : String
  pub address : String
  pub port : ℕ
  pub check : HealthCheck

-- the argument of `register`
pub record Options : Type 0 where
  pub consul_url : String
  pub name : String
  pub host : String
  pub port : ℕ
  pub health_path : String
  pub instance_key : Option String

pub data Call : Type 0 where
  put_registration : (url : String) → Registration → Call
  put_deregistration : (url : String) → Call
  sleep : (ms : ℕ) → Call
  -- the clean-up that the shutdown is given, and the end of the process
  clean_up : Call
  exit : (code : ℕ) → Call

-- `instanceKey || host`
abbrev pub or_host : Option String → String → String
or_host none host = host
or_host (some key) host = if key == "" then host else key

unfoldable pub service_id : Options → String
service_id o = o.name ++ "-" ++ or_host o.instance_key o.host ++ "-" ++ decimal o.port

unfoldable pub registration : Options → Registration
registration o = record {
  id = service_id o;
  name = o.name;
  address = o.host;
  port = o.port;
  check = record {
    http = "http://" ++ o.host ++ ":" ++ decimal o.port ++ o.health_path;
    interval = "10s";
    timeout = "2s";
    deregister_critical_service_after = "30s";
  };
}

abbrev min : ℕ → ℕ → ℕ
min a b = if leb a b then a else b

unfoldable pub backoff : ℕ → ℕ
backoff attempt = min (100 * 2 ^ (attempt - 1)) 2000

-- what follows a refused attempt: the wait, but for the last one, and the rest of the loop
unfoldable pub try_again :
    ℕ → Async (List Call) String → Result (Unit {0}) → String → Async (List Call) String
unfolding backoff
try_again attempt rest (ok _) id = return id
try_again attempt rest (err _) id =
    if ltb attempt 5 then note (sleep (backoff attempt)) >> rest else rest

module _ (granted : ℕ → Bool) where
  -- the loop, by the rounds left and the attempt's number
  unfoldable pub register_from : ℕ → ℕ → Options → Async (List Call) String
  unfolding try_again
  register_from zero attempt_number o = return (service_id o)
  register_from (suc left) attempt_number o =
      attempt (
        ask granted
          (put_registration (o.consul_url ++ "/v1/agent/service/register") (registration o)))
      >>= λ r. try_again attempt_number (register_from left (attempt_number + 1) o) r (service_id o)

  unfoldable pub register : Options → Async (List Call) String
  unfolding register_from
  register o = register_from 5 1 o

  unfoldable pub deregister : String → String → Async (List Call) (Unit {0})
  deregister consul_url id =
      catch (ask granted (put_deregistration (consul_url ++ "/v1/agent/service/deregister/" ++ id)))
        (λ _. return tt)

  -- the handler of SIGTERM; `on_shutdown` says whether it was given a clean-up, which may throw
  unfoldable pub shut_down : (on_shutdown : Bool) → String → String → Async (List Call) (Unit {0})
  unfolding deregister
  shut_down on_shutdown consul_url id =
      (if on_shutdown then catch (ask granted clean_up) (λ _. return tt) else return tt)
      >> (deregister consul_url id >> note (exit 0))
