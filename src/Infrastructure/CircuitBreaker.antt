-- ===== src/Infrastructure/CircuitBreaker.antt =====
-- services/order-service/circuitBreaker.js, over the two libraries that it calls: axios and opossum.
pub mod Answers
use Prim.Native.String.{◌++◌}
use msa_training.Prelude.{ℕ, String, Bool, Option, none, some, ◌≡◌, true, false, ltb, ◌&&◌}
use msa_training.Errors.{Error, Result, ok, err}
use msa_training.Infrastructure.Consul.{or_host}

-- `options`, in milliseconds, per cent and calls
pub record BreakerOptions : Type 0 where
  pub timeout : ℕ
  pub error_threshold_percentage : ℕ
  pub reset_timeout : ℕ
  pub volume_threshold : ℕ

abbrev pub options : BreakerOptions
options = record {
  timeout = 3000;
  error_threshold_percentage = 50;
  reset_timeout = 10000;
  volume_threshold = 3;
}

pub record CustomOptions : Type 0 where
  pub timeout : Option ℕ
  pub error_threshold_percentage : Option ℕ
  pub reset_timeout : Option ℕ
  pub volume_threshold : Option ℕ

abbrev or_default : Option ℕ → ℕ → ℕ
or_default none d = d
or_default (some n) d = n

-- `{ ...options, ...customOptions }`
unfoldable pub merge_options : CustomOptions → BreakerOptions
merge_options custom = record {
  timeout = or_default custom.timeout options.timeout;
  error_threshold_percentage =
      or_default custom.error_threshold_percentage options.error_threshold_percentage;
  reset_timeout = or_default custom.reset_timeout options.reset_timeout;
  volume_threshold = or_default custom.volume_threshold options.volume_threshold;
}

-- What is handed to `axios.get`.
pub record GetRequest : Type 0 where
  pub url : String
  pub authorization : String
  pub timeout : ℕ
  pub validate_status : ℕ → Bool

pub data AuthAnswer : Type 0 where
  -- the auth service's response
  response : (status : ℕ) (valid : Bool) → AuthAnswer
  -- `{ data: { valid: false, reason: 'circuit_open' } }`
  circuit_open : AuthAnswer

unfoldable pub validate_request : Option String → String → GetRequest
validate_request host auth_header = record {
  url = "http://" ++ or_host host "localhost" ++ ":8080/api/auth/validate";
  authorization = auth_header;
  timeout = 2000;
  validate_status = λ status. ltb status 500;
}

-- The two libraries. A breaker of opossum has a state of its own, which opens and closes it.
pub record Libraries : Type 1 where
  pub Net : Type 0
  pub get : GetRequest → Net → Result (ℕ × Bool) × Net
  -- the promise is resolved only with a status that `validateStatus` accepts
  pub get-accepts :
      (r : GetRequest) (n : Net) (x : ℕ × Bool) → (get r n).0 ≡ ok x → r.validate_status x.0 ≡ true
  pub Breaker : Type 0
  pub new_breaker : BreakerOptions → Breaker
  -- `fire` of a breaker with this action and this fallback
  pub fire :
      Breaker
      → (Net → Result AuthAnswer × Net)
      → Option AuthAnswer
      → Net
      → Result AuthAnswer × (Breaker × Net)
  -- whether the circuit lets a call through, and whether the action ends within the timeout
  pub permits : Breaker → Net → Bool
  pub in_time : Breaker → Net → Bool
  -- a call that is let through, ends in time and is resolved gives its value
  pub fire-resolved :
      (s : Breaker) (action : Net → Result AuthAnswer × Net) (fallback : Option AuthAnswer)
      (n : Net) (a : AuthAnswer)
      → permits s n && in_time s n ≡ true
      → (action n).0 ≡ ok a
      → (fire s action fallback n).0 ≡ ok a
  -- any other gives the fallback's, if there is one
  pub fire-stopped :
      (s : Breaker) (action : Net → Result AuthAnswer × Net) (a : AuthAnswer) (n : Net)
      → permits s n && in_time s n ≡ false
      → (fire s action (some a) n).0 ≡ ok a
  pub fire-rejected :
      (s : Breaker) (action : Net → Result AuthAnswer × Net) (a : AuthAnswer) (n : Net) (e : Error)
      → (action n).0 ≡ err e
      → (fire s action (some a) n).0 ≡ ok a

abbrev pub as_answer : Result (ℕ × Bool) → Result AuthAnswer
as_answer (ok (status, valid)) = ok (response status valid)
as_answer (err e) = err e

module _ (lib : Libraries) where
  open lib use {Net, Breaker, get, new_breaker, fire}

  -- `AUTH_HOST` and the header
  unfoldable pub validate_with_auth_service : Option String → String → Net → Result AuthAnswer × Net
  validate_with_auth_service host auth_header n =
      let (r, n') = get (validate_request host auth_header) n in (as_answer r, n')

  unfoldable pub auth_breaker : Breaker
  auth_breaker = new_breaker options

  -- `authBreaker.fire(authHeader)`, with the fallback that is registered
  unfoldable pub fire_auth :
      Option String → Breaker → String → Net → Result AuthAnswer × (Breaker × Net)
  unfolding validate_with_auth_service
  fire_auth host s auth_header n =
      fire s (validate_with_auth_service host auth_header) (some circuit_open) n

  unfoldable pub create_breaker : CustomOptions → Breaker
  unfolding merge_options
  create_breaker custom = new_breaker (merge_options custom)
