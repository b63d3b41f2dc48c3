-- ===== src/Infrastructure/CircuitBreaker/Answers.antt =====
-- What a call of the auth service through the breaker answers.
use msa_training.Prelude.{ℕ, ◌<◌, String, Bool, Option, ◌≡◌, ap, true, false, ◌&&◌, arith}
use msa_training.Errors.{Error, ok, err}
use msa_training.Infrastructure.CircuitBreaker.{
  Libraries, response, circuit_open, as_answer, validate_request, validate_with_auth_service,
  fire_auth,
}

module _ (lib : Libraries) (host : Option String) (s : lib.Breaker) (auth_header : String)
    (n : lib.Net) where
  -- A call of the auth service through the breaker is rejected in no case. One that the circuit lets
  -- through, that ends in time and that the auth service answers gives this answer, whose status is
  -- below 500, so that a 401 is an answer and no failure; one that is stopped, late or rejected gives
  -- `circuit_open`.
  fire_auth_lem :
      let (result, _) = fire_auth lib host s auth_header n in
      let got = (lib.get (validate_request host auth_header) n).0 in
      ((status : ℕ) (valid : Bool)
        → lib.permits s n && lib.in_time s n ≡ true
        → got ≡ ok (status, valid)
        → (result ≡ ok (response status valid)) × (status < 500))
      × (lib.permits s n && lib.in_time s n ≡ false → result ≡ ok circuit_open)
      × ((e : Error) → got ≡ err e → result ≡ ok circuit_open)
  unfolding fire_auth validate_with_auth_service validate_request
  fire_auth_lem = (
    λ status valid through e. (
      lib.fire-resolved s _ _ n (response status valid) through (ap as_answer e),
      let accepted = lib.get-accepts (validate_request host auth_header) n (status, valid) e in
          ground arith,
    ),
    λ stopped. lib.fire-stopped s _ circuit_open n stopped,
    λ e rejected. lib.fire-rejected s _ circuit_open n e (ap as_answer rejected),
  )
