-- ===== src/Tests/Breaker.antt =====
-- circuitBreaker.js over a network that has one answer and a breaker that is open or closed.
use msa_training.Prelude.{ℕ, ◌≡◌, refl, ap, subst, Bool, true, false, Option, none, some, ◌&&◌}
use msa_training.Errors.{Error, Result, ok, err, driver_error}
use msa_training.Infrastructure.CircuitBreaker.{
  Libraries, GetRequest, AuthAnswer, response, circuit_open, validate_request,
  validate_with_auth_service, fire_auth,
}

abbrev Reply : Type 0
Reply = Result (ℕ × Bool)

-- a status that is not accepted rejects the promise
abbrev checked : Bool → ℕ × Bool → Reply
checked true x = ok x
checked false x = err driver_error

abbrev answer_to : GetRequest → Reply → Reply
answer_to r (ok x) = checked (r.validate_status x.0) x
answer_to r (err e) = err e

checked-accepts : (t : Bool) (x y : ℕ × Bool) → checked t y ≡ ok x → t ≡ true
checked-accepts true x y e = refl
checked-accepts false x y e = cc

checked-same : (t : Bool) (x y : ℕ × Bool) → checked t y ≡ ok x → y ≡ x
checked-same true x y e = cc
checked-same false x y e = cc

accepts :
    (r : GetRequest) (n : Reply) (x : ℕ × Bool)
    → answer_to r n ≡ ok x
    → r.validate_status x.0 ≡ true
accepts r (ok y) x e =
    subst (λ z. r.validate_status z.0 ≡ true) (checked-same (r.validate_status y.0) x y e)
      (checked-accepts (r.validate_status y.0) x y e)
accepts r (err d) x e = cc

abbrev or_fallback : Result AuthAnswer → Option AuthAnswer → Result AuthAnswer
or_fallback (ok a) f = ok a
or_fallback (err e) none = err e
or_fallback (err e) (some a) = ok a

-- an open circuit refuses the call
abbrev pass : Bool → Result AuthAnswer → Result AuthAnswer
pass true r = r
pass false r = err driver_error

resolved :
    (t : Bool) (r : Result AuthAnswer) (f : Option AuthAnswer) (a : AuthAnswer)
    → t && true ≡ true
    → r ≡ ok a
    → or_fallback (pass t r) f ≡ ok a
resolved true r f a t e = ap (λ x. or_fallback x f) e
resolved false r f a t e = cc

stopped :
    (t : Bool) (r : Result AuthAnswer) (a : AuthAnswer)
    → t && true ≡ false
    → or_fallback (pass t r) (some a) ≡ ok a
stopped true r a t = cc
stopped false r a t = refl

rejected :
    (t : Bool) (r : Result AuthAnswer) (a : AuthAnswer) (e : Error)
    → r ≡ err e
    → or_fallback (pass t r) (some a) ≡ ok a
rejected true r a d e = ap (λ x. or_fallback x (some a)) e
rejected false r a d e = refl

abbrev libraries : Libraries
libraries = record {
  Net = Reply;
  get = λ r n. (answer_to r n, n);
  get-accepts = accepts;
  Breaker = Bool;
  new_breaker = λ o. true;
  fire = λ closed action fallback n. (or_fallback (pass closed (action n).0) fallback, (closed, n));
  permits = λ closed n. closed;
  in_time = λ closed n. true;
  fire-resolved = λ closed action fallback n a through e. resolved closed _ fallback a through e;
  fire-stopped = λ closed action a n stop. stopped closed _ a stop;
  fire-rejected = λ closed action a n e bad. rejected closed _ a e bad;
}

abbrev fired : Bool → Reply → Result AuthAnswer
fired closed n = (fire_auth libraries none closed "Bearer t" n).0

unauthorized_is_answer : fired true (ok (401, false)) ≡ ok (response 401 false)
unfolding fire_auth validate_with_auth_service validate_request
unauthorized_is_answer = refl

broken_service : fired true (ok (503, false)) ≡ ok circuit_open
unfolding fire_auth validate_with_auth_service validate_request
broken_service = refl

open_circuit : fired false (ok (200, true)) ≡ ok circuit_open
unfolding fire_auth validate_with_auth_service validate_request
open_circuit = refl
