-- ===== src/Driver.antt =====
-- A library that the service calls and that may refuse a call: axios, amqplib. The calls made are
-- logged, the newest first, and whether the next one is granted is a parameter.
pub mod Run
use msa_training.Prelude.{ℕ, Bool, List, ◌∷◌, length, if◌then◌else◌}
use msa_training.Errors.{Result, ok, err, driver_error}
use msa_training.Async.{Async, call, from_result, ◌>>=◌}

abbrev pub verdict : Bool → Result (Unit {0})
verdict granted = if granted then ok tt else err driver_error

module _ {C : Type 0} where
  -- a call that the library may refuse, by throwing
  abbrev pub ask : (ℕ → Bool) → C → Async (List C) (Unit {0})
  ask granted c = call (λ log. (verdict (granted (length log)), c ∷ log)) >>= from_result

  -- a call that nothing refuses
  abbrev pub note : C → Async (List C) (Unit {0})
  note c = call (λ log. (tt, c ∷ log))
