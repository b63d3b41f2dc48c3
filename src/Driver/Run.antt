-- ===== src/Driver/Run.antt =====
-- What a call of a library does to the run that it stands in, when it is granted and when refused.
use msa_training.Prelude.{ℕ, ◌≡◌, refl, Bool, true, false, List, ◌∷◌, length}
use msa_training.Errors.{Result, err, driver_error}
use msa_training.Async.{Async, return, attempt, catch, from_result, run, ◌>>=◌, ◌>>◌}
use msa_training.Driver.{verdict, ask}

module _ {C A : Type 0} (granted : ℕ → Bool) (c : C) (log : List C) where
  answered :
      (answer : Bool) (f : Unit {0} → Async (List C) A) (log : List C)
      → answer ≡ true
      → run (from_result (verdict answer) >>= f) log ≡ run (f tt) log
  answered true f log e = refl
  answered false f log e = absurd (cc e)

  pub run-ask :
      (f : Unit {0} → Async (List C) A)
      → granted (length log) ≡ true
      → run (ask granted c >>= f) log ≡ run (f tt) (c ∷ log)
  unfolding run
  run-ask f e = answered (granted (length log)) f (c ∷ log) e

  rejected :
      (answer : Bool) (f : Unit {0} → Async (List C) A) (log : List C)
      → answer ≡ false
      → run (from_result (verdict answer) >>= f) log ≡ (err driver_error, log)
  unfolding run
  rejected true f log e = absurd (cc e)
  rejected false f log e = refl

  pub run-ask_refused :
      (f : Unit {0} → Async (List C) A)
      → granted (length log) ≡ false
      → run (ask granted c >>= f) log ≡ (err driver_error, c ∷ log)
  unfolding run
  run-ask_refused f e = rejected (granted (length log)) f (c ∷ log) e

  attempted :
      (answer : Bool) (f : Result (Unit {0}) → Async (List C) A) (log : List C)
      → run (attempt (from_result (verdict answer)) >>= f) log ≡ run (f (verdict answer)) log
  attempted true f log = refl
  attempted false f log = refl

  pub run-attempt-ask :
      (f : Result (Unit {0}) → Async (List C) A)
      → run (attempt (ask granted c) >>= f) log ≡ run (f (verdict (granted (length log)))) (c ∷ log)
  unfolding run
  run-attempt-ask f = attempted (granted (length log)) f (c ∷ log)

  ignored :
      (answer : Bool) (k : Async (List C) A) (log : List C)
      → run (catch (from_result (verdict answer)) (λ _. return tt) >> k) log ≡ run k log
  ignored true k log = refl
  ignored false k log = refl

  -- A call whose refusal nobody reads.
  pub run-catch-ask :
      (k : Async (List C) A)
      → run (catch (ask granted c) (λ _. return tt) >> k) log ≡ run k (c ∷ log)
  unfolding run
  run-catch-ask k = ignored (granted (length log)) k (c ∷ log)
