-- ===== src/Async/Run.antt =====
-- Runs that nothing comes into, one part after the other.
use msa_training.Prelude.{◌≡◌, refl, ap, arith}
use msa_training.Errors.{Error, Result, ok, err}
use msa_training.Async.{Async, return, throw, await, run, attempt, from_result, ◌>>=◌}

module _ {S A B : Type 0} where
  abbrev pub follow : Result A × S → (A → Async S B) → Result B × S
  follow (ok a, s) f = run (f a) s
  follow (err e, s) f = (err e, s)

  pub run->>= : (m : Async S A) (f : A → Async S B) (s : S) → run (m >>= f) s ≡ follow (run m s) f
  unfolding run
  run->>= (return a) f s = refl
  run->>= (throw e) f s = refl
  run->>= (await op k) f s = run->>= (k (op s).0) f (op s).1

  -- A checked value, and the throw that a failed check is.
  pub run-from_result :
      (r : Result A) (a : A) (f : A → Async S B) (s : S)
      → r ≡ ok a
      → run (from_result r >>= f) s ≡ run (f a) s
  run-from_result (ok a') a f s e = let same : a' ≡ a = ground arith in ap (λ x. run (f x) s) same
  run-from_result (err _) a f s e = absurd (cc e)

  pub run-from_result_err :
      (r : Result A) (e : Error) (f : A → Async S B) (s : S)
      → r ≡ err e
      → run (from_result r >>= f) s ≡ (err e, s)
  unfolding run
  run-from_result_err (ok a) e f s h = absurd (cc h)
  run-from_result_err (err e') e f s h =
      let same : e' ≡ e = ground arith in ap (λ x. (err x, s)) same

  pub follow-ok :
      (x : Result A × S) (a : A) (f : A → Async S B) → x.0 ≡ ok a → follow x f ≡ run (f a) x.1
  follow-ok (ok a', s) a f e = let same : a' ≡ a = ground arith in ap (λ y. run (f y) s) same
  follow-ok (err _, s) a f e = absurd (cc e)

module _ {S A : Type 0} where
  pub run-attempt : (m : Async S A) (s : S) → run (attempt m) s ≡ (ok (run m s).0, (run m s).1)
  unfolding run
  run-attempt (return a) s = refl
  run-attempt (throw e) s = refl
  run-attempt (await op k) s = run-attempt (k (op s).0) (op s).1
