-- ===== src/Async.antt =====
-- JavaScript's `async` functions. What runs between two `await`s is one step on the shared state,
-- so that an `await` is where other computations of the process, or of another instance, come in.
pub mod Logic
pub mod Run
pub mod Schedule
use msa_training.Errors.{Error, Result, ok, err}

-- A computation over the state `S` has returned, has thrown, or goes on with one operation.
pub data Async (S A : Type 0) : Type 1 where
  return : A → Async S A
  throw : Error → Async S A
  await : {B : Type 0} → (S → B × S) → (B → Async S A) → Async S A

module _ {S A B : Type 0} where
  infixl 10 ◌>>=◌
  abbrev pub ◌>>=◌ : Async S A → (A → Async S B) → Async S B
  return a >>= f = f a
  throw e >>= f = throw e
  await op k >>= f = await op (λ b. k b >>= f)

  -- an `await` whose value nobody reads
  infixl 10 ◌>>◌
  abbrev pub ◌>>◌ : Async S A → Async S B → Async S B
  m >> k = m >>= λ _. k

module _ {S A : Type 0} where
  -- One operation.
  abbrev pub call : (S → A × S) → Async S A
  call op = await op return

  abbrev pub from_result : Result A → Async S A
  from_result (ok a) = return a
  from_result (err e) = throw e

  -- `try { … } catch (err) { … }` around a body that ends in no value.
  abbrev pub catch : Async S A → (Error → Async S A) → Async S A
  catch (return a) h = return a
  catch (throw e) h = h e
  catch (await op k) h = await op (λ b. catch (k b) h)

  -- `try { … } catch (err) { … }` around a body that ends in a value: what it ended in.
  abbrev pub attempt : Async S A → Async S (Result A)
  attempt (return a) = return (ok a)
  attempt (throw e) = return (err e)
  attempt (await op k) = await op (λ b. attempt (k b))

  -- A computation that no other one comes into.
  unfoldable pub run : Async S A → S → Result A × S
  run (return a) s = (ok a, s)
  run (throw e) s = (err e, s)
  run (await op k) s = let (b, s') = op s in run (k b) s'
