-- ===== src/Async/Logic.antt =====
-- Pre- and postconditions for computations that others come into at every `await`. `Inv` holds
-- between any two steps; `Grows` is what every step does, so also what the others do meanwhile.
use msa_training.Prelude.{◌≡◌, refl, subst}
use msa_training.Errors.{Error, Result, ok, err}
use msa_training.Async.{Async, return, throw, await, from_result, catch, ◌>>=◌}

module _ {S : Type 0} (Inv : S → Type 0) (Grows : S → S → Type 0) where
  -- What is known once `op`, begun under `P`, has given `b` and others may have run since.
  abbrev pub After : {B : Type 0} → (S → Type 0) → (S → B × S) → B → S → Type 0
  After P op b s' = (s : S) × Inv s × P s × ((op s).0 ≡ b) × Grows (op s).1 s'

  unfoldable pub Holds :
      {A : Type 0} → Async S A → (S → Type 0) → (A → S → Type 0) → (S → Type 0) → Type 0
  Holds (return a) P Q T = (s : S) → Inv s → P s → Q a s
  Holds (throw e) P Q T = (s : S) → Inv s → P s → T s
  Holds (await {B} op k) P Q T =
      ((s : S) → Inv s → P s → Inv (op s).1 × Grows s (op s).1)
      × ((b : B) → Holds (k b) (After P op b) Q T)

  -- `P` is known where the computation starts, `Q a` where it returns `a`, `T` where it throws;
  -- each operation keeps `Inv` and makes the state grow.
  pub record Triple {A : Type 0} (m : Async S A) (P : S → Type 0) (Q : A → S → Type 0)
      (T : S → Type 0) : Type 0 where
    pub holds : Holds m P Q T

module _ {S : Type 0} (Inv : S → Type 0) (Grows : S → S → Type 0) (T : S → Type 0) where
  Holds-mono :
      {A : Type 0} (m : Async S A) (P P' : S → Type 0) (Q Q' : A → S → Type 0)
      → ((s : S) → Inv s → P' s → P s)
      → ((a : A) (s : S) → Inv s → Q a s → Q' a s)
      → Holds Inv Grows m P Q T
      → Holds Inv Grows m P' Q' T
  unfolding Holds
  Holds-mono (return a) P P' Q Q' hp hq t = λ s i p. hq a s i (t s i (hp s i p))
  Holds-mono (throw e) P P' Q Q' hp hq t = λ s i p. t s i (hp s i p)
  Holds-mono (await op k) P P' Q Q' hp hq t = (
    λ s i p. t.0 s i (hp s i p),
    λ b.
        Holds-mono (k b) (After Inv Grows P op b) (After Inv Grows P' op b) Q Q'
          (λ s' _ h. (h.0, h.1, hp h.0 h.1 h.2, h.3, h.4)) hq (t.1 b),
  )

  Holds-bind :
      {A B : Type 0} (m : Async S A) (f : A → Async S B) (P : S → Type 0) (Q : A → S → Type 0)
      (U : B → S → Type 0)
      → Holds Inv Grows m P Q T
      → ((a : A) → Holds Inv Grows (f a) (Q a) U T)
      → Holds Inv Grows (m >>= f) P U T
  unfolding Holds
  Holds-bind (return a) f P Q U t u = Holds-mono (f a) (Q a) P U U t (λ _ _ _ q. q) (u a)
  Holds-bind (throw e) f P Q U t u = t
  Holds-bind (await op k) f P Q U t u =
      (t.0, λ b. Holds-bind (k b) f (After Inv Grows P op b) Q U (t.1 b) u)

module _ {S : Type 0} (Inv : S → Type 0) (Grows : S → S → Type 0) (T : S → Type 0) where
  -- What nobody takes away is still known at the end.
  Holds-frame :
      (R : S → Type 0) (keep : (u v : S) → R u → Grows u v → R v) {A : Type 0} (m : Async S A)
      (P : S → Type 0) (Q : A → S → Type 0)
      → Holds Inv Grows m P Q T
      → Holds Inv Grows m (λ s. P s × R s) (λ a s. Q a s × R s) (λ s. T s × R s)
  unfolding Holds
  Holds-frame R keep (return a) P Q t = λ s i p. (t s i p.0, p.1)
  Holds-frame R keep (throw e) P Q t = λ s i p. (t s i p.0, p.1)
  Holds-frame R keep (await op k) P Q t = (
    λ s i p. t.0 s i p.0,
    λ b.
        Holds-mono Inv Grows (λ s. T s × R s) (k b) (λ s. After Inv Grows P op b s × R s)
          (After Inv Grows (λ s. P s × R s) op b) (λ a s. Q a s × R s) (λ a s. Q a s × R s)
          (λ s' _ h. (
            (h.0, h.1, h.2.0, h.3, h.4),
            keep (op h.0).1 s' (keep h.0 (op h.0).1 h.2.1 (t.0 h.0 h.1 h.2.0).1) h.4,
          ))
          (λ _ _ _ q. q) (Holds-frame R keep (k b) (After Inv Grows P op b) Q (t.1 b)),
  )

  Holds-throws :
      (U : S → Type 0) {A : Type 0} (m : Async S A) (P : S → Type 0) (Q : A → S → Type 0)
      → ((s : S) → T s → U s)
      → Holds Inv Grows m P Q T
      → Holds Inv Grows m P Q U
  unfolding Holds
  Holds-throws U (return a) P Q h t = t
  Holds-throws U (throw e) P Q h t = λ s i p. h s (t s i p)
  Holds-throws U (await op k) P Q h t =
      (t.0, λ b. Holds-throws U (k b) (After Inv Grows P op b) Q h (t.1 b))

  Holds-catch :
      (U : S → Type 0) {A : Type 0} (m : Async S A) (h : Error → Async S A) (P : S → Type 0)
      (Q : A → S → Type 0)
      → Holds Inv Grows m P Q T
      → ((e : Error) → Holds Inv Grows (h e) T Q U)
      → Holds Inv Grows (catch m h) P Q U
  unfolding Holds
  Holds-catch U (return a) h P Q t u = t
  Holds-catch U (throw e) h P Q t u = Holds-mono Inv Grows U (h e) T P Q Q t (λ _ _ _ q. q) (u e)
  Holds-catch U (await op k) h P Q t u =
      (t.0, λ b. Holds-catch U (k b) h (After Inv Grows P op b) Q (t.1 b) u)

module _ {S : Type 0} {Inv : S → Type 0} {Grows : S → S → Type 0} {T : S → Type 0} where
  pub Triple-return :
      {A : Type 0} {P : S → Type 0} {Q : A → S → Type 0} {a : A}
      → ((s : S) → Inv s → P s → Q a s)
      → Triple Inv Grows (return a) P Q T
  unfolding Holds
  Triple-return h = record { holds = h }

  pub Triple-throw :
      {A : Type 0} {P : S → Type 0} {Q : A → S → Type 0} {e : Error}
      → ((s : S) → Inv s → P s → T s)
      → Triple Inv Grows {A = A} (throw e) P Q T
  unfolding Holds
  Triple-throw h = record { holds = h }

  -- One may know more at the start and less at the end.
  pub Triple-mono :
      {A : Type 0} {m : Async S A} {P P' : S → Type 0} {Q Q' : A → S → Type 0}
      → ((s : S) → Inv s → P' s → P s)
      → ((a : A) (s : S) → Inv s → Q a s → Q' a s)
      → Triple Inv Grows m P Q T
      → Triple Inv Grows m P' Q' T
  Triple-mono {m} {P} {P'} {Q} {Q'} hp hq t = record {
    holds = Holds-mono Inv Grows T m P P' Q Q' hp hq t.holds;
  }

  pub Triple-bind :
      {A B : Type 0} (m : Async S A) (f : A → Async S B) {P : S → Type 0} {Q : A → S → Type 0}
      {U : B → S → Type 0}
      → Triple Inv Grows m P Q T
      → ((a : A) → Triple Inv Grows (f a) (Q a) U T)
      → Triple Inv Grows (m >>= f) P U T
  Triple-bind m f {P} {Q} {U} t u = record {
    holds = Holds-bind Inv Grows T m f P Q U t.holds (λ a. (u a).holds);
  }

  -- An operation, by what it leaves known; that must withstand the steps of others.
  pub Triple-await :
      {A B : Type 0} (op : S → B × S) (k : B → Async S A) {P : S → Type 0} (Q : B → S → Type 0)
      {U : A → S → Type 0}
      → ((s : S)
          → Inv s
          → P s
          → Inv (op s).1 × Grows s (op s).1 × ((u : S) → Grows (op s).1 u → Q (op s).0 u))
      → ((b : B) → Triple Inv Grows (k b) (Q b) U T)
      → Triple Inv Grows (await op k) P U T
  unfolding Holds
  Triple-await op k {P} Q {U} h t = record {
    holds = (
      λ s i p. ((h s i p).0, (h s i p).1),
      λ b.
          Holds-mono Inv Grows T (k b) (Q b) (After Inv Grows P op b) U U
            (λ s' _ r. subst (λ c. Q c s') r.3 ((h r.0 r.1 r.2).2 s' r.4)) (λ _ _ _ q. q)
            (t b).holds,
    );
  }

  -- An operation under what nobody takes away.
  pub Triple-step :
      {A B : Type 0} (op : S → B × S) (k : B → Async S A) {P : S → Type 0} {U : A → S → Type 0}
      → ((u v : S) → P u → Grows u v → P v)
      → ((s : S) → Inv s → P s → Inv (op s).1 × Grows s (op s).1)
      → ((b : B) → Triple Inv Grows (k b) P U T)
      → Triple Inv Grows (await op k) P U T
  Triple-step op k {P} keep h t =
      Triple-await op k (λ _. P)
        (λ s i p.
          let (i', g) = h s i p in (i', g, λ u g'. keep (op s).1 u (keep s (op s).1 p g) g'))
        t

  pub from_result-Triple :
      {A B : Type 0} (r : Result A) (f : A → Async S B) {P : S → Type 0} {U : B → S → Type 0}
      → ((s : S) → T s)
      → ((a : A) → r ≡ ok a → Triple Inv Grows (f a) P U T)
      → Triple Inv Grows (from_result r >>= f) P U T
  from_result-Triple (ok a) f t h = h a refl
  from_result-Triple (err e) f t h = Triple-throw (λ s _ _. t s)

  pub Triple-frame :
      {A : Type 0} {m : Async S A} {P : S → Type 0} {Q : A → S → Type 0} (R : S → Type 0)
      → ((u v : S) → R u → Grows u v → R v)
      → Triple Inv Grows m P Q T
      → Triple Inv Grows m (λ s. P s × R s) (λ a s. Q a s × R s) (λ s. T s × R s)
  Triple-frame {m} {P} {Q} R keep t = record {
    holds = Holds-frame Inv Grows T R keep m P Q t.holds;
  }

  pub Triple-throws :
      {A : Type 0} {m : Async S A} {P : S → Type 0} {Q : A → S → Type 0} (U : S → Type 0)
      → ((s : S) → T s → U s)
      → Triple Inv Grows m P Q T
      → Triple Inv Grows m P Q U
  Triple-throws {m} {P} {Q} U h t = record { holds = Holds-throws Inv Grows T U m P Q h t.holds }

  -- What holds where the body throws is where the handler starts.
  pub Triple-catch :
      {A : Type 0} (m : Async S A) (h : Error → Async S A) {P : S → Type 0} {Q : A → S → Type 0}
      {U : S → Type 0}
      → Triple Inv Grows m P Q T
      → ((e : Error) → Triple Inv Grows (h e) T Q U)
      → Triple Inv Grows (catch m h) P Q U
  Triple-catch m h {P} {Q} {U} t u = record {
    holds = Holds-catch Inv Grows T U m h P Q t.holds (λ e. (u e).holds);
  }
