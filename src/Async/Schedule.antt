-- ===== src/Async/Schedule.antt =====
-- Computations side by side. A schedule says whose step comes next, and which one stops for good.
use msa_training.Prelude.{ℕ, zero, suc, List, [], ◌∷◌, refl}
use msa_training.Async.{Async, return, throw, await}
use msa_training.Async.Logic.{Triple, After, Holds}

pub data Pick : Type 0 where
  resume stop : ℕ → Pick

abbrev pub Pool : Type 0 → Type 1
Pool S = List (Async S (Unit {0}))

module _ {S : Type 0} where
  unfoldable pub advance : Async S (Unit {0}) → S → Async S (Unit {0}) × S
  advance (return a) s = (return a, s)
  advance (throw e) s = (throw e, s)
  advance (await op k) s = let (b, s') = op s in (k b, s')

  unfoldable pub resume_at : ℕ → Pool S → S → Pool S × S
  unfolding advance
  resume_at i [] s = ([], s)
  resume_at zero (t ∷ ts) s = let (t', s') = advance t s in (t' ∷ ts, s')
  resume_at (suc i) (t ∷ ts) s = let (ts', s') = resume_at i ts s in (t ∷ ts', s')

  -- Nothing of what was still to do is done.
  unfoldable pub stop_at : ℕ → Pool S → Pool S
  stop_at i [] = []
  stop_at zero (t ∷ ts) = ts
  stop_at (suc i) (t ∷ ts) = t ∷ stop_at i ts

  unfoldable pub exec : List Pick → Pool S → S → Pool S × S
  unfolding resume_at stop_at
  exec [] ts s = (ts, s)
  exec (resume i ∷ ps) ts s = let (ts', s') = resume_at i ts s in exec ps ts' s'
  exec (stop i ∷ ps) ts s = exec ps (stop_at i ts) s

module _ {S : Type 0} (Inv : S → Type 0) (Grows : S → S → Type 0) (grows_refl : (s : S) → Grows s s)
    (grows_trans : (s t u : S) → Grows s t → Grows t u → Grows s u) where
  -- A computation under way: what it knows holds now, and nobody takes it away.
  abbrev Ready : S → Async S (Unit {0}) → Type 1
  Ready s t =
      (P : S → Type 0) × P s
      × ((u v : S) → P u → Grows u v → P v)
      × Triple Inv Grows t P (λ _ _. Unit {0}) (λ _. Unit {0})

  abbrev AllReady : S → Pool S → Type 1
  AllReady s [] = Unit {1}
  AllReady s (t ∷ ts) = Ready s t × AllReady s ts

  Ready-grows : (s u : S) (t : Async S (Unit {0})) → Grows s u → Ready s t → Ready u t
  Ready-grows s u t g h = (h.0, h.2 s u h.1 g, h.2, h.3)

  AllReady-grows : (s u : S) (ts : Pool S) → Grows s u → AllReady s ts → AllReady u ts
  AllReady-grows s u [] g h = tt
  AllReady-grows s u (t ∷ ts) g h = (Ready-grows s u t g h.0, AllReady-grows s u ts g h.1)

  advance-Ready :
      (t : Async S (Unit {0})) (s : S)
      → Inv s
      → Ready s t
      → Inv (advance t s).1 × Grows s (advance t s).1 × Ready (advance t s).1 (advance t s).0
  unfolding advance Holds
  advance-Ready (return a) s i h = (i, grows_refl s, h)
  advance-Ready (throw e) s i h = (i, grows_refl s, h)
  advance-Ready (await op k) s i h =
      let kept = h.3.holds.0 s i h.1 in
      (
        kept.0,
        kept.1,
        (
          After Inv Grows h.0 op (op s).0,
          (s, i, h.1, refl, grows_refl (op s).1),
          λ u v p g. (p.0, p.1, p.2, p.3, grows_trans (op p.0).1 u v p.4 g),
          record { holds = h.3.holds.1 (op s).0 },
        ),
      )

  resume_at-Ready :
      (i : ℕ) (ts : Pool S) (s : S)
      → Inv s
      → AllReady s ts
      → Inv (resume_at i ts s).1
        × Grows s (resume_at i ts s).1
        × AllReady (resume_at i ts s).1 (resume_at i ts s).0
  unfolding resume_at
  resume_at-Ready i [] s inv h = (inv, grows_refl s, tt)
  resume_at-Ready zero (t ∷ ts) s inv h =
      let next = advance-Ready t s inv h.0 in
      (next.0, next.1, (next.2, AllReady-grows s (advance t s).1 ts next.1 h.1))
  resume_at-Ready (suc i) (t ∷ ts) s inv h =
      let rest = resume_at-Ready i ts s inv h.1 in
      (rest.0, rest.1, (Ready-grows s (resume_at i ts s).1 t rest.1 h.0, rest.2))

  stop_at-Ready : (i : ℕ) (ts : Pool S) (s : S) → AllReady s ts → AllReady s (stop_at i ts)
  unfolding stop_at
  stop_at-Ready i [] s h = tt
  stop_at-Ready zero (t ∷ ts) s h = h.1
  stop_at-Ready (suc i) (t ∷ ts) s h = (h.0, stop_at-Ready i ts s h.1)

  exec-Ready :
      (ps : List Pick) (ts : Pool S) (s : S)
      → Inv s
      → AllReady s ts
      → Inv (exec ps ts s).1 × Grows s (exec ps ts s).1
  unfolding exec
  exec-Ready [] ts s inv h = (inv, grows_refl s)
  exec-Ready (resume i ∷ ps) ts s inv h =
      let one = resume_at-Ready i ts s inv h in
      let rest = exec-Ready ps (resume_at i ts s).0 (resume_at i ts s).1 one.0 one.2 in
      (rest.0, grows_trans s (resume_at i ts s).1 _ one.1 rest.1)
  exec-Ready (stop i ∷ ps) ts s inv h = exec-Ready ps (stop_at i ts) s inv (stop_at-Ready i ts s h)

  abbrev Safe : Async S (Unit {0}) → Type 0
  Safe t = Triple Inv Grows t (λ _. Unit {0}) (λ _ _. Unit {0}) (λ _. Unit {0})

  -- Each computation is proved from nothing known.
  abbrev pub AllSafe : Pool S → Type 1
  AllSafe [] = Unit {1}
  AllSafe (t ∷ ts) = Safe t × AllSafe ts

  AllSafe-Ready : (s : S) (ts : Pool S) → AllSafe ts → AllReady s ts
  AllSafe-Ready s [] h = tt
  AllSafe-Ready s (t ∷ ts) h = ((λ _. Unit {0}, tt, λ _ _ _ _. tt, h.0), AllSafe-Ready s ts h.1)

  -- Whatever the order of the steps, and whoever stops: the invariant holds and the state grows.
  pub exec-Safe :
      (ps : List Pick) (ts : Pool S) (s : S)
      → Inv s
      → AllSafe ts
      → Inv (exec ps ts s).1 × Grows s (exec ps ts s).1
  exec-Safe ps ts s inv h = exec-Ready ps ts s inv (AllSafe-Ready s ts h)
