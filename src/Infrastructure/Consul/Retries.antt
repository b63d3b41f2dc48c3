-- ===== src/Infrastructure/Consul/Retries.antt =====
-- How often and how long `register` tries.
use msa_training.Prelude.{
  ℕ, zero, suc, ◌+◌, ◌*◌, ◌≤◌, ◌<◌, ◌≡◌, refl, sym, ap, ◌∙◌, inl, inr, Bool, true, false, List, [],
  ◌∷◌, length, ltb, if◌then◌else◌, Bool-cases, arith,
}
use Prim.Native.String.{◌++◌}
use msa_training.Errors.{ok}
use msa_training.Async.{run}
use msa_training.Driver.{verdict}
use msa_training.Driver.Run.{run-attempt-ask}
use msa_training.Infrastructure.Consul.{
  Call, put_registration, sleep, Options, service_id, registration, register, register_from,
  try_again, backoff,
}

-- How many registrations were sent, and how long was waited.
abbrev pub puts : List Call → ℕ
puts [] = 0
puts (put_registration _ _ ∷ cs) = suc (puts cs)
puts (_ ∷ cs) = puts cs

abbrev pub waited : List Call → ℕ
waited [] = 0
waited (sleep ms ∷ cs) = ms + waited cs
waited (_ ∷ cs) = waited cs

-- The waits of the attempts from the `n`th on.
abbrev budget : ℕ → ℕ → ℕ
budget zero n = 0
budget (suc left) n = (if ltb n 5 then backoff n else 0) + budget left (n + 1)

module _ (granted : ℕ → Bool) (o : Options) where
  abbrev put : Call
  put = put_registration (o.consul_url ++ "/v1/agent/service/register") (registration o)

  turn :
      (left n : ℕ) (log : List Call) (answer : Bool)
      → granted (length log) ≡ answer
      → run (register_from granted (suc left) n o) log
        ≡ run
            (try_again n (register_from granted left (n + 1) o) (verdict answer) (service_id o))
            (put ∷ log)
  unfolding register_from
  turn left n log answer e = rw (sym e) (
      run-attempt-ask granted put log
        (λ r. try_again n (register_from granted left (n + 1) o) r (service_id o)))

  -- The loop from its `n`th attempt on, when `k` attempts are refused and the next granted.
  loop :
      (left n k : ℕ) (log : List Call)
      → n + left ≡ 6
      → k < left
      → ((j : ℕ) → j < k → granted (length log + 2 * j) ≡ false)
      → granted (length log + 2 * k) ≡ true
      → (run (register_from granted left n o) log).0 ≡ ok (service_id o)
        × puts (run (register_from granted left n o) log).1 ≡ puts log + k + 1
  unfolding try_again run
  loop zero n k log e h refused last = absurd (omega (arith, e, h))
  loop (suc left) n zero log e h refused last =
      let now : granted (length log) ≡ true = ap granted (omega arith) ∙ last in
      rw (turn left n log true now) (refl, omega arith)
  loop (suc left) n (suc k) log e h refused last =
      let now : granted (length log) ≡ false = ap granted (omega arith) ∙ refused 0 (omega arith) in
      let early : ltb n 5 ≡ true = ground (arith, e, h) in
      let (same, count) =
        loop left (n + 1) k (sleep (backoff n) ∷ put ∷ log) (omega (arith, e)) (omega (arith, h))
          (λ j small. ap granted (omega arith) ∙ refused (suc j) (omega (arith, small)))
          (ap granted (omega arith) ∙ last) in
      rw (turn left n log false now) (rw early (same, omega (arith, count)))

  -- The loop's end and its bounds, whatever is refused.
  bounds :
      (left n : ℕ) (log : List Call)
      → (run (register_from granted left n o) log).0 ≡ ok (service_id o)
        × puts (run (register_from granted left n o) log).1 ≤ puts log + left
        × waited (run (register_from granted left n o) log).1 ≤ waited log + budget left n
  unfolding try_again register_from run
  bounds zero n log = (refl, omega arith, omega arith)
  bounds (suc left) n log = elim (Bool-cases (granted (length log))) [
    | inl now ↦ rw (turn left n log true now) (refl, omega arith, omega arith)
    | inr now ↦ rw (turn left n log false now) (elim (Bool-cases (ltb n 5)) [
      | inl early ↦
          let (same, count, time) = bounds left (n + 1) (sleep (backoff n) ∷ put ∷ log) in
          rw early (same, omega (arith, count), omega (arith, time))
      | inr late ↦
          let (same, count, time) = bounds left (n + 1) (put ∷ log) in
          rw late (same, omega (arith, count), omega (arith, time))
    ])
  ]

  -- When the first attempts of `register`, fewer than five, are refused and the next one is granted,
  -- as many registrations are sent as were needed, and it returns the service id.
  pub register-attempts :
      (k : ℕ)
      → k < 5
      → ((j : ℕ) → j < k → granted (2 * j) ≡ false)
      → granted (2 * k) ≡ true
      → (run (register granted o) []).0 ≡ ok (service_id o)
        × puts (run (register granted o) []).1 ≡ k + 1
  unfolding register
  register-attempts k few refused last =
      let (same, count) =
        loop 5 1 k [] refl few (λ j small. ap granted (omega arith) ∙ refused j small)
          (ap granted (omega arith) ∙ last) in
      (same, count ∙ omega arith)

  -- Whatever Consul refuses, `register` returns the service id, after at most five registrations and
  -- waits of at most a second and a half in all.
  register-bounds :
      (run (register granted o) []).0 ≡ ok (service_id o)
      × puts (run (register granted o) []).1 ≤ 5
      × waited (run (register granted o) []).1 ≤ 1500
  unfolding register backoff
  register-bounds = bounds 5 1 []
