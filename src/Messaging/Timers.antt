-- ===== src/Messaging/Timers.antt =====
-- The timers of the process, as `setInterval`, `setTimeout` and `clearInterval` keep them: those that
-- are live, by their handle. A handle is never used twice.
use msa_training.Prelude.{
  ℕ, ◌+◌, ◌≡◌, ◌≤◌, length, refl, Option, none, some, List, [], ◌∷◌, nat_eq, if◌then◌else◌, true,
  arith, ap, ◌∙◌,
}

pub record Timers : Type 0 where
  pub live : List ℕ
  pub next : ℕ

abbrev pub remove : ℕ → List ℕ → List ℕ
remove x [] = []
remove x (y ∷ ys) = if nat_eq x y then remove x ys else y ∷ remove x ys

abbrev pub set_timer : Timers → ℕ × Timers
set_timer t = (t.next, record { live = t.next ∷ t.live; next = t.next + 1 })

abbrev pub clear_timer : ℕ → Timers → Timers
clear_timer handle t = record t { live = remove handle t.live }

-- `this._timer`, beside the timers of the process
pub record Held : Type 0 where
  pub timer : Option ℕ
  pub timers : Timers

-- `if (this._timer) return; this._timer = set…`, and its reverse, the same in every worker
abbrev pub hold : Held → Held
hold h = elim h.timer [
  | some _ ↦ h
  | none ↦
      let (handle, timers) = set_timer h.timers in record { timer = some handle; timers = timers }
]

abbrev pub let_go : Held → Held
let_go h = elim h.timer [
  | none ↦ h
  | some handle ↦ record { timer = none; timers = clear_timer handle h.timers }
]

-- The handle that is held, as a list.
abbrev pub handles : Option ℕ → List ℕ
handles none = []
handles (some h) = h ∷ []

-- What is live is what is held.
abbrev pub IsOwned : Held → Type 0
IsOwned h = h.timers.live ≡ handles h.timer

nat_eq_self : (n : ℕ) → nat_eq n n ≡ true
nat_eq_self n = ground arith

pub remove-handle : (h : ℕ) → remove h (h ∷ []) ≡ []
remove-handle h = rw (nat_eq_self h) refl

pub hold-IsOwned : (h : Held) → IsOwned h → IsOwned (hold h)
hold-IsOwned h own = held h.timer h.timers own
  where
    held :
        (timer : Option ℕ) (timers : Timers)
        → timers.live ≡ handles timer
        → IsOwned (hold (record { timer = timer; timers = timers }))
    held none timers own = ap (λ l. timers.next ∷ l) own
    held (some h) timers own = own

pub let_go-IsOwned : (h : Held) → IsOwned h → IsOwned (let_go h)
let_go-IsOwned h own = gone h.timer h.timers own
  where
    gone :
        (timer : Option ℕ) (timers : Timers)
        → timers.live ≡ handles timer
        → IsOwned (let_go (record { timer = timer; timers = timers }))
    gone none timers own = own
    gone (some h) timers own = ap (remove h) own ∙ remove-handle h

pub let_go-none : (h : Held) → (let_go h).timer ≡ none
let_go-none h = gone h.timer h.timers
  where
    gone :
        (timer : Option ℕ) (timers : Timers)
        → (let_go (record { timer = timer; timers = timers })).timer ≡ none
    gone none timers = refl
    gone (some h) timers = refl

-- A worker holds one timer at most.
pub few : (h : Held) → IsOwned h → length h.timers.live ≤ 1
few h own = rw own (one h.timer)
  where
    one : (timer : Option ℕ) → length (handles timer) ≤ 1
    one none = omega arith
    one (some h) = omega arith
