-- ===== src/Messaging/Connection.antt =====
-- src/infrastructure/messaging/RabbitMQConnection.js: the cached connection and channel, as they go
-- through the events of the process. A connection is known by a number.
pub mod Single
use msa_training.Prelude.{
  ℕ, ◌+◌, ◌≡◌, Bool, true, false, Option, none, some, List, ◌∷◌, ◌++◌, if◌then◌else◌,
}

-- What a call of `_connect` that has not ended waits for: `connect`, or `createChannel` on the
-- connection that it has made.
pub data Attempt : Type 0 where
  dialing : Attempt
  opening : (connection : ℕ) → Attempt

-- `_connection`, `_channel` (by its connection), whether `_connecting` is set, the calls of `_connect`
-- that have not ended, and the number of the next connection
pub record Connection : Type 0 where
  pub connection : Option ℕ
  pub channel : Option ℕ
  pub connecting : Bool
  pub attempts : List Attempt
  pub next : ℕ

-- `getChannel` up to its first `await`: the cached channel, or none when the caller waits
unfoldable pub get_channel : Connection → Option ℕ × Connection
get_channel c = elim c.channel [
  | some ch ↦ (some ch, c)
  | none ↦
      if c.connecting
      then (none, c)
      else (none, record c { connecting = true; attempts = dialing ∷ c.attempts })
]

-- `connect` has succeeded, in one of the calls of `_connect`
unfoldable pub connected : List Attempt → List Attempt → Connection → Connection
connected before after c = record c {
  attempts = before ++ opening c.next ∷ after;
  next = c.next + 1;
}

-- `createChannel` has succeeded, and `getChannel` ends
unfoldable pub opened : List Attempt → ℕ → List Attempt → Connection → Connection
opened before n after c = record c {
  connection = some n;
  channel = some n;
  connecting = false;
  attempts = before ++ after;
}

-- one of the two has failed, and `getChannel` throws
unfoldable pub failed : List Attempt → List Attempt → Connection → Connection
failed before after c = record c { connecting = false; attempts = before ++ after }

-- `reset`, on the `close` of any connection
unfoldable pub reset : Connection → Connection
reset c = record c { connection = none; channel = none }

-- `close`, which forgets both whatever closing them ends in
unfoldable pub close : Connection → Connection
close c = record c { connection = none; channel = none }

-- What may happen to the shared connection.
pub data Step : Connection → Connection → Type 0 where
  asks : (c : Connection) → Step c (get_channel c).1
  connects :
      (c : Connection) (before after : List Attempt)
      → c.attempts ≡ before ++ dialing ∷ after
      → Step c (connected before after c)
  opens :
      (c : Connection) (before : List Attempt) (n : ℕ) (after : List Attempt)
      → c.attempts ≡ before ++ opening n ∷ after
      → Step c (opened before n after c)
  fails :
      (c : Connection) (before : List Attempt) (a : Attempt) (after : List Attempt)
      → c.attempts ≡ before ++ a ∷ after
      → Step c (failed before after c)
  is_reset : (c : Connection) → Step c (reset c)
  closes : (c : Connection) → Step c (close c)

pub data Steps : Connection → Connection → Type 0 where
  here : (c : Connection) → Steps c c
  next_step : (a b c : Connection) → Steps a b → Step b c → Steps a c
