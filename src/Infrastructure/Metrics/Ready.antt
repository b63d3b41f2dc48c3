-- ===== src/Infrastructure/Metrics/Ready.antt =====
-- services/order-service/index.js: MongoDB's readiness as a gauge, and the scrape's answer of
-- src/infrastructure/metrics.js.
use msa_training.Prelude.{ℕ, ◌≡◌, refl, String, Bool, true, false, List, [], ◌∷◌, if◌then◌else◌}
use msa_training.Errors.{Result, ok, err}
use msa_training.Infrastructure.Metrics.{Metrics, set_ready}

-- the events of `mongoose.connection` that are listened to
pub data MongoEvent : Type 0 where
  connected disconnected failed : MongoEvent

unfoldable pub on_mongo : MongoEvent → Metrics → Metrics
on_mongo connected = set_ready "mongodb" true
on_mongo disconnected = set_ready "mongodb" false
on_mongo failed = set_ready "mongodb" false

-- the events in the order that they come in
unfoldable pub on_events : List MongoEvent → Metrics → Metrics
unfolding on_mongo
on_events [] m = m
on_events (e ∷ es) m = on_events es (on_mongo e m)

-- the gauge from the start of the process on
unfoldable pub watch_mongo : List MongoEvent → Metrics → Metrics
unfolding on_events
watch_mongo es m = on_events es (set_ready "mongodb" false m)

-- What the last of the events says.
abbrev pub is_connected : Bool → List MongoEvent → Bool
is_connected before [] = before
is_connected before (connected ∷ es) = is_connected true es
is_connected before (_ ∷ es) = is_connected false es

-- The value that the gauge was set to last.
abbrev pub current : List (String × ℕ) → ℕ
current [] = 0
current ((_, n) ∷ _) = n

on_events-current :
    (es : List MongoEvent) (before : Bool) (m : Metrics)
    → current (on_events es (set_ready "mongodb" before m)).service_dependency_ready
      ≡ (if is_connected before es then 1 else 0)
unfolding on_events on_mongo set_ready
on_events-current [] before m = refl
on_events-current (connected ∷ es) before m =
    on_events-current es true (set_ready "mongodb" before m)
on_events-current (disconnected ∷ es) before m =
    on_events-current es false (set_ready "mongodb" before m)
on_events-current (failed ∷ es) before m = on_events-current es false (set_ready "mongodb" before m)

-- At any time the gauge shows 1 if the last event was a connection, and 0 if it was another one or
-- none has come yet.
pub watch_mongo_lem :
    (es : List MongoEvent) (m : Metrics)
    → current (watch_mongo es m).service_dependency_ready ≡ (if is_connected false es then 1 else 0)
unfolding watch_mongo
watch_mongo_lem es m = on_events-current es false m

-- `handler`: the status and whether the metrics are in the body. What prom-client renders is given.
unfoldable pub handler : Result String → ℕ × Bool
handler (ok _) = (200, true)
handler (err _) = (500, false)
