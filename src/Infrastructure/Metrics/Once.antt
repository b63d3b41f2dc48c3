-- ===== src/Infrastructure/Metrics/Once.antt =====
-- A request is counted once, however its response ends.
use msa_training.Prelude.{
  ℕ, ◌-◌, ◌≡◌, refl, String, true, Option, none, some, List, [], ◌∷◌, ◌==◌, if◌then◌else◌,
  Bool-cases, inl, inr,
}
use msa_training.Infrastructure.Metrics.{
  Request, Metrics, Recorder, End, record_outcome, middleware, on_end, resolve_route_label,
  status_label,
}

-- The end events of one request, the oldest first.
abbrev pub ends : List End → Option Recorder × Metrics → Option Recorder × Metrics
ends [] s = s
ends (e ∷ es) s = ends es (on_end e s)

-- What one event adds, written out.
abbrev pub counted : ℕ → End → Metrics → Metrics
counted start_ns e m = record m {
  http_requests_total =
      record {
        method = e.request.method;
        route = resolve_route_label e.request;
        status_code = status_label e.outcome;
      }
      ∷ m.http_requests_total;
  http_request_duration =
      record {
        method = e.request.method;
        route = resolve_route_label e.request;
        ns = e.now_ns - start_ns;
      }
      ∷ m.http_request_duration;
}

deaf : (es : List End) (m : Metrics) → (ends es (none, m)).1 ≡ m
unfolding on_end
deaf [] m = refl
deaf (e ∷ es) m = deaf es m

done :
    (es : List End) (start : ℕ) (m : Metrics)
    → (ends es (some (record { start_ns = start; recorded = true }), m)).1 ≡ m
unfolding on_end record_outcome
done [] start m = refl
done (e ∷ es) start m = done es start m

-- Whatever events end a request's response, it is counted and timed once, by the first of them, under
-- its method, the label of its route and its status, unless it is a scrape, which is not counted.
pub ends-once :
    (metrics_path : String) (r : Request) (start : ℕ) (e : End) (es : List End) (m : Metrics)
    → (ends (e ∷ es) (middleware metrics_path r start, m)).1
      ≡ (if r.path == metrics_path then m else counted start e m)
unfolding middleware on_end record_outcome
ends-once metrics_path r start e es m = elim (Bool-cases (r.path == metrics_path)) [
  | inl scrape ↦ rw scrape (deaf es m)
  | inr other ↦ rw other (done es start (counted start e m))
]
