-- ===== src/Infrastructure/Metrics.antt =====
-- services/order-service/src/infrastructure/metrics.js. A counter, a histogram and a gauge of
-- prom-client are the lists of what was handed to them, the newest first; a duration is kept in
-- nanoseconds, before its division into seconds.
pub mod Once
pub mod Ready
use Prim.Native.String.{◌++◌}
use msa_training.Prelude.{
  ℕ, ◌-◌, String, Bool, true, false, Option, none, some, List, [], ◌∷◌, ◌==◌, if◌then◌else◌,
}
use msa_training.Prelude.Decimal.{decimal}

-- what the middleware reads of a request; `route_path` is there once the router has matched
pub record Request : Type 0 where
  pub method : String
  pub path : String
  pub base_url : Option String
  pub route_path : Option String

pub record Outcome : Type 0 where
  pub status_code : ℕ
  pub writable_ended : Bool

pub record Labels : Type 0 where
  pub method : String
  pub route : String
  pub status_code : String

pub record Duration : Type 0 where
  pub method : String
  pub route : String
  pub ns : ℕ

pub record Metrics : Type 0 where
  pub http_requests_total : List Labels
  pub http_request_duration : List Duration
  pub service_dependency_ready : List (String × ℕ)

abbrev pub or_empty : Option String → String
or_empty none = ""
or_empty (some s) = s

unfoldable pub resolve_route_label : Request → String
resolve_route_label r = elim r.route_path [
  | none ↦ "unmatched"
  | some path ↦ if path == "" then "unmatched" else or_empty r.base_url ++ path
]

unfoldable pub status_label : Outcome → String
status_label o = if o.writable_ended then decimal o.status_code else "0"

-- `recorded`, with the time at which the request came
pub record Recorder : Type 0 where
  pub start_ns : ℕ
  pub recorded : Bool

-- the end of a response, `finish` or `close`: the request and the response as they are then
pub record End : Type 0 where
  pub request : Request
  pub outcome : Outcome
  pub now_ns : ℕ

unfoldable pub record_outcome : End → Recorder × Metrics → Recorder × Metrics
unfolding resolve_route_label status_label
record_outcome e (r, m) = if r.recorded then (r, m) else (
  record r { recorded = true },
  record m {
    http_requests_total =
        record {
          method = e.request.method;
          route = resolve_route_label e.request;
          status_code = status_label e.outcome;
        }
        ∷ m.http_requests_total;
    http_request_duration =
        record {
          method = e.request.method;
          route = resolve_route_label e.request;
          ns = e.now_ns - r.start_ns;
        }
        ∷ m.http_request_duration;
  },
)

-- what the middleware leaves behind: listeners, or nothing for a scrape
unfoldable pub middleware : (metrics_path : String) → Request → (now_ns : ℕ) → Option Recorder
middleware metrics_path r now_ns =
    if r.path == metrics_path then none else some (record { start_ns = now_ns; recorded = false })

-- one end event, heard if there are listeners
unfoldable pub on_end : End → Option Recorder × Metrics → Option Recorder × Metrics
unfolding record_outcome
on_end e (none, m) = (none, m)
on_end e (some r, m) = let (r', m') = record_outcome e (r, m) in (some r', m')

unfoldable pub set_ready : String → Bool → Metrics → Metrics
set_ready name ready m = record m {
  service_dependency_ready = (name, if ready then 1 else 0) ∷ m.service_dependency_ready;
}
