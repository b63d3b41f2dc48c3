-- ===== src/Bootstrap/Start.antt =====
-- What the process has started or how it has ended, the name it registers under, and its settings.
use Prim.Native.String.{◌++◌}
use text.Mathlib.TextLemmas.{append_cancel_left, append_cancel_right}
use msa_training.Prelude.{
  ◌≡◌, ◌≢◌, refl, sym, ap, ◌∙◌, String, Bool, true, false, Option, some, List, [], ◌∷◌, ◌==◌,
}
use msa_training.Prelude.Decimal.{decimal}
use msa_training.Infrastructure.Consul.{service_id, or_host}
use msa_training.Bootstrap.{
  Env, Act, exit, connect_mongo, listen, start_reply_consumer, start_outbox_relay,
  start_timeout_sweep, register_service, service_options, my_host,
}

-- What is done once MongoDB has answered, the newest first.
abbrev pub after_connect : Env → Bool → List Act
after_connect e true =
    register_service (service_options e)
    ∷ start_timeout_sweep
    ∷ start_outbox_relay
    ∷ start_reply_consumer
    ∷ listen 8081
    ∷ connect_mongo
    ∷ []
after_connect e false = exit 1 ∷ connect_mongo ∷ []

key_of_id :
    (k k' : String)
    → "order-service" ++ "-" ++ k ++ "-" ++ decimal 8081
      ≡ "order-service" ++ "-" ++ k' ++ "-" ++ decimal 8081
    → k ≡ k'
key_of_id k k' same =
    append_cancel_right k k' ("-" ++ decimal 8081)
      (append_cancel_left "-" _ _ (append_cancel_left "order-service" _ _ same))

key : (o : Option String) (p host : String) → o ≡ some p → (p == "") ≡ false → or_host o host ≡ p
key o p host found some_p = ap (λ x. or_host x host) found ∙ rw some_p refl

key_of_service :
    (e : Env) (p : String)
    → e.pod_name ≡ some p
    → (p == "") ≡ false
    → or_host (service_options e).instance_key (service_options e).host ≡ p
unfolding service_options
key_of_service e p found some_p =
    key (some (or_host e.pod_name (my_host e))) p (my_host e)
      (ap some (key e.pod_name p (my_host e) found some_p)) some_p

-- Two instances whose pods have different names, neither of them empty, are registered under
-- different ids, whatever else their environments hold.
pub service_ids_differ :
    (e e' : Env) (p q : String)
    → e.pod_name ≡ some p
    → e'.pod_name ≡ some q
    → (p == "") ≡ false
    → (q == "") ≡ false
    → p ≢ q
    → service_id (service_options e) ≢ service_id (service_options e')
unfolding service_id service_options
service_ids_differ e e' p q first second some_p some_q differ same =
    differ (
      sym (key_of_service e p first some_p)
      ∙ key_of_id _ _ same
      ∙ key_of_service e' q second some_q)
