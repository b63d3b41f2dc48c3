-- ===== src/Infrastructure/Consul/Shutdown.antt =====
-- What SIGTERM makes the service do.
use Prim.Native.String.{◌++◌}
use msa_training.Prelude.{ℕ, ◌≡◌, ◌∙◌, String, Bool, true, false, List, [], ◌∷◌, if◌then◌else◌}
use msa_training.Errors.{ok}
use msa_training.Async.{run, ◌>>◌}
use msa_training.Driver.{note}
use msa_training.Driver.Run.{run-catch-ask}
use msa_training.Infrastructure.Consul.{
  Call, put_deregistration, clean_up, exit, deregister, shut_down,
}

-- The calls of a shutdown, the newest first.
abbrev pub farewell : Bool → String → String → List Call
farewell on_shutdown consul_url id =
    exit 0
    ∷ put_deregistration (consul_url ++ "/v1/agent/service/deregister/" ++ id)
    ∷ (if on_shutdown then clean_up ∷ [] else [])

module _ (granted : ℕ → Bool) where
  leave :
      (consul_url id : String) (log : List Call)
      → run (deregister granted consul_url id >> note (exit 0)) log ≡ (
        ok tt,
        exit 0 ∷ put_deregistration (consul_url ++ "/v1/agent/service/deregister/" ++ id) ∷ log,
      )
  unfolding deregister run
  leave consul_url id log =
      run-catch-ask granted
        (put_deregistration (consul_url ++ "/v1/agent/service/deregister/" ++ id)) log
        (note (exit 0))

  -- Whatever is refused, and whether or not the clean-up throws, a shutdown runs the clean-up that it
  -- was given, then sends one deregistration, and ends the process last, with code 0.
  pub shut_down-exits :
      (on_shutdown : Bool) (consul_url id : String)
      → run (shut_down granted on_shutdown consul_url id) []
        ≡ (ok tt, farewell on_shutdown consul_url id)
  unfolding shut_down
  shut_down-exits true consul_url id =
      run-catch-ask granted clean_up [] (deregister granted consul_url id >> note (exit 0))
      ∙ leave consul_url id (clean_up ∷ [])
  shut_down-exits false consul_url id = leave consul_url id []
