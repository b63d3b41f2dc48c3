-- ===== src/System/Guarantees/Commands.antt =====
-- What the service guarantees of the commands that it gives, however its computations come into one
-- another.
use msa_training.Prelude.{◌≤◌, String, ◌≡◌, ap, some, List, arith}
use msa_training.Async.Schedule.{Pick}
use msa_training.Saga.State.{started, inventory_reserved}
use msa_training.Models.{Saga}
use msa_training.Backend.{Backend, World}
use msa_training.Saga.Orchestrator.{Config}
use msa_training.Messaging.OutboxRelay.{RelayConfig}
use msa_training.System.Commands.{is_charge, is_earn, tally, charge_limit, earn_limit}
use msa_training.System.Invariant.{Inv}
use msa_training.System.Requests.{Request, serve, serve-Inv}

module _ (b : Backend) (c : Config) (rc : RelayConfig) (rs : List Request) (ps : List Pick)
    (w : World b) (i : Inv b w) where
  -- From a state that meets the invariant `Inv`, whatever comes, the outbox of a stored saga holds at
  -- most one command to charge the payment and at most one to earn the points; a saga in STARTED has
  -- neither, and one in INVENTORY_RESERVED none to earn.
  pub charged_once :
      (id : String) (g : Saga)
      → b.sagas.find_one id (serve b c rc rs ps w).sagas ≡ some g
      → (tally is_charge g.outbox ≤ 1)
        × (tally is_earn g.outbox ≤ 1)
        × (g.state ≡ started → (tally is_charge g.outbox ≡ 0) × (tally is_earn g.outbox ≡ 0))
        × (g.state ≡ inventory_reserved → tally is_earn g.outbox ≡ 0)
  charged_once id g e =
      let (charges, earns) = ((serve-Inv b c rc rs ps w i).0.sagas id g e).asked in
      (
        ground arith,
        ground arith,
        λ h. (omega (arith, ap charge_limit h), omega (arith, ap earn_limit h)),
        λ h. omega (arith, ap earn_limit h),
      )
