-- ===== src/Operations/Same.antt =====
-- Two states of the service in which every document is the same.
use msa_training.Prelude.{String, ◌≡◌, refl, ◌∙◌}
use msa_training.Backend.{Backend, World}

-- The same documents under every key, the same broker and the same error lines; only the number of
-- uuids drawn may differ.
pub record Same (b : Backend) (w w' : World b) : Type 0 where
  pub sagas : (j : String) → b.sagas.find_one j w'.sagas ≡ b.sagas.find_one j w.sagas
  pub orders : (j : String) → b.orders.find_one j w'.orders ≡ b.orders.find_one j w.orders
  pub inventory :
      (j : String) → b.inventory.find_one j w'.inventory ≡ b.inventory.find_one j w.inventory
  pub clock : w'.clock ≡ w.clock
  pub broker : w'.broker ≡ w.broker
  pub alerts : w'.alerts ≡ w.alerts

module _ (b : Backend) where
  pub Same-refl : (w : World b) → Same b w w
  Same-refl w = record {
    sagas = λ _. refl;
    orders = λ _. refl;
    inventory = λ _. refl;
    clock = refl;
    broker = refl;
    alerts = refl;
  }

  pub Same-trans : (u v w : World b) → Same b u v → Same b v w → Same b u w
  Same-trans u v w p q = record {
    sagas = λ j. q.sagas j ∙ p.sagas j;
    orders = λ j. q.orders j ∙ p.orders j;
    inventory = λ j. q.inventory j ∙ p.inventory j;
    clock = q.clock ∙ p.clock;
    broker = q.broker ∙ p.broker;
    alerts = q.alerts ∙ p.alerts;
  }
