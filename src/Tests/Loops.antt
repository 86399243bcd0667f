-- ===== src/Tests/Loops.antt =====
-- The looper on samples.
use dappctrl.Base.{◌∷◌, [], some, List, true}
use dappctrl.Data.{Offering, Job, registered, ServiceStatus, offering_auto_pop_up, read_write}
use dappctrl.Store.{World, answering}
use dappctrl.Loop.PopUp.{Looper, pop_up_job}
use dappctrl.Tests.Samples.{sample_config, sample_stamp, sample_db, sample_offering}
use dappctrl.Tests.Handlers.{sample_worker, sample_account}

abbrev sample_looper : Looper
sample_looper = record {
  queue = sample_config;
  stamp = λ _. sample_stamp;
  now = 10;
  backend = (sample_worker 50).backend;
  popup_gas = some 7;
  to_address = λ a. some a;
  to_hash = λ a. some a;
  parse_bool = λ _. some true;
}

abbrev offered : Offering
offered = record sample_offering { status = registered; agent = 12; auto_pop_up = some true }

abbrev shop : World
shop = answering (record (sample_db ServiceStatus.active 0 []) {
  accounts = sample_account ∷ [];
  offerings = offered ∷ [];
  settings = record { key = offering_auto_pop_up; value = 1; permissions = read_write } ∷ [];
})

-- The offering was updated in block one, so it may be popped up at once after block eleven.
abbrev one_job : List Job
one_job =
    pop_up_job sample_looper 10 1 100 offered (record {
      min_deposit = 20;
      max_supply = 3;
      current_supply = 2;
      update_block = 1;
      is_active = true;
    })
    ∷ []
