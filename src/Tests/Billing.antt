-- ===== src/Tests/Billing.antt =====
-- Billing rounds on samples.
use dappctrl.Base.{◌/◌, ◌≡◌, refl, true, false, none, some, [], any, find?, ◌==◌, ◌*◌}
use dappctrl.Data.{ServiceStatus, client_pre_service_terminate}
use dappctrl.Store.{Db, answering, ok}
use dappctrl.Proc.Channel.{terminate_transitions}
use dappctrl.Proc.Outcome.{conflicting}
use dappctrl.Proc.Exclusive.{Only}
use dappctrl.ClientBill.Queries.{max_deposit_reached}
use dappctrl.ClientBill.Monitor.{Round, process_channel}
use dappctrl.ClientBill.Round.{process_channel-terminates}
use dappctrl.Tests.Samples.{sample_db, sample_channel, sample_config, sample_stamp, sample_offering}

abbrev sample_round : Round
sample_round = record {
  queue = sample_config;
  stamp = sample_stamp;
  now = 1000;
  auto_increase = false;
  percent = 50;
  threshold = λ deposit percent. deposit * percent / 100;
  gas_price = some 3;
}

abbrev billed_db : Db
billed_db = sample_db ServiceStatus.active 12 []

abbrev spent_db : Db
spent_db = sample_db ServiceStatus.active 100 []

offering_found : find? (λ o. o.id == 50) spent_db.offerings ≡ some sample_offering
unfolding find?
offering_found = refl

spent : max_deposit_reached (sample_channel ServiceStatus.active 100) ≡ true
unfolding max_deposit_reached
spent = refl

channel_found :
    find? (λ c. c.id == 40) spent_db.channels ≡ some (sample_channel ServiceStatus.active 100)
unfolding find?
channel_found = refl

may_terminate : terminate_transitions ServiceStatus.active ≡ true
unfolding terminate_transitions
may_terminate = refl

none_under_way : conflicting 40 (some client_pre_service_terminate) spent_db.jobs ≡ false
unfolding any
none_under_way = refl

process_channel-terminates_example :
    ((process_channel sample_round (sample_channel ServiceStatus.active 100) (answering spent_db)).0
      ≡ ok none)
    × Only 40 client_pre_service_terminate 900
        (process_channel sample_round
          (sample_channel ServiceStatus.active 100)
          (answering spent_db)).1.db.jobs
process_channel-terminates_example =
    process_channel-terminates sample_round (sample_channel ServiceStatus.active 100)
      (sample_channel ServiceStatus.active 100) sample_offering spent_db offering_found spent
      channel_found may_terminate none_under_way
