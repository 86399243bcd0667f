-- ===== src/Tests/Agents.antt =====
-- The agent's billing monitor on samples.
use dappctrl.Base.{
  ◌≤◌, inl, ◌+◌, ◌*◌, ◌≡◌, refl, arith, true, none, some, [], ◌∷◌, any, find?, select, ◌==◌,
}
use dappctrl.Data.{Account, ServiceStatus}
use dappctrl.Store.{Db, answering}
use dappctrl.ClientBill.Queries.{sessions_of, sum_units}
use dappctrl.AgentBill.Queries.{is_pending_or_active, is_monitored, used_by}
use dappctrl.AgentBill.Monitor.{Round, verify_units_based_channels}
use dappctrl.AgentBill.UsedUp.{is_terminating, verify_units_based_channels-is_terminating}
use dappctrl.Tests.Samples.{sample_db, sample_channel, sample_config, sample_stamp, sample_offering}

abbrev sample_account : Account
sample_account = record {
  id = 90;
  eth_addr = 11;
  public_key = 0;
  private_key = 0;
  is_default = true;
  in_use = true;
  name = 1;
  ptc_balance = 0;
  psc_balance = 0;
  eth_balance = 0;
  last_balance_check = none;
}

-- Sixty units were used: more than the deposit covers.
abbrev used_db : Db
used_db = record (sample_db ServiceStatus.active 12 []) {
  accounts = sample_account ∷ [];
  sessions =
      record {
        id = 80;
        channel = 40;
        started = 1;
        stopped = none;
        units_used = 60;
        seconds_consumed = 0;
        last_usage_time = 2;
        client_ip = none;
        client_port = none;
      }
      ∷ [];
}

abbrev sample_round : Round
sample_round = record {
  queue = sample_config;
  stamp = λ i n. record sample_stamp { uuid = 900 + n };
  now = 1000;
}

is_found : find? (λ c. c.id == 40) used_db.channels ≡ some (sample_channel ServiceStatus.active 12)
unfolding find?
is_found = refl

is_served : is_pending_or_active ServiceStatus.active ≡ true
unfolding is_pending_or_active
is_served = refl

is_agents : is_monitored used_db (sample_channel ServiceStatus.active 12) ≡ true
unfolding is_monitored any
is_agents = refl

has_offering : find? (λ o. o.id == 50) used_db.offerings ≡ some sample_offering
unfolding find?
has_offering = refl

is_over : 100 ≤ 10 + used_by used_db (sample_channel ServiceStatus.active 12) * 2
unfolding sessions_of sum_units select
is_over = omega arith

verify_units_based_channels-is_terminating_example :
    is_terminating 40 (verify_units_based_channels sample_round (answering used_db)).1.db ≡ true
verify_units_based_channels-is_terminating_example =
    verify_units_based_channels-is_terminating sample_round used_db 40
      (sample_channel ServiceStatus.active 12) sample_offering is_found is_served is_agents
      has_offering refl (inl is_over)
