-- ===== src/Tests/Samples.antt =====
-- Sample rows: a channel of one offering, with its client, its sessions and a job.
use dappctrl.Base.{ℕ, true, false, none, List, [], ◌∷◌}
use dappctrl.Data.{
  User, Product, incremental, by_channel_id, Offering, registered, residential, units, postpaid,
  Channel, ChannelStatus, ServiceStatus, Session, Job, JobType, JobStatus, JobCreator, RelatedType,
  empty_object,
}
use dappctrl.Store.{Db}
use dappctrl.Job.Config.{Config, TypeConfig}
use dappctrl.Job.Add.{Stamp}

abbrev pub sample_offering : Offering
sample_offering = record {
  id = 50;
  is_local = true;
  ip_type = residential;
  template = 60;
  product = 70;
  hash = 51;
  status = registered;
  block_number_updated = 1;
  agent = 11;
  raw_msg = 0;
  service_name = 1;
  description = none;
  country = 1;
  supply = 3;
  current_supply = 2;
  unit_name = 1;
  unit_type = units;
  billing_type = postpaid;
  setup_price = 10;
  unit_price = 2;
  min_units = 5;
  max_unit = none;
  billing_interval = 3;
  max_billing_unit_lag = 6;
  max_suspend_time = 100;
  max_inactive_time_sec = 1000;
  free_units = 0;
  additional_params = 0;
  auto_pop_up = none;
  somc_type = 0;
  somc_data = 0;
  somc_success_ping = none;
}

abbrev pub sample_channel : ServiceStatus → ℕ → Channel
sample_channel s receipt = record {
  id = 40;
  agent = 11;
  client = 12;
  offering = 50;
  block = 7;
  channel_status = ChannelStatus.active;
  service_status = s;
  service_changed_time = none;
  prepared_at = 0;
  total_deposit = 100;
  salt = 5;
  username = none;
  password = 6;
  receipt_balance = receipt;
  receipt_signature = none;
}

abbrev pub sample_session : Session
sample_session = record {
  id = 80;
  channel = 40;
  started = 1;
  stopped = none;
  units_used = 9;
  seconds_consumed = 0;
  last_usage_time = 2;
  client_ip = none;
  client_port = none;
}

abbrev pub sample_user : User
sample_user = record { id = 20; eth_addr = 12; public_key = 13 }

abbrev pub sample_product : Product
sample_product = record {
  id = 70;
  name = 1;
  offer_tpl_id = none;
  offer_access_id = none;
  usage_rep_type = incremental;
  is_server = true;
  salt = 5;
  password = 71;
  client_ident = by_channel_id;
  config = 0;
  service_endpoint_address = none;
  country = none;
}

-- A job of the channel.
abbrev pub sample_job : JobStatus → JobType → Job
sample_job st ty = record {
  id = 30;
  type = ty;
  status = st;
  related_type = RelatedType.channel;
  related_id = 40;
  created_at = 1;
  not_before = 0;
  created_by = JobCreator.user;
  try_count = 0;
  payload = empty_object;
}

abbrev pub sample_db : ServiceStatus → ℕ → List Job → Db
sample_db s receipt js = record {
  accounts = [];
  users = sample_user ∷ [];
  products = sample_product ∷ [];
  offerings = sample_offering ∷ [];
  channels = sample_channel s receipt ∷ [];
  sessions = sample_session ∷ [];
  endpoints = [];
  jobs = js;
  eth_txs = [];
  templates = [];
  settings = [];
  closings = [];
  ratings = [];
}

-- Three attempts a second apart, and no duplicates.
abbrev pub three_tries : TypeConfig
three_tries = record { try_limit = 3; try_period = 1000; duplicated = false; first_start_delay = 0 }

abbrev pub sample_config : Config
sample_config = record {
  collect_jobs = 10;
  collect_period = 1000;
  worker_buf_len = 10;
  workers = 2;
  default_type = three_tries;
  types = λ _. none;
}

abbrev pub sample_stamp : Stamp
sample_stamp = record { uuid = 900; delayed_from = 500; created_at = 501 }
