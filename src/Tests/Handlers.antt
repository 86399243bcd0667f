-- ===== src/Tests/Handlers.antt =====
-- The handlers on samples.
use dappctrl.Base.{ℕ, ◌≡◌, refl, true, none, some, [], ◌∷◌, All, arith}
use dappctrl.Data.{
  Account, Channel, ServiceStatus, terminated, Job, JobType, JobStatus, JobCreator, RelatedType,
  Payload, create, eth_log, uint64_value, agent_after_channel_create, agent_pre_service_suspend,
  client_pre_uncooperative_close_request, pre_account_add_balance, client_pre_channel_create,
  decrement_current_supply, empty_object, publish,
}
use dappctrl.Data.Error.{worker}
use dappctrl.Data.WorkerError.{invalid_job}
use dappctrl.Store.{World, answering, err}
use dappctrl.Job.Add.{new_job}
use dappctrl.Proc.Channel.{transition_job}
use dappctrl.Handlers.Env.{unknown_type, Worker, GasConf, Backend}
use dappctrl.Handlers.Client.{
  client_pre_channel_create_job, client_pre_uncooperative_close_request_job,
}
use dappctrl.Handlers.Supply.{decrement_current_supply_job, increment_current_supply_job}
use dappctrl.Handlers.Sends.{SentBy}
use dappctrl.Handlers.Closing.{IsCloseRequest, client_pre_uncooperative_close_request_job-requests}
use dappctrl.Handlers.Opening.{IsOpening, client_pre_channel_create_job-opens}
use dappctrl.Handlers.Table.{handler_of}
use dappctrl.Handlers.Dispatch.{handler_of-invalid}
use dappctrl.Handlers.Counted.{IsWithin, IsHonest, supply_jobs-IsWithin}
use dappctrl.Tests.Samples.{sample_config, sample_stamp, sample_db, sample_job}

abbrev pub sample_account : Account
sample_account = record {
  id = 15;
  eth_addr = 12;
  public_key = 13;
  private_key = 14;
  is_default = true;
  in_use = true;
  name = 1;
  ptc_balance = 0;
  psc_balance = 0;
  eth_balance = 0;
  last_balance_check = none;
}

-- Everything costs one.
abbrev gas : GasConf
gas = record {
  approve = 1;
  add_balance = 1;
  register_service_offering = 1;
  create_channel = 1;
  cooperative_close = 1;
  return_balance = 1;
  uncooperative_close = 1;
  top_up = 1;
  popup_service_offering = 1;
  remove_service_offering = 1;
}

-- A node that answers, where every account has a hundred of each kind.
abbrev node : Backend
node = record {
  latest_block_number = some 100;
  suggest_gas_price = some 1;
  eth_balance_at = λ _. some 100;
  ptc_balance_of = λ _. some 100;
  psc_balance_of = λ _. some 100;
  ptc_allowance = λ _ _. some 5;
  psc_get_offering_info = λ _. some (record {
    min_deposit = 20;
    max_supply = 3;
    current_supply = 2;
    update_block = 1;
    is_active = true;
  });
  psc_get_channel_info = λ _ _ _ _. some 90;
  transaction_sender = λ _. some (12, 13);
  transaction_pending = λ _. some true;
  transact = λ s. some (record { hash = 77; nonce = 1; gas_price = 1; gas = 1; json = some 78 });
}

-- Texts and the values that they stand for have the same numbers; every log has a deposit.
abbrev pub sample_worker : ℕ → Worker
sample_worker deposit = record {
  queue = sample_config;
  stamp = λ _. sample_stamp;
  now = 10;
  new_id = 901;
  psc_addr = 99;
  tor_host_name = some 5;
  gas_conf = gas;
  backend = node;
  unpack_values = λ _ _. some (uint64_value deposit ∷ []);
  to_address = λ a. some a;
  of_address = λ a. a;
  to_hash = λ a. some a;
  of_hash = λ a. a;
  of_amount = λ a. a;
  to_bytes = λ a. some a;
  parse_uint = λ a. some a;
  get_key = λ acc. some acc.private_key;
  key_address = λ k. k;
  has_two_bytes = λ _. true;
  undefined_country = 0;
  message_agent = λ _. some (11, 13);
  initial_rate = λ _. 0;
  somc_client = λ _ _. unknown_type;
  channel_key = λ _ _ _ _. none;
  client_open = λ _ _ _. none;
  parse_endpoint = λ _. none;
  is_valid_json = λ _ _. true;
  keccak_hash = λ a. a;
  parse_offering = λ _. none;
  is_signed_by = λ _ _. true;
  is_valid_offer = λ _ _. true;
  of_bytes = λ a. a;
  country_at = λ _. none;
  endpoint_message = λ _. none;
  agent_seal = λ _ _ _. none;
  keccak = λ a. a;
  salt = some 5;
  hash_password = λ _ _. some 6;
  sign_closing = λ _ _ _ _ _. some 7;
}

abbrev pub job_for : JobType → RelatedType → ℕ → Payload → Job
job_for ty rel id p = record (sample_job JobStatus.active ty) {
  related_type = rel;
  related_id = id;
  payload = p;
}

-- The service is over, and the receipt is for thirty of a hundred.
abbrev over_db : World
over_db = answering (record (sample_db terminated 30 []) { accounts = sample_account ∷ [] })

client_pre_uncooperative_close_request_job-requests_example :
    let j = job_for client_pre_uncooperative_close_request RelatedType.channel 40 (publish 1) in
    SentBy over_db
      (client_pre_uncooperative_close_request_job (sample_worker 50) j over_db).1
      (IsCloseRequest (sample_worker 50) j over_db.db)
client_pre_uncooperative_close_request_job-requests_example =
    client_pre_uncooperative_close_request_job-requests (sample_worker 50)
      (job_for client_pre_uncooperative_close_request RelatedType.channel 40 (publish 1)) over_db

client_pre_channel_create_job-opens_example :
    let j = job_for client_pre_channel_create RelatedType.channel 41 (create 15 50 1 60) in
    SentBy over_db
      (client_pre_channel_create_job (sample_worker 50) j over_db).1
      (IsOpening (sample_worker 50) j over_db.db)
client_pre_channel_create_job-opens_example =
    client_pre_channel_create_job-opens (sample_worker 50)
      (job_for client_pre_channel_create RelatedType.channel 41 (create 15 50 1 60)) over_db

-- Two of three channels of the offering are left, in the table and by the node.
offerings-IsWithin : All IsWithin over_db.db.offerings
offerings-IsWithin = ((omega arith, omega arith), tt)

offerings-IsHonest : All (IsHonest (sample_worker 50)) over_db.db.offerings
offerings-IsHonest = ((λ hash info e f. ground arith), tt)

supply_jobs-IsWithin_example :
    let j = job_for decrement_current_supply RelatedType.offering 50 empty_object in
    All IsWithin (decrement_current_supply_job (sample_worker 50) j over_db).1.db.offerings
    × All IsWithin (increment_current_supply_job (sample_worker 50) j over_db).1.db.offerings
supply_jobs-IsWithin_example =
    supply_jobs-IsWithin (sample_worker 50)
      (job_for decrement_current_supply RelatedType.offering 50 empty_object) over_db
      offerings-IsWithin offerings-IsHonest

-- A log of a channel for the sample's offering.
abbrev created_log : Job
created_log =
    job_for agent_after_channel_create RelatedType.channel 41
      (eth_log (record { block = 8; bytes = []; topics = 1 ∷ 11 ∷ 12 ∷ 51 ∷ []; tx_hash = 3 }))

-- The deposit is below the price of the minimum.
-- The sample's service is active, and its suspension is asked for and carried out.
abbrev active_db : World
active_db = answering (sample_db ServiceStatus.active 0 [])

abbrev suspension : Job
suspension = record (transition_job 40 JobCreator.user agent_pre_service_suspend) {
  id = 900;
  created_at = 501;
}

handler_of-invalid_example :
    handler_of (sample_worker 50) pre_account_add_balance suspension active_db
    ≡ (err (worker invalid_job), active_db)
unfolding transition_job new_job
handler_of-invalid_example =
    handler_of-invalid (sample_worker 50) suspension active_db pre_account_add_balance
      RelatedType.account refl refl
