-- ===== src/Tests/Offerings.antt =====
-- The client's handler of a published offering on samples.
use dappctrl.Base.{◌≡◌, refl, ◌⊎◌, ◌∷◌, [], some, none, find?, length, false}
use dappctrl.Data.{
  Job, RelatedType, Product, ServiceStatus, residential, units, postpaid, eth_log, uint16_value,
  uint8_value, string_value, compute_price, client_after_offering_msg_bc_publish,
}
use dappctrl.Store.{World, answering, monad}
use dappctrl.Handlers.Env.{Worker, OfferMessage, connected}
use dappctrl.Handlers.Select.{event_log, offering_by_hash, find_or}
use dappctrl.Handlers.Events.{extract_log_offering, three_topics, offering_data}
use dappctrl.Handlers.Misc.{template_by_hash}
use dappctrl.Handlers.Fetch.{
  offering_of_message, fill_offering_from_msg, store_offering, retrieve_and_save_offering,
  client_after_offering_msg_bc_publish_job,
}
use dappctrl.Handlers.Fetched.{IsLearned, client_after_offering_msg_bc_publish_job-stores}
use dappctrl.Tests.Samples.{sample_db, sample_product}
use dappctrl.Tests.Handlers.{sample_worker, job_for}

-- Ten units at two each are the least.
abbrev sample_message : OfferMessage
sample_message = record {
  agent_pub_key = 13;
  template_hash = 61;
  country = 3;
  service_supply = 3;
  ip_type = residential;
  unit_name = 4;
  unit_type = units;
  billing_type = postpaid;
  setup_price = 0;
  unit_price = 2;
  min_units = 10;
  max_unit = none;
  billing_interval = 1;
  max_billing_unit_lag = 3;
  max_suspend_time = 60;
  max_inactive_time_sec = 60;
  free_units = 0;
  service_specific_parameters = 5;
}

-- The agent of every offering answers with the sample's message.
abbrev fetching : Worker
fetching = record (sample_worker 50) {
  unpack_values = λ _ _. some (uint16_value 2 ∷ uint8_value 1 ∷ string_value 6 ∷ []);
  somc_client = λ _ _. connected (λ _. none) (λ _. some 88);
  parse_offering = λ _. some sample_message;
}

abbrev client_product : Product
client_product = record sample_product { id = 71; offer_tpl_id = some 60; is_server = false }

abbrev market : World
market = answering (record (sample_db ServiceStatus.active 0 []) {
  products = client_product ∷ [];
  templates = record { id = 60; hash = 61; raw = 62 } ∷ [];
})

abbrev published : Job
published =
    job_for client_after_offering_msg_bc_publish RelatedType.offering 52
      (eth_log (record { block = 9; bytes = []; topics = 1 ∷ 11 ∷ 53 ∷ 20 ∷ []; tx_hash = 3 }))

fetched_one :
    length (client_after_offering_msg_bc_publish_job fetching published market).1.db.offerings ≡ 2
unfolding client_after_offering_msg_bc_publish_job event_log extract_log_offering three_topics
    offering_data retrieve_and_save_offering fill_offering_from_msg offering_by_hash find_or
    template_by_hash store_offering monad find? length compute_price offering_of_message
fetched_one = refl

client_after_offering_msg_bc_publish_job-stores_example :
    ((client_after_offering_msg_bc_publish_job fetching published market).1.db.offerings
      ≡ market.db.offerings)
    ⊎ IsLearned fetching published market.db
        (client_after_offering_msg_bc_publish_job fetching published market).1.db
client_after_offering_msg_bc_publish_job-stores_example =
    client_after_offering_msg_bc_publish_job-stores fetching published market
