-- ===== src/Handlers/Offering.antt =====
-- proc/worker/agent.go: the agent's offerings and the endpoint of a channel.
use dappctrl.Base.{
  ℕ, ◌+◌, ◌*◌, ◌%◌, ◌^◌, Bool, true, false, not, ◌&&◌, ◌||◌, Option, none, some, ◌∷◌, any, ◌==◌,
  ltb, leb, if◌then◌else◌, find?,
}
use dappctrl.Data.{
  Uuid, Text, Base64String, Offering, OfferStatus, registered, registering, popped_up, popping_up,
  removed, removing, prepaid, postpaid, BillingType, Channel, suspending, activating, Endpoint,
  Hash, register_service_offering, remove_service_offering, popup_service_offering,
  register_offering_tx, remove_offering_tx, popup_offering_tx, SettingKey, period_remove,
  period_pop_up, Job, JobStatus, job_status_eq, job_type_eq, agent_pre_endpoint_msg_create,
  agent_pre_offering_msg_bc_publish, agent_after_offering_msg_bc_publish,
  agent_after_offering_delete, agent_pre_offering_delete, agent_pre_offering_pop_up, WorkerError,
  compute_price, ServiceStatus,
}
use dappctrl.Data.Error.{worker, failure}
use dappctrl.Data.WorkerError.{
  internal, make_endpoint_msg, endpoint_msg_seal, generate_password_hash, user_not_found,
  psc_return_balance, eth_retrieve_balance, insufficient_psc_balance, insufficient_eth_balance,
  tor_no_set, psc_register_offering, offer_not_registered, psc_remove_offering, psc_popup_offering,
  uncompleted_jobs_exists, offering_not_active, popup_period_is_not_over,
  offering_delete_period_is_not_over,
}
use dappctrl.Store.{
  Db, plain, in_tx, Action, ◌>>=◌, ◌>>◌, require, or_raise, on_error, query, exec, begin, commit,
}
use dappctrl.Handlers.Env.{Worker, EndpointMessage, refuse, transact}
use dappctrl.Handlers.Select.{
  related_channel, related_offering, event_log, select_offering, select_account, product_by_pk,
  find_or,
}
use dappctrl.Handlers.Events.{extract_log_offering}
use dappctrl.Handlers.Misc.{
  key_of, account_key, publish_data, read_uint_setting, save_offering_record, update_channel,
  update_offering, save_eth_tx, template_by_hash,
}
use dappctrl.Handlers.Channels.{refresh_balances}

-- The service of a channel whose offering is paid for beforehand starts suspended.
unfoldable pub first_status : Offering → ServiceStatus
first_status o = if is_prepaid o.billing_type || ltb 0 o.setup_price then suspending else activating
  where
    is_prepaid : BillingType → Bool
    is_prepaid prepaid = true
    is_prepaid postpaid = false

unfoldable pub new_endpoint : Worker → Channel → Uuid → EndpointMessage → Base64String → Endpoint
new_endpoint h ch template msg sealed = record {
  id = h.new_id;
  template = template;
  channel = ch.id;
  hash = h.keccak sealed;
  raw_msg = sealed;
  payment_receiver_address = some msg.payment_receiver_address;
  service_endpoint_address = some msg.service_endpoint_address;
  username = some msg.username;
  password = some msg.password;
  additional_params = msg.additional_params;
  country_status = none;
}

abbrev pub insert_endpoint : Endpoint → Db → Db
insert_endpoint e d = record d { endpoints = e ∷ d.endpoints }

-- From the insertion of the endpoint to the commit; a minute is added to the time of the change.
unfoldable pub store_endpoint : Worker → Channel → EndpointMessage → Endpoint → Action (Unit {0})
store_endpoint h ch msg e = do
  on_error (worker internal) begin
  exec in_tx (insert_endpoint e)
  salt ← or_raise h.salt failure
  hashed ← refuse (h.hash_password msg.password salt) generate_password_hash
  offer ← select_offering ch.offering
  update_channel in_tx (record ch {
    password = hashed;
    salt = salt;
    service_status = first_status offer;
    service_changed_time = some (h.now + 60000000000);
  })
  on_error (worker internal) commit

-- `AgentPreEndpointMsgCreate`
unfoldable pub agent_pre_endpoint_msg_create_job : Worker → Job → Action (Unit {0})
agent_pre_endpoint_msg_create_job h j = do
  ch ← related_channel j agent_pre_endpoint_msg_create
  msg ← refuse (h.endpoint_message ch.id) make_endpoint_msg
  template ← template_by_hash msg.template_hash
  client ← find_or user_not_found (λ d. find? (λ u. u.eth_addr == ch.client) d.users)
  public_key ← refuse (h.to_bytes client.public_key) internal
  agent ← select_account ch.agent
  key ← key_of h agent
  sealed ← refuse (h.agent_seal msg public_key key) endpoint_msg_seal
  store_endpoint h ch msg (new_endpoint h ch template.id msg sealed)

-- `OfferingSOMCTor`
abbrev somc_tor : ℕ
somc_tor = 1

abbrev country_of : Worker → Option Text → Text
country_of h none = h.undefined_country
country_of h (some c) = if h.has_two_bytes c then c else h.undefined_country

-- The deposit that the contract holds back, in uint64.
unfoldable pub total_deposit_of : Offering → ℕ
total_deposit_of o = compute_price o o.min_units * o.supply % 2 ^ 64

-- The gas limit is not set yet when the wanted balance is computed: it is zero.
unfoldable pub wanted_for_registration : ℕ → ℕ
wanted_for_registration gas = 0 * gas % 2 ^ 64

-- `AgentPreOfferingMsgBCPublish`
unfoldable pub agent_pre_offering_msg_bc_publish_job : Worker → Job → Action (Unit {0})
agent_pre_offering_msg_bc_publish_job h j = do
  offer ← related_offering j agent_pre_offering_msg_bc_publish
  agent ← select_account offer.agent
  key ← key_of h agent
  prod ← product_by_pk offer.product
  gas ← publish_data j
  hash ← or_raise (h.to_hash offer.hash) failure
  psc ← refuse (h.backend.psc_balance_of (h.key_address key)) psc_return_balance
  require (leb (total_deposit_of offer) psc) (worker insufficient_psc_balance)
  eth ← refuse (h.backend.eth_balance_at (h.key_address key)) eth_retrieve_balance
  require (leb (wanted_for_registration gas) (eth % 2 ^ 64)) (worker insufficient_eth_balance)
  tor ← refuse h.tor_host_name tor_no_set
  tx ← transact h psc_register_offering (record {
    from = h.key_address key;
    gas_limit = some h.gas_conf.register_service_offering;
    gas_price = some gas;
    call =
        register_service_offering hash (compute_price offer offer.min_units) offer.supply somc_tor
          tor;
  })
  update_offering plain (record offer {
    country = country_of h prod.country;
    somc_type = somc_tor;
    somc_data = tor;
    status = registering;
  })
  save_eth_tx h j tx register_offering_tx j.related_type j.related_id agent.eth_addr
      (h.of_address h.psc_addr)

-- `AgentAfterOfferingMsgBCPublish`
unfoldable pub agent_after_offering_msg_bc_publish_job : Worker → Job → Action (Unit {0})
agent_after_offering_msg_bc_publish_job h j = do
  offer ← related_offering j agent_after_offering_msg_bc_publish
  l ← event_log j
  update_offering plain (record offer { status = registered; block_number_updated = l.block })
  refresh_balances h plain 0 offer.agent

-- `AgentAfterOfferingDelete`
unfoldable pub agent_after_offering_delete_job : Worker → Job → Action (Unit {0})
agent_after_offering_delete_job h j = do
  offer ← related_offering j agent_after_offering_delete
  save_offering_record (record offer { status = removed })
  refresh_balances h plain 0 offer.agent

abbrev pub is_on_chain : OfferStatus → Bool
is_on_chain registered = true
is_on_chain popped_up = true
is_on_chain _ = false

-- `checkInPeriod`: the error is that of the period where the setting cannot be read.
unfoldable pub check_in_period : Worker → Hash → SettingKey → WorkerError → Action (Unit {0})
check_in_period h hash key e = do
  info ← refuse (h.backend.psc_get_offering_info hash) internal
  require info.is_active (worker offering_not_active)
  last ← refuse h.backend.latest_block_number internal
  period ← on_error (worker e) (read_uint_setting h key)
  require (leb (info.update_block + period) last) (worker e)

-- `AgentPreOfferingDelete`
unfoldable pub agent_pre_offering_delete_job : Worker → Job → Action (Unit {0})
agent_pre_offering_delete_job h j = do
  offer ← related_offering j agent_pre_offering_delete
  require (is_on_chain offer.status) (worker offer_not_registered)
  gas ← publish_data j
  key ← account_key h offer.agent
  hash ← or_raise (h.to_hash offer.hash) failure
  check_in_period h hash period_remove offering_delete_period_is_not_over
  tx ← transact h psc_remove_offering (record {
    from = h.key_address key;
    gas_limit = some h.gas_conf.remove_service_offering;
    gas_price = some gas;
    call = remove_service_offering hash;
  })
  save_offering_record (record offer { status = removing })
  save_eth_tx h j tx remove_offering_tx j.related_type j.related_id offer.agent
      (h.of_address h.psc_addr)

-- Another job that changes the offering on the chain.
unfoldable pub is_rival : Uuid → Uuid → Job → Bool
is_rival offer self row =
    (job_type_eq row.type agent_pre_offering_delete
      || job_type_eq row.type agent_pre_offering_pop_up)
    && (job_status_eq row.status JobStatus.active
        && (row.related_id == offer && not (row.id == self)))

-- `agentOfferingPopUpFindRelatedJobs`
unfoldable pub check_rivals : Uuid → Uuid → Action (Unit {0})
check_rivals offer self = do
  found ← on_error (worker internal) (query plain (λ d. any (is_rival offer self) d.jobs))
  require (not found) (worker uncompleted_jobs_exists)

-- `AgentPreOfferingPopUp`
unfoldable pub agent_pre_offering_pop_up_job : Worker → Job → Action (Unit {0})
agent_pre_offering_pop_up_job h j = do
  offer ← related_offering j agent_pre_offering_pop_up
  require (is_on_chain offer.status) (worker offer_not_registered)
  gas ← publish_data j
  hash ← refuse (h.to_hash offer.hash) internal
  check_rivals offer.id j.id
  check_in_period h hash period_pop_up popup_period_is_not_over
  key ← account_key h offer.agent
  tx ← transact h psc_popup_offering (record {
    from = h.key_address key;
    gas_limit = some h.gas_conf.popup_service_offering;
    gas_price = some gas;
    call = popup_service_offering hash offer.somc_type offer.somc_data;
  })
  save_offering_record (record offer { status = popping_up })
  save_eth_tx h j tx popup_offering_tx j.related_type j.related_id offer.agent
      (h.of_address h.psc_addr)

-- `AgentAfterOfferingPopUp`
unfoldable pub agent_after_offering_pop_up_job : Worker → Job → Action (Unit {0})
agent_after_offering_pop_up_job h j = do
  l ← event_log j
  args ← extract_log_offering h l
  offer ← find_or internal (λ d. find? (λ o. o.hash == h.of_hash args.offering_hash) d.offerings)
  save_offering_record (record offer { block_number_updated = l.block; status = popped_up })
