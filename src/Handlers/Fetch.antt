-- ===== src/Handlers/Fetch.antt =====
-- proc/worker/client.go: the endpoints and offerings that the client fetches from agents.
use dappctrl.Base.{
  ℕ, ◌%◌, ◌^◌, Bool, true, false, not, ◌&&◌, Option, none, some, ◌∷◌, find?, ◌==◌, ltb,
  if◌then◌else◌,
}
use dappctrl.Data.{
  Uuid, HexString, Text, Base64String, Product, Offering, OfferStatus, registered, popped_up,
  removed, Channel, ChannelStatus, suspended, Endpoint, Job, RelatedType, endpoint_sealed,
  payload_sealed, client_after_channel_create, client_endpoint_get, client_after_offering_delete,
  compute_price, WorkerError, Error,
}
use dappctrl.Data.Error.{worker}
use dappctrl.Data.WorkerError.{
  internal, no_endpoint, decrypt_endpoint_msg, invalid_endpoint, user_not_found, parse_job_data,
  product_not_found, fetch_offering, offering_deposit, offering_exists, offering_not_active,
  template_by_hash_not_found, wrong_offering_msg_signature, offer_not_correspond_to_template,
}
use dappctrl.Store.{
  Result, ok, err, plain, Action, ◌>>=◌, ◌>>◌, pure, raise, require, on_error, attempt, query, exec,
}
use dappctrl.Handlers.Env.{
  Worker, EndpointMessage, OfferMessage, SomcClient, unknown_type, broken, connected, refuse,
}
use dappctrl.Handlers.Select.{
  find_or, channel_by, related_channel, event_log, select_offering, select_account,
  offering_by_hash,
}
use dappctrl.Handlers.Events.{LogOffering, extract_log_offering}
use dappctrl.Handlers.Misc.{
  key_of, add_job_with_data, save_record, save_offering_record, template_by_hash,
  update_related_offering,
}
use dappctrl.Handlers.Channels.{refresh_balances}
use dappctrl.Handlers.Offering.{insert_endpoint}
use dappctrl.Handlers.Client.{cancel_self}

-- `keyFromChannelData`
unfoldable pub key_from_channel_data : Worker → Uuid → Action Base64String
key_from_channel_data h id = do
  ch ← find_or WorkerError.channel_not_found (channel_by id)
  offer ← select_offering ch.offering
  refuse (h.channel_key ch.client ch.agent ch.block offer.hash) internal

abbrev endpoint_from : SomcClient → Base64String → Option Base64String
endpoint_from (connected endpoint _) key = endpoint key
endpoint_from _ key = none

-- `ClientAfterChannelCreate`
unfoldable pub client_after_channel_create_job : Worker → Job → Action (Unit {0})
client_after_channel_create_job h j = do
  ch ← related_channel j client_after_channel_create
  l ← event_log j
  save_record (record ch { block = l.block % 2 ^ 32; channel_status = ChannelStatus.active })
  key ← key_from_channel_data h ch.id
  offer ← select_offering ch.offering
  raw ← refuse (endpoint_from (h.somc_client offer.somc_type offer.somc_data) key) no_endpoint
  sealed ← refuse (h.to_bytes raw) no_endpoint
  add_job_with_data h plain 0 client_endpoint_get RelatedType.channel ch.id (endpoint_sealed sealed)
  refresh_balances h plain 1 ch.client

-- `extractEndpointMessage`
unfoldable pub extract_endpoint_message : Worker → Channel → ℕ → Action EndpointMessage
extract_endpoint_message h ch sealed = do
  client ← select_account ch.client
  agent ← find_or user_not_found (λ d. find? (λ u. u.eth_addr == ch.agent) d.users)
  public_key ← refuse (h.to_bytes agent.public_key) internal
  key ← key_of h client
  text ← refuse (h.client_open sealed public_key key) decrypt_endpoint_msg
  msg ← refuse (h.parse_endpoint text) internal
  template ← template_by_hash msg.template_hash
  require (h.is_valid_json template.raw text) (worker invalid_endpoint)
  pure msg

-- The texts of `CountryStatusUnknown`, `CountryStatusValid` and `CountryStatusInvalid`, by numbers.
abbrev country_status : Worker → Text → Option Text → Text
country_status h wanted none = 0
country_status h wanted (some c) = if h.has_two_bytes c then (if c == wanted then 1 else 2) else 0

unfoldable pub fetched_endpoint : Worker → Channel → Offering → ℕ → EndpointMessage → Endpoint
fetched_endpoint h ch offer sealed msg = record {
  id = h.new_id;
  template = offer.template;
  channel = ch.id;
  hash = msg.template_hash;
  raw_msg = h.of_bytes sealed;
  payment_receiver_address = some msg.payment_receiver_address;
  service_endpoint_address = some msg.service_endpoint_address;
  username = some msg.username;
  password = some msg.password;
  additional_params = msg.additional_params;
  country_status =
      some (country_status h offer.country (h.country_at msg.service_endpoint_address));
}

-- The function that `InTransaction` runs writes outside of the transaction around it, which has
-- nothing to commit: its end is a call that may fail.
unfoldable pub store_fetched : Worker → Channel → Endpoint → Action (Unit {0})
store_fetched h ch e = do
  query plain (λ _. tt)
  on_error (worker internal) (exec plain (insert_endpoint e))
  save_record (record ch {
    service_status = suspended;
    service_changed_time = some h.now;
    prepared_at = h.now;
  })
  query plain (λ _. tt)

-- `ClientEndpointGet`
unfoldable pub client_endpoint_get_job : Worker → Job → Action (Unit {0})
client_endpoint_get_job h j = do
  ch ← related_channel j client_endpoint_get
  sealed ← refuse (payload_sealed j.payload) parse_job_data
  msg ← extract_endpoint_message h ch sealed
  offer ← select_offering ch.offering
  store_fetched h ch (fetched_endpoint h ch offer sealed msg)

-- The row of an offering that an agent published; what the message does not say is at Go's zero
-- values.
unfoldable pub offering_of_message :
    Worker → Uuid → HexString → ℕ → ℕ → LogOffering → OfferMessage → Uuid → Product → Offering
offering_of_message h id hash block bytes args msg template prod = record {
  id = id;
  is_local = false;
  ip_type = msg.ip_type;
  template = template;
  product = prod.id;
  hash = hash;
  status = registered;
  block_number_updated = block;
  agent = h.of_address args.agent_addr;
  raw_msg = h.of_bytes bytes;
  service_name = prod.name;
  description = none;
  country = msg.country;
  supply = msg.service_supply;
  current_supply = msg.service_supply;
  unit_name = msg.unit_name;
  unit_type = msg.unit_type;
  billing_type = msg.billing_type;
  setup_price = msg.setup_price;
  unit_price = msg.unit_price;
  min_units = msg.min_units;
  max_unit = msg.max_unit;
  billing_interval = msg.billing_interval;
  max_billing_unit_lag = msg.max_billing_unit_lag;
  max_suspend_time = msg.max_suspend_time;
  max_inactive_time_sec = msg.max_inactive_time_sec;
  free_units = msg.free_units;
  additional_params = msg.service_specific_parameters;
  auto_pop_up = none;
  somc_type = args.somc_type;
  somc_data = args.somc_data;
  somc_success_ping = none;
}

-- An offering that is found exists; any error counts as none.
abbrev pub unless_known : Result Offering → Action (Unit {0})
unless_known (ok _) = raise (worker offering_exists)
unless_known (err _) = pure tt

abbrev pub is_client_product : Uuid → Product → Bool
is_client_product template p = is_for p.offer_tpl_id && not p.is_server
  where
    is_for : Option Uuid → Bool
    is_for none = false
    is_for (some t) = t == template

-- `fillOfferingFromMsg`
unfoldable pub fill_offering_from_msg : Worker → Uuid → ℕ → ℕ → LogOffering → Action Offering
fill_offering_from_msg h id block bytes args = do
  known ← attempt (offering_by_hash (h.of_hash args.offering_hash))
  unless_known known
  info ← refuse (h.backend.psc_get_offering_info (h.keccak_hash bytes)) internal
  require info.is_active (worker offering_not_active)
  msg ← refuse (h.parse_offering bytes) internal
  public_key ← refuse (h.to_bytes msg.agent_pub_key) internal
  require (h.is_signed_by public_key bytes) (worker wrong_offering_msg_signature)
  template ← template_by_hash msg.template_hash
  require (h.is_valid_offer template.raw msg) (worker offer_not_correspond_to_template)
  prod ← find_or product_not_found (λ d. find? (is_client_product template.id) d.products)
  pure (
      offering_of_message h id (h.of_hash args.offering_hash) block bytes args msg template.id prod)

-- The offering is stored with the supplies that the contract and the event tell.
unfoldable pub store_offering : Worker → Job → LogOffering → Offering → Action Job
store_offering h j args offer = do
  info ← refuse (h.backend.psc_get_offering_info args.offering_hash) internal
  require (info.min_deposit == compute_price offer offer.min_units) (worker offering_deposit)
  on_error (worker internal) (
      exec plain (λ d. record d {
        offerings =
            record offer { supply = info.max_supply; current_supply = args.current_supply }
            ∷ d.offerings;
      }))
  pure j

-- Some errors cancel the job, an internal one is returned for a retry, and the others are ignored.
pub data Refusal : Type 0 where
  cancels retries ignored : Refusal

abbrev pub refusal : Error → Refusal
refusal (worker template_by_hash_not_found) = cancels
refusal (worker offering_not_active) = cancels
refusal (worker offering_exists) = cancels
refusal (worker internal) = retries
refusal _ = ignored

abbrev pub when_refused : Job → Refusal → Action Job
when_refused j cancels = cancel_self j
when_refused j retries = raise (worker fetch_offering)
when_refused j ignored = pure j

abbrev pub after_filling : Worker → Job → LogOffering → Result Offering → Action Job
after_filling h j args (ok offer) = store_offering h j args offer
after_filling h j args (err e) = when_refused j (refusal e)

-- `clientRetrieveAndSaveOffering`; the result is the job as the handler leaves it.
abbrev pub retrieve_from : Worker → Job → ℕ → LogOffering → SomcClient → Action Job
retrieve_from h j block args unknown_type = pure j
retrieve_from h j block args broken = raise (worker fetch_offering)
retrieve_from h j block args (connected _ offering) = do
  raw ← refuse (offering (h.of_hash args.offering_hash)) fetch_offering
  bytes ← refuse (h.to_bytes raw) fetch_offering
  filled ← attempt (fill_offering_from_msg h j.related_id block bytes args)
  after_filling h j args filled

unfoldable pub retrieve_and_save_offering : Worker → Job → ℕ → LogOffering → Action Job
retrieve_and_save_offering h j block args =
    retrieve_from h j block args (h.somc_client args.somc_type args.somc_data)

-- `ClientAfterOfferingMsgBCPublish`
unfoldable pub client_after_offering_msg_bc_publish_job : Worker → Job → Action Job
client_after_offering_msg_bc_publish_job h j = do
  l ← event_log j
  args ← extract_log_offering h l
  retrieve_and_save_offering h j l.block args

abbrev is_removed : OfferStatus → Bool
is_removed removed = true
is_removed _ = false

-- An offering that is known is updated, unless it is removed or the event is an old one.
abbrev pub popped_up_known : Worker → Job → ℕ → LogOffering → Option Offering → Action Job
popped_up_known h j block args none = retrieve_and_save_offering h j block args
popped_up_known h j block args (some o) =
    if not (is_removed o.status) && ltb o.block_number_updated block
    then save_offering_record (record o { block_number_updated = block; status = popped_up })
      >> pure j
    else pure j

-- `ClientAfterOfferingPopUp`
unfoldable pub client_after_offering_pop_up_job : Worker → Job → Action Job
client_after_offering_pop_up_job h j = do
  l ← event_log j
  args ← extract_log_offering h l
  found ←
      on_error (worker internal)
        (query plain (λ d. find? (λ o. o.hash == h.of_hash args.offering_hash) d.offerings))
  popped_up_known h j l.block args found

-- `ClientAfterOfferingDelete`
unfoldable pub client_after_offering_delete_job : Worker → Job → Action (Unit {0})
client_after_offering_delete_job h = update_related_offering client_after_offering_delete removed
