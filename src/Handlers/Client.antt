-- ===== src/Handlers/Client.antt =====
-- proc/worker/client.go: the client's transactions for a channel.
use dappctrl.Base.{
  ℕ, ◌*◌, Bool, false, not, ◌&&◌, ◌||◌, Option, none, some, ◌∷◌, any, find?, ◌==◌, leb,
  if◌then◌else◌, update_where,
}
use dappctrl.Data.{
  Uuid, User, Account, Offering, Channel, ChannelStatus, closed_coop, wait_challenge, wait_uncoop,
  in_challenge, channel_status_eq, ServiceStatus, terminated, service_status_eq, Hash, Address,
  create_channel, top_up_channel, uncooperative_close, settle, create_channel_tx, top_up_tx,
  uncooperative_close_tx, settle_tx, period_challenge, Job, canceled, RelatedType, Payload, create,
  job_type_eq, related_type_eq, compute_price, payload_gas_price, payload_deposit,
  client_pre_channel_top_up, client_pre_uncooperative_close_request,
  client_after_uncooperative_close_request, client_pre_uncooperative_close,
  client_after_cooperative_close, WorkerError,
}
use dappctrl.Data.Error.{worker}
use dappctrl.Data.WorkerError.{
  internal, parse_job_data, parse_eth_addr, parse_offering_hash, psc_return_balance,
  insufficient_psc_balance, small_deposit, psc_offering_supply, offering_no_supply,
  psc_create_channel, psc_get_channel_info, eth_latest_block_number, psc_settle, psc_top_up_channel,
  psc_uncooperative_close, challenge_period_is_not_over, invalid_channel_status,
  invalid_service_status, channel_receipt_balance,
}
use dappctrl.Store.{
  Db, Result, ok, err, plain, Action, ◌>>=◌, ◌>>◌, pure, require, when, on_error, attempt, query,
  exec,
}
use dappctrl.Handlers.Env.{Worker, refuse, transact}
use dappctrl.Handlers.Select.{related_channel, select_offering, select_account, account_by_pk}
use dappctrl.Handlers.Misc.{
  key_of, publish_data, read_uint_setting, save_record, update_channel, save_eth_tx,
  add_job_with_delay,
}
use dappctrl.Handlers.Channels.{insert_channel, insert_user}

-- `checkDeposit`
unfoldable pub check_deposit : Worker → Account → ℕ → Action (Unit {0})
check_deposit h acc deposit = do
  addr ← refuse (h.to_address acc.eth_addr) parse_eth_addr
  amount ← refuse (h.backend.psc_balance_of addr) psc_return_balance
  require (leb deposit amount) (worker insufficient_psc_balance)

-- `clientValidateChannelForClose`
unfoldable pub validate_channel_for_close : Channel → Action (Unit {0})
validate_channel_for_close ch = do
  require
      (channel_status_eq ch.channel_status ChannelStatus.active
        || channel_status_eq ch.channel_status ChannelStatus.pending)
      (worker invalid_channel_status)
  require
      (service_status_eq ch.service_status terminated
        || service_status_eq ch.service_status ServiceStatus.pending)
      (worker invalid_service_status)
  require (leb ch.receipt_balance ch.total_deposit) (worker channel_receipt_balance)

-- `clientPreChannelCreateCheckSupply`
unfoldable pub check_supply : Worker → Offering → Hash → Action (Unit {0})
check_supply h offer hash = do
  info ← refuse (h.backend.psc_get_offering_info hash) psc_offering_supply
  require (not (info.current_supply == 0 || offer.current_supply == 0)) (worker offering_no_supply)

-- A price of zero asks the node for one.
unfoldable pub gas_price_or_suggested : Worker → ℕ → Action ℕ
gas_price_or_suggested h gas =
    if gas == 0 then refuse h.backend.suggest_gas_price internal else pure gas

-- A gas limit of zero is left to the node.
abbrev gas_limit_or_none : ℕ → Option ℕ
gas_limit_or_none n = if n == 0 then none else some n

-- The columns that the handler leaves out are at Go's zero values.
unfoldable pub requested_channel : Uuid → Account → Offering → ℕ → Channel
requested_channel id acc offer deposit = record {
  id = id;
  agent = offer.agent;
  client = acc.eth_addr;
  offering = offer.id;
  block = 0;
  channel_status = ChannelStatus.pending;
  service_status = ServiceStatus.pending;
  service_changed_time = none;
  prepared_at = 0;
  total_deposit = deposit;
  salt = 0;
  username = none;
  password = 0;
  receipt_balance = 0;
  receipt_signature = none;
}

-- `clientPreChannelCreateSaveTX`
unfoldable pub create_and_save :
    Worker → Job → Account → Offering → Hash → ℕ → ℕ → Action (Unit {0})
create_and_save h j acc offer hash deposit price = do
  agent ← refuse (h.to_address offer.agent) parse_eth_addr
  key ← key_of h acc
  tx ← transact h psc_create_channel (record {
    from = h.key_address key;
    gas_limit = some h.gas_conf.create_channel;
    gas_price = some price;
    call = create_channel agent hash deposit;
  })
  save_eth_tx h j tx create_channel_tx RelatedType.channel j.related_id acc.eth_addr offer.agent
  on_error (worker internal)
      (exec plain (insert_channel (requested_channel j.related_id acc offer deposit)))

-- Any error but a missing row leaves the users as they are.
abbrev pub add_user_unless : User → Result (Option User) → Action (Unit {0})
add_user_unless u (ok none) = on_error (worker internal) (exec plain (insert_user (some u)))
add_user_unless u (ok (some _)) = pure tt
add_user_unless u (err _) = pure tt

-- The agent whose key signed the offering's message becomes a user, unless there is one.
unfoldable pub remember_agent : Worker → Offering → Action (Unit {0})
remember_agent h offer = do
  sender ← refuse (h.message_agent offer.raw_msg) internal
  found ← attempt (query plain (λ d. find? (λ u. u.eth_addr == sender.0) d.users))
  add_user_unless (record { id = h.new_id; eth_addr = sender.0; public_key = sender.1 }) found

abbrev pub create_data : Payload → Option (Uuid × Uuid)
create_data (create acc offer _ _) = some (acc, offer)
create_data _ = none

-- A deposit of zero stands for the smallest one.
unfoldable pub wanted_deposit : Offering → ℕ → ℕ
wanted_deposit offer deposit = if deposit == 0 then compute_price offer offer.min_units else deposit

-- From the choice of the deposit on.
unfoldable pub open_channel : Worker → Job → Account → Offering → ℕ → ℕ → Action (Unit {0})
open_channel h j acc offer deposit gas = do
  check_deposit h acc deposit
  require (leb (compute_price offer offer.min_units) deposit) (worker small_deposit)
  hash ← refuse (h.to_hash offer.hash) parse_offering_hash
  check_supply h offer hash
  remember_agent h offer
  price ← gas_price_or_suggested h gas
  create_and_save h j acc offer hash deposit price

-- `ClientPreChannelCreate`; a document of another kind names no account.
unfoldable pub client_pre_channel_create_job : Worker → Job → Action (Unit {0})
client_pre_channel_create_job h j = do
  gas ← refuse (payload_gas_price j.payload) parse_job_data
  ids ← refuse (create_data j.payload) WorkerError.account_not_found
  acc ← account_by_pk ids.0
  offer ← select_offering ids.1
  open_channel h j acc offer (wanted_deposit offer (payload_deposit j.payload)) gas

-- `clientPreChannelTopUpSaveTx`; an agent's address that does not decode has the other error.
unfoldable pub top_up_and_save :
    Worker → Job → Channel → Account → Offering → ℕ → ℕ → Action (Unit {0})
top_up_and_save h j ch acc offer gas deposit = do
  agent ← refuse (h.to_address ch.agent) parse_offering_hash
  hash ← refuse (h.to_hash offer.hash) parse_offering_hash
  key ← key_of h acc
  price ← gas_price_or_suggested h gas
  tx ← transact h psc_top_up_channel (record {
    from = h.key_address key;
    gas_limit = gas_limit_or_none h.gas_conf.top_up;
    gas_price = some price;
    call = top_up_channel agent ch.block hash deposit;
  })
  save_eth_tx h j tx top_up_tx RelatedType.channel ch.id acc.eth_addr (h.of_address h.psc_addr)

-- `ClientPreChannelTopUp`
unfoldable pub client_pre_channel_top_up_job : Worker → Job → Action (Unit {0})
client_pre_channel_top_up_job h j = do
  ch ← related_channel j client_pre_channel_top_up
  offer ← select_offering ch.offering
  acc ← select_account ch.client
  gas ← refuse (payload_gas_price j.payload) parse_job_data
  check_deposit h acc (payload_deposit j.payload)
  top_up_and_save h j ch acc offer gas (payload_deposit j.payload)

-- `doClientPreUncooperativeCloseRequestAndSaveTx`
unfoldable pub request_close_and_save :
    Worker → Job → Channel → Account → Offering → ℕ → Action (Unit {0})
request_close_and_save h j ch acc offer gas = do
  agent ← refuse (h.to_address ch.agent) parse_eth_addr
  key ← key_of h acc
  price ← gas_price_or_suggested h gas
  hash ← refuse (h.to_hash offer.hash) parse_offering_hash
  tx ← transact h psc_uncooperative_close (record {
    from = h.key_address key;
    gas_limit = gas_limit_or_none h.gas_conf.uncooperative_close;
    gas_price = some price;
    call = uncooperative_close agent ch.block hash ch.receipt_balance;
  })
  save_eth_tx h j tx uncooperative_close_tx RelatedType.channel ch.id acc.eth_addr
      (h.of_address h.psc_addr)
  save_record (record ch { channel_status = wait_challenge })

-- `ClientPreUncooperativeCloseRequest`
unfoldable pub client_pre_uncooperative_close_request_job : Worker → Job → Action (Unit {0})
client_pre_uncooperative_close_request_job h j = do
  ch ← related_channel j client_pre_uncooperative_close_request
  gas ← publish_data j
  offer ← select_offering ch.offering
  acc ← select_account ch.client
  validate_channel_for_close ch
  request_close_and_save h j ch acc offer gas

-- `eth.BlockDuration`: fifteen seconds, in nanoseconds.
abbrev block_duration : ℕ
block_duration = 15000000000

-- `ClientAfterUncooperativeCloseRequest`
unfoldable pub client_after_uncooperative_close_request_job : Worker → Job → Action (Unit {0})
client_after_uncooperative_close_request_job h j = do
  ch ← related_channel j client_after_uncooperative_close_request
  update_channel plain (record ch { channel_status = in_challenge })
  period ← read_uint_setting h period_challenge
  add_job_with_delay h plain 0 client_pre_uncooperative_close RelatedType.channel ch.id
      (period * block_duration)

-- `blocksTillChallangeEnd`, compared with zero by the caller.
unfoldable pub check_challenge_over :
    Worker → Channel → Address → Address → Hash → Action (Unit {0})
check_challenge_over h ch client agent hash = do
  settle_block ←
      refuse (h.backend.psc_get_channel_info client agent ch.block hash) psc_get_channel_info
  last ← refuse h.backend.latest_block_number eth_latest_block_number
  require (leb settle_block last) (worker challenge_period_is_not_over)

-- From the decoding of the addresses on; `settle` leaves the gas to the node.
unfoldable pub settle_and_save : Worker → Job → Channel → Action (Unit {0})
settle_and_save h j ch = do
  agent ← refuse (h.to_address ch.agent) parse_eth_addr
  client ← refuse (h.to_address ch.client) parse_eth_addr
  acc ← select_account ch.client
  offer ← select_offering ch.offering
  hash ← refuse (h.to_hash offer.hash) parse_offering_hash
  check_challenge_over h ch client agent hash
  key ← key_of h acc
  tx ← transact h psc_settle (record {
    from = h.key_address key;
    gas_limit = none;
    gas_price = none;
    call = settle agent ch.block hash;
  })
  save_eth_tx h j tx settle_tx RelatedType.channel ch.id acc.eth_addr (h.of_address h.psc_addr)
  save_record (record ch { channel_status = wait_uncoop })

-- `w.db.Save(job)`, whose outcome is ignored.
abbrev pub save_job : Job → Db → Db
save_job j d =
    if any (λ r. r.id == j.id) d.jobs
    then record d { jobs = update_where (λ r. r.id == j.id) (λ _. j) d.jobs }
    else record d { jobs = j ∷ d.jobs }

unfoldable pub cancel_self : Job → Action Job
cancel_self j = do
  let j' = record j { status = canceled }
  attempt (exec plain (save_job j'))
  pure j'

-- A cooperative close of the same channel.
unfoldable pub is_coop_close : Job → Job → Bool
is_coop_close j row =
    row.related_id == j.related_id
    && (related_type_eq row.related_type j.related_type
        && job_type_eq row.type client_after_cooperative_close)

unfoldable pub settle_unless_closed : Worker → Job → Action Job
settle_unless_closed h j = do
  ch ← related_channel j client_pre_uncooperative_close
  when (not (channel_status_eq ch.channel_status closed_coop)) (settle_and_save h j ch)
  pure j

-- A failing query counts as no row.
abbrev was_closed : Result Bool → Bool
was_closed (ok b) = b
was_closed (err _) = false

-- `ClientPreUncooperativeClose`; the result is the job as the handler leaves it.
unfoldable pub client_pre_uncooperative_close_job : Worker → Job → Action Job
client_pre_uncooperative_close_job h j = do
  found ← attempt (query plain (λ d. any (is_coop_close j) d.jobs))
  if was_closed found then cancel_self j else settle_unless_closed h j
