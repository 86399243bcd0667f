-- ===== src/Handlers/Channels.antt =====
-- proc/worker/agent.go, client.go and common.go: what follows the events of a channel's contract.
use dappctrl.Base.{
  ℕ, ◌+◌, ◌%◌, ◌^◌, Bool, true, false, not, ◌&&◌, Option, none, some, ◌∷◌, find?, ◌==◌, leb, ◌-◌,
}
use dappctrl.Data.{
  Uuid, User, Offering, Channel, ChannelStatus, in_challenge, closed_uncoop, closed_coop,
  ServiceStatus, terminated, service_status_eq, Job, JobType, JobCreator, RelatedType,
  compute_price, agent_after_channel_create, agent_after_uncooperative_close_request,
  agent_after_uncooperative_close, agent_after_cooperative_close, agent_pre_endpoint_msg_create,
  account_update_balances, client_after_channel_top_up, client_after_uncooperative_close,
  client_after_cooperative_close, job_type_eq, JobEthLog, HexString, Base64String,
}
use dappctrl.Data.Error.{worker, failure}
use dappctrl.Data.WorkerError.{
  internal, recover_client_pub_key, small_deposit, terminate_channel_failed, parse_eth_addr,
  parse_offering_hash, eth_log_channel_mismatch,
}
use dappctrl.Store.{
  Db, Querier, plain, in_tx, Result, ok, err, Action, ◌>>=◌, ◌>>◌, pure, require, when, on_error,
  attempt, query, exec, begin, commit,
}
use dappctrl.Proc.Channel.{terminate_channel}
use dappctrl.Handlers.Env.{Worker, refuse}
use dappctrl.Handlers.Select.{
  check_job, event_log, related_channel, select_offering, select_account, offering_by_hash,
}
use dappctrl.Handlers.Events.{
  LogChannelCreated, LogChannelTopUp, extract_log_channel_created, extract_log_channel_topped_up,
}
use dappctrl.Handlers.Misc.{add_job, save_record, update_channel, update_offering}

-- `newUser`: any error but a missing row makes it none.
abbrev user_unless : Worker → HexString → Base64String → Result (Option User) → Option User
user_unless h addr public_key (ok none) =
    some (record { id = h.new_id; eth_addr = addr; public_key = public_key })
user_unless h addr public_key (ok (some _)) = none
user_unless h addr public_key (err _) = none

unfoldable pub new_user : Worker → HexString × Base64String → Action (Option User)
new_user h sender = do
  found ← attempt (query plain (λ d. find? (λ u. u.eth_addr == sender.0) d.users))
  pure (user_unless h sender.0 sender.1 found)

abbrev pub insert_user : Option User → Db → Db
insert_user none d = d
insert_user (some u) d = record d { users = u ∷ d.users }

abbrev pub insert_channel : Channel → Db → Db
insert_channel ch d = record d { channels = ch ∷ d.channels }

-- The columns that the handler leaves out are at Go's zero values.
unfoldable pub created_channel : Worker → Uuid → JobEthLog → LogChannelCreated → Offering → Channel
created_channel h id l args offer = record {
  id = id;
  agent = h.of_address args.agent_addr;
  client = h.of_address args.client_addr;
  offering = offer.id;
  block = l.block % 2 ^ 32;
  channel_status = ChannelStatus.active;
  service_status = ServiceStatus.pending;
  service_changed_time = none;
  prepared_at = 0;
  total_deposit = args.deposit;
  salt = 0;
  username = none;
  password = 0;
  receipt_balance = 0;
  receipt_signature = none;
}

-- `CurrentSupply--` and `CurrentSupply++`, in uint16.
unfoldable pub supply_down : Offering → Offering
supply_down o = record o { current_supply = (o.current_supply + (2 ^ 16 - 1)) % 2 ^ 16 }

unfoldable pub supply_up : Offering → Offering
supply_up o = record o { current_supply = (o.current_supply + 1) % 2 ^ 16 }

unfoldable pub insert_client : Option User → Action (Unit {0})
insert_client none = pure tt
insert_client (some u) = on_error (worker internal) (exec in_tx (insert_user (some u)))

unfoldable pub insert_new_channel : Channel → Action (Unit {0})
insert_new_channel ch = on_error (worker internal) (exec in_tx (insert_channel ch))

-- From the insertion of the user to the commit.
unfoldable pub register_channel : Worker → Job → JobEthLog → Option User → Action (Unit {0})
register_channel h j l client = do
  on_error (worker internal) begin
  insert_client client
  args ← extract_log_channel_created h l
  offer ← offering_by_hash (h.of_hash args.offering_hash)
  require (leb (compute_price offer offer.min_units) args.deposit) (worker small_deposit)
  update_offering in_tx (supply_down offer)
  insert_new_channel (created_channel h j.related_id l args offer)
  add_job h in_tx 0 agent_pre_endpoint_msg_create RelatedType.channel j.related_id
  on_error (worker internal) commit

-- `AgentAfterChannelCreate`
unfoldable pub agent_after_channel_create_job : Worker → Job → Action (Unit {0})
agent_after_channel_create_job h j = do
  check_job j agent_after_channel_create RelatedType.channel
  l ← event_log j
  sender ← refuse (h.backend.transaction_sender l.tx_hash) recover_client_pub_key
  client ← new_user h sender
  register_channel h j l client

abbrev same_channel : LogChannelTopUp → ℕ → ℕ → ℕ → Channel → Bool
same_channel args agent client hash ch =
    (agent == args.agent_addr && client == args.client_addr)
    && (hash == args.offering_hash && ch.block == args.open_block_num)

unfoldable pub topped_up : ℕ → Channel → Channel
topped_up added ch = record ch { total_deposit = (ch.total_deposit + added) % 2 ^ 64 }

-- `afterChannelTopUp`; an error of parsing the log is wrapped in another one.
unfoldable pub after_channel_top_up : Worker → JobType → Job → Action (Unit {0})
after_channel_top_up h ty j = do
  ch ← related_channel j ty
  l ← event_log j
  args ← on_error failure (extract_log_channel_topped_up h l)
  agent ← refuse (h.to_address ch.agent) parse_eth_addr
  client ← refuse (h.to_address ch.client) parse_eth_addr
  offer ← select_offering ch.offering
  hash ← refuse (h.to_hash offer.hash) parse_offering_hash
  require (same_channel args agent client hash ch) (worker eth_log_channel_mismatch)
  update_channel plain (topped_up args.added_deposit ch)
  when (job_type_eq j.type client_after_channel_top_up) (do
    acc ← select_account ch.client
    add_job h plain 0 account_update_balances RelatedType.account acc.id)

-- The service of a channel that is being closed is terminated first.
unfoldable pub terminate_service : Worker → Bool → Channel → Action (Unit {0})
terminate_service h agent ch = when (not (service_status_eq ch.service_status terminated)) (
    on_error (worker terminate_channel_failed)
      (terminate_channel h.queue (h.stamp 0) ch.id JobCreator.task agent)
    >> pure tt)

-- The last step of the handlers: the balances of the channel's party are read again.
unfoldable pub refresh_balances : Worker → Querier → ℕ → HexString → Action (Unit {0})
refresh_balances h q n addr = do
  acc ← select_account addr
  add_job h q n account_update_balances RelatedType.account acc.id

-- `AgentAfterUncooperativeCloseRequest`
unfoldable pub agent_after_uncooperative_close_request_job : Worker → Job → Action (Unit {0})
agent_after_uncooperative_close_request_job h j = do
  ch ← related_channel j agent_after_uncooperative_close_request
  terminate_service h true ch
  update_channel plain (record ch { channel_status = in_challenge })

-- `incrementCurrentSupply`: the offering is read outside of the transaction.
unfoldable pub increment_supply : Querier → Uuid → Action (Unit {0})
increment_supply q id = do
  offer ← on_error (worker internal) (select_offering id)
  update_offering q (supply_up offer)

-- `AgentAfterUncooperativeClose`
unfoldable pub agent_after_uncooperative_close_job : Worker → Job → Action (Unit {0})
agent_after_uncooperative_close_job h j = do
  ch ← related_channel j agent_after_uncooperative_close
  terminate_service h true ch
  update_channel plain (record ch { channel_status = closed_uncoop })
  increment_supply plain ch.offering
  refresh_balances h plain 1 ch.agent

-- `AgentAfterCooperativeClose`: a failing handler is rolled back.
unfoldable pub agent_after_cooperative_close_job : Worker → Job → Action (Unit {0})
agent_after_cooperative_close_job h j = do
  ch ← related_channel j agent_after_cooperative_close
  begin
  update_channel in_tx (record ch { channel_status = closed_coop })
  increment_supply in_tx ch.offering
  refresh_balances h in_tx 0 ch.agent
  commit

-- `ClientAfterUncooperativeClose`
unfoldable pub client_after_uncooperative_close_job : Worker → Job → Action (Unit {0})
client_after_uncooperative_close_job h j = do
  ch ← related_channel j client_after_uncooperative_close
  save_record (record ch { channel_status = closed_uncoop })
  refresh_balances h plain 0 ch.client

-- `ClientAfterCooperativeClose`
unfoldable pub client_after_cooperative_close_job : Worker → Job → Action (Unit {0})
client_after_cooperative_close_job h j = do
  ch ← related_channel j client_after_cooperative_close
  save_record (record ch { channel_status = closed_coop })
  terminate_service h false ch
  refresh_balances h plain 1 ch.client
