-- ===== src/Handlers/Service.antt =====
-- proc/worker/agent.go, client.go and common.go: the handlers that change the status of a service.
use dappctrl.Base.{not, some, ◌==◌}
use dappctrl.Data.{
  Channel, ServiceStatus, suspending, suspended, terminating, terminated, activating, Job, JobType,
  agent_pre_service_suspend, agent_pre_service_unsuspend, agent_pre_service_terminate,
  client_pre_service_suspend, client_pre_service_unsuspend, client_pre_service_terminate,
  complete_service_transition, payload_service_status, cooperative_close, cooperative_close_tx,
}
use dappctrl.Data.WorkerError.{
  internal, parse_job_data, parse_eth_addr, parse_offering_hash, sign_closing_msg,
  no_receipt_signature, psc_cooperative_close,
}
use dappctrl.Store.{plain, Action, ◌>>=◌, ◌>>◌, pure, when}
use dappctrl.Handlers.Env.{Worker, refuse, transact}
use dappctrl.Handlers.Select.{related_channel, select_offering, select_account}
use dappctrl.Handlers.Misc.{key_of, save_record, update_channel, save_eth_tx}

-- The status that a job of the agent leads to.
unfoldable pub agent_next_status : JobType → ServiceStatus → ServiceStatus
agent_next_status agent_pre_service_suspend ServiceStatus.active = suspending
agent_next_status agent_pre_service_suspend _ = suspended
agent_next_status agent_pre_service_terminate ServiceStatus.active = terminating
agent_next_status agent_pre_service_terminate _ = terminated
agent_next_status agent_pre_service_unsuspend _ = activating
agent_next_status _ s = s

abbrev pub with_status : Worker → ServiceStatus → Channel → Channel
with_status h s ch = record ch { service_status = s; service_changed_time = some h.now }

-- `agentUpdateServiceStatus`
unfoldable pub agent_update_service_status : Worker → JobType → Job → Action Channel
agent_update_service_status h ty j = do
  ch ← related_channel j ty
  let ch' = with_status h (agent_next_status ty ch.service_status) ch
  update_channel plain ch'
  pure ch'

-- `agentCooperativeClose`
unfoldable pub agent_cooperative_close : Worker → Job → Channel → Action (Unit {0})
agent_cooperative_close h j ch = do
  offer ← select_offering ch.offering
  agent ← select_account ch.agent
  hash ← refuse (h.to_hash offer.hash) parse_offering_hash
  client ← refuse (h.to_address ch.client) parse_eth_addr
  key ← key_of h agent
  sig ← refuse (h.sign_closing key client ch.block hash ch.receipt_balance) sign_closing_msg
  agent_addr ← refuse (h.to_address ch.agent) parse_eth_addr
  receipt ← refuse ch.receipt_signature no_receipt_signature
  receipt_sig ← refuse (h.to_bytes receipt) internal
  price ← refuse h.backend.suggest_gas_price internal
  tx ← transact h psc_cooperative_close (record {
    from = h.key_address key;
    gas_limit = some h.gas_conf.cooperative_close;
    gas_price = some price;
    call = cooperative_close agent_addr ch.block hash ch.receipt_balance receipt_sig sig;
  })
  save_eth_tx h j tx cooperative_close_tx j.related_type j.related_id agent.eth_addr
      (h.of_address h.psc_addr)

unfoldable pub agent_pre_service_suspend_job : Worker → Job → Action (Unit {0})
agent_pre_service_suspend_job h j =
    agent_update_service_status h agent_pre_service_suspend j >> pure tt

unfoldable pub agent_pre_service_unsuspend_job : Worker → Job → Action (Unit {0})
agent_pre_service_unsuspend_job h j =
    agent_update_service_status h agent_pre_service_unsuspend j >> pure tt

unfoldable pub agent_pre_service_terminate_job : Worker → Job → Action (Unit {0})
agent_pre_service_terminate_job h j = do
  ch ← agent_update_service_status h agent_pre_service_terminate j
  when (not (ch.receipt_balance == 0)) (agent_cooperative_close h j ch)

-- The status that a job of the client leads to.
unfoldable pub client_next_status : JobType → ServiceStatus → ServiceStatus
client_next_status client_pre_service_terminate ServiceStatus.active = terminating
client_next_status client_pre_service_terminate _ = terminated
client_next_status client_pre_service_suspend _ = suspending
client_next_status client_pre_service_unsuspend _ = activating
client_next_status _ s = s

-- `ClientPreServiceTerminate`, `ClientPreServiceSuspend` and `ClientPreServiceUnsuspend`.
unfoldable pub client_update_service_status : Worker → JobType → Job → Action (Unit {0})
client_update_service_status h ty j = do
  ch ← related_channel j ty
  save_record (with_status h (client_next_status ty ch.service_status) ch)

-- `CompleteServiceTransition`
unfoldable pub complete_service_transition_job : Worker → Job → Action (Unit {0})
complete_service_transition_job h j = do
  ch ← related_channel j complete_service_transition
  status ← refuse (payload_service_status j.payload) parse_job_data
  save_record (record ch { service_status = status })
