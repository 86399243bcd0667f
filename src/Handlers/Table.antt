-- ===== src/Handlers/Table.antt =====
-- proc/handlers/job.go: the handler of each type of job.
use dappctrl.Base.{Option, none, some}
use dappctrl.Data.{
  Job, JobType, RelatedType, agent_after_channel_create, agent_after_channel_top_up,
  agent_after_uncooperative_close_request, agent_after_uncooperative_close,
  agent_after_cooperative_close, agent_pre_service_suspend, agent_pre_service_unsuspend,
  agent_pre_service_terminate, agent_pre_endpoint_msg_create, agent_pre_offering_msg_bc_publish,
  agent_after_offering_msg_bc_publish, agent_pre_offering_pop_up, agent_after_offering_pop_up,
  agent_pre_offering_delete, agent_after_offering_delete, client_after_offering_delete,
  client_after_offering_pop_up, client_pre_channel_create, client_after_channel_create,
  client_endpoint_get, client_after_uncooperative_close, client_after_cooperative_close,
  client_pre_uncooperative_close, client_pre_channel_top_up, client_after_channel_top_up,
  client_pre_uncooperative_close_request, client_after_uncooperative_close_request,
  client_pre_service_terminate, client_pre_service_suspend, client_pre_service_unsuspend,
  client_after_offering_msg_bc_publish, complete_service_transition, client_record_closing,
  pre_account_add_balance_approve, after_account_add_balance_approve, pre_account_add_balance,
  after_account_add_balance, pre_account_return_balance, after_account_return_balance,
  account_update_balances, decrement_current_supply, increment_current_supply,
  increase_tx_gas_price,
}
use dappctrl.Store.{Action, ◌>>=◌, pure}
use dappctrl.Handlers.Env.{Worker}
use dappctrl.Handlers.Service.{
  agent_pre_service_suspend_job, agent_pre_service_terminate_job, agent_pre_service_unsuspend_job,
  client_update_service_status, complete_service_transition_job,
}
use dappctrl.Handlers.Channels.{
  agent_after_channel_create_job, after_channel_top_up, agent_after_uncooperative_close_request_job,
  agent_after_uncooperative_close_job, agent_after_cooperative_close_job,
  client_after_uncooperative_close_job, client_after_cooperative_close_job,
}
use dappctrl.Handlers.Account.{
  account_update_balances_job, after_account_add_balance_approve_job, after_account_add_balance_job,
  after_account_return_balance_job, pre_account_add_balance_approve_job,
  pre_account_add_balance_job, pre_account_return_balance_job,
}
use dappctrl.Handlers.Offering.{
  agent_after_offering_delete_job, agent_after_offering_msg_bc_publish_job,
  agent_after_offering_pop_up_job, agent_pre_endpoint_msg_create_job, agent_pre_offering_delete_job,
  agent_pre_offering_msg_bc_publish_job, agent_pre_offering_pop_up_job,
}
use dappctrl.Handlers.Client.{
  client_pre_channel_create_job, client_pre_channel_top_up_job,
  client_pre_uncooperative_close_request_job, client_after_uncooperative_close_request_job,
  client_pre_uncooperative_close_job,
}
use dappctrl.Handlers.Fetch.{
  client_after_channel_create_job, client_endpoint_get_job,
  client_after_offering_msg_bc_publish_job, client_after_offering_pop_up_job,
  client_after_offering_delete_job,
}
use dappctrl.Handlers.Supply.{decrement_current_supply_job, increment_current_supply_job}
use dappctrl.Handlers.Ratings.{client_record_closing_job}
use dappctrl.Handlers.Resend.{increase_tx_gas_price_job}

-- Most handlers leave the job itself as it is.
abbrev pub unchanged : Action (Unit {0}) → Job → Action Job
unchanged m j = m >>= λ _. pure j

-- `HandlersMap`: the result of a handler is the job as the handler leaves it.
unfoldable pub handler_of : Worker → JobType → Job → Action Job
handler_of h agent_after_channel_create j = unchanged (agent_after_channel_create_job h j) j
handler_of h agent_after_channel_top_up j =
    unchanged (after_channel_top_up h agent_after_channel_top_up j) j
handler_of h agent_after_uncooperative_close_request j =
    unchanged (agent_after_uncooperative_close_request_job h j) j
handler_of h agent_after_uncooperative_close j =
    unchanged (agent_after_uncooperative_close_job h j) j
handler_of h agent_after_cooperative_close j = unchanged (agent_after_cooperative_close_job h j) j
handler_of h agent_pre_service_suspend j = unchanged (agent_pre_service_suspend_job h j) j
handler_of h agent_pre_service_unsuspend j = unchanged (agent_pre_service_unsuspend_job h j) j
handler_of h agent_pre_service_terminate j = unchanged (agent_pre_service_terminate_job h j) j
handler_of h agent_pre_endpoint_msg_create j = unchanged (agent_pre_endpoint_msg_create_job h j) j
handler_of h agent_pre_offering_msg_bc_publish j =
    unchanged (agent_pre_offering_msg_bc_publish_job h j) j
handler_of h agent_after_offering_msg_bc_publish j =
    unchanged (agent_after_offering_msg_bc_publish_job h j) j
handler_of h agent_pre_offering_pop_up j = unchanged (agent_pre_offering_pop_up_job h j) j
handler_of h agent_after_offering_pop_up j = unchanged (agent_after_offering_pop_up_job h j) j
handler_of h agent_pre_offering_delete j = unchanged (agent_pre_offering_delete_job h j) j
handler_of h agent_after_offering_delete j = unchanged (agent_after_offering_delete_job h j) j
handler_of h client_after_offering_delete j = unchanged (client_after_offering_delete_job h j) j
handler_of h client_after_offering_pop_up j = client_after_offering_pop_up_job h j
handler_of h client_pre_channel_create j = unchanged (client_pre_channel_create_job h j) j
handler_of h client_after_channel_create j = unchanged (client_after_channel_create_job h j) j
handler_of h client_endpoint_get j = unchanged (client_endpoint_get_job h j) j
handler_of h client_after_uncooperative_close j =
    unchanged (client_after_uncooperative_close_job h j) j
handler_of h client_after_cooperative_close j = unchanged (client_after_cooperative_close_job h j) j
handler_of h client_pre_uncooperative_close j = client_pre_uncooperative_close_job h j
handler_of h client_pre_channel_top_up j = unchanged (client_pre_channel_top_up_job h j) j
handler_of h client_after_channel_top_up j =
    unchanged (after_channel_top_up h client_after_channel_top_up j) j
handler_of h client_pre_uncooperative_close_request j =
    unchanged (client_pre_uncooperative_close_request_job h j) j
handler_of h client_after_uncooperative_close_request j =
    unchanged (client_after_uncooperative_close_request_job h j) j
handler_of h client_pre_service_terminate j =
    unchanged (client_update_service_status h client_pre_service_terminate j) j
handler_of h client_pre_service_suspend j =
    unchanged (client_update_service_status h client_pre_service_suspend j) j
handler_of h client_pre_service_unsuspend j =
    unchanged (client_update_service_status h client_pre_service_unsuspend j) j
handler_of h client_after_offering_msg_bc_publish j = client_after_offering_msg_bc_publish_job h j
handler_of h complete_service_transition j = unchanged (complete_service_transition_job h j) j
handler_of h client_record_closing j = unchanged (client_record_closing_job h j) j
handler_of h pre_account_add_balance_approve j =
    unchanged (pre_account_add_balance_approve_job h j) j
handler_of h after_account_add_balance_approve j =
    unchanged (after_account_add_balance_approve_job h j) j
handler_of h pre_account_add_balance j = unchanged (pre_account_add_balance_job h j) j
handler_of h after_account_add_balance j = unchanged (after_account_add_balance_job h j) j
handler_of h pre_account_return_balance j = unchanged (pre_account_return_balance_job h j) j
handler_of h after_account_return_balance j = unchanged (after_account_return_balance_job h j) j
handler_of h account_update_balances j = unchanged (account_update_balances_job h j) j
handler_of h decrement_current_supply j = unchanged (decrement_current_supply_job h j) j
handler_of h increment_current_supply j = unchanged (increment_current_supply_job h j) j
handler_of h increase_tx_gas_price j = unchanged (increase_tx_gas_price_job h j) j

-- What the handler of a type asks a job to be for, before all else; none where it asks nothing.
abbrev pub checked_kind : JobType → Option RelatedType
checked_kind agent_after_channel_create = some RelatedType.channel
checked_kind agent_after_channel_top_up = some RelatedType.channel
checked_kind agent_after_uncooperative_close_request = some RelatedType.channel
checked_kind agent_after_uncooperative_close = some RelatedType.channel
checked_kind agent_after_cooperative_close = some RelatedType.channel
checked_kind agent_pre_service_suspend = some RelatedType.channel
checked_kind agent_pre_service_unsuspend = some RelatedType.channel
checked_kind agent_pre_service_terminate = some RelatedType.channel
checked_kind agent_pre_endpoint_msg_create = some RelatedType.channel
checked_kind agent_pre_offering_msg_bc_publish = some RelatedType.offering
checked_kind agent_after_offering_msg_bc_publish = some RelatedType.offering
checked_kind agent_pre_offering_pop_up = some RelatedType.offering
checked_kind agent_after_offering_pop_up = none
checked_kind agent_pre_offering_delete = some RelatedType.offering
checked_kind agent_after_offering_delete = some RelatedType.offering
checked_kind client_after_offering_delete = some RelatedType.offering
checked_kind client_after_offering_pop_up = none
checked_kind client_pre_channel_create = none
checked_kind client_after_channel_create = some RelatedType.channel
checked_kind client_endpoint_get = some RelatedType.channel
checked_kind client_after_uncooperative_close = some RelatedType.channel
checked_kind client_after_cooperative_close = some RelatedType.channel
checked_kind client_pre_uncooperative_close = none
checked_kind client_pre_channel_top_up = some RelatedType.channel
checked_kind client_after_channel_top_up = some RelatedType.channel
checked_kind client_pre_uncooperative_close_request = some RelatedType.channel
checked_kind client_after_uncooperative_close_request = some RelatedType.channel
checked_kind client_pre_service_terminate = some RelatedType.channel
checked_kind client_pre_service_suspend = some RelatedType.channel
checked_kind client_pre_service_unsuspend = some RelatedType.channel
checked_kind client_after_offering_msg_bc_publish = none
checked_kind complete_service_transition = some RelatedType.channel
checked_kind client_record_closing = none
checked_kind pre_account_add_balance_approve = some RelatedType.account
checked_kind after_account_add_balance_approve = some RelatedType.account
checked_kind pre_account_add_balance = some RelatedType.account
checked_kind after_account_add_balance = some RelatedType.account
checked_kind pre_account_return_balance = some RelatedType.account
checked_kind after_account_return_balance = some RelatedType.account
checked_kind account_update_balances = some RelatedType.account
checked_kind decrement_current_supply = some RelatedType.offering
checked_kind increment_current_supply = some RelatedType.offering
checked_kind increase_tx_gas_price = some RelatedType.transaction
