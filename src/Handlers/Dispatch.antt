-- ===== src/Handlers/Dispatch.antt =====
-- A job that is not for what its handler handles is refused before anything is done.
use dappctrl.Base.{◌≡◌, refl, true, false, some, subst, sym, inl, inr, Bool-cases}
use dappctrl.Data.{
  Job, JobType, RelatedType, related_type_eq, Offering, job_type_eq, invalid_job,
  agent_after_channel_create, agent_after_channel_top_up, agent_after_uncooperative_close_request,
  agent_after_uncooperative_close, agent_after_cooperative_close, agent_pre_service_suspend,
  agent_pre_service_unsuspend, agent_pre_service_terminate, agent_pre_endpoint_msg_create,
  agent_pre_offering_msg_bc_publish, agent_after_offering_msg_bc_publish, agent_pre_offering_pop_up,
  agent_after_offering_pop_up, agent_pre_offering_delete, agent_after_offering_delete,
  client_after_offering_delete, client_after_offering_pop_up, client_pre_channel_create,
  client_after_channel_create, client_endpoint_get, client_after_uncooperative_close,
  client_after_cooperative_close, client_pre_uncooperative_close, client_pre_channel_top_up,
  client_after_channel_top_up, client_pre_uncooperative_close_request,
  client_after_uncooperative_close_request, client_pre_service_terminate,
  client_pre_service_suspend, client_pre_service_unsuspend, client_after_offering_msg_bc_publish,
  complete_service_transition, client_record_closing, pre_account_add_balance_approve,
  after_account_add_balance_approve, pre_account_add_balance, after_account_add_balance,
  pre_account_return_balance, after_account_return_balance, account_update_balances,
  decrement_current_supply, increment_current_supply, increase_tx_gas_price,
}
use dappctrl.Data.Error.{worker}
use dappctrl.Store.{World, err, Action, ◌>>=◌, attempt, require, raise}
use dappctrl.Store.Frames.{Stops, >>=-Stops}
use dappctrl.Handlers.Env.{Worker}
use dappctrl.Handlers.Select.{
  is_job_invalid, check_job, related_channel, related_offering, related_account,
}
use dappctrl.Handlers.Misc.{update_account_balances_job, update_related_offering}
use dappctrl.Handlers.Service.{
  agent_update_service_status, agent_pre_service_suspend_job, agent_pre_service_terminate_job,
  agent_pre_service_unsuspend_job, client_update_service_status, complete_service_transition_job,
}
use dappctrl.Handlers.Channels.{
  agent_after_channel_create_job, after_channel_top_up, agent_after_uncooperative_close_request_job,
  agent_after_uncooperative_close_job, agent_after_cooperative_close_job,
  client_after_uncooperative_close_job, client_after_cooperative_close_job,
}
use dappctrl.Handlers.Account.{
  account_update_balances_job, after_account_add_balance_approve_job, after_account_add_balance_job,
  after_account_return_balance_job, pre_account_add_balance_approve_job,
  pre_account_add_balance_job, pre_account_return_balance_job,
}
use dappctrl.Handlers.Offering.{
  agent_after_offering_delete_job, agent_after_offering_msg_bc_publish_job,
  agent_after_offering_pop_up_job, agent_pre_endpoint_msg_create_job, agent_pre_offering_delete_job,
  agent_pre_offering_msg_bc_publish_job, agent_pre_offering_pop_up_job,
}
use dappctrl.Handlers.Client.{
  client_pre_channel_create_job, client_pre_channel_top_up_job,
  client_pre_uncooperative_close_request_job, client_after_uncooperative_close_request_job,
  client_pre_uncooperative_close_job,
}
use dappctrl.Handlers.Fetch.{
  client_after_channel_create_job, client_endpoint_get_job,
  client_after_offering_msg_bc_publish_job, client_after_offering_pop_up_job,
  client_after_offering_delete_job,
}
use dappctrl.Handlers.Supply.{
  skip_unknown, decrement_current_supply_job, increment_current_supply_job,
}
use dappctrl.Handlers.Ratings.{client_record_closing_job}
use dappctrl.Handlers.Resend.{increase_tx_gas_price_job}
use dappctrl.Handlers.Table.{handler_of, checked_kind}

-- What a refused job ends in.
abbrev Refused : {A : Type 0} → Action A → World → Type 0
Refused m w = Stops (worker invalid_job) m w

skip_unknown-fails :
    (m : Action Offering) (f : Offering → Action (Unit {0})) (w : World)
    → Refused m w
    → Refused (attempt m >>= skip_unknown f) w
unfolding ◌>>=◌ attempt raise
skip_unknown-fails m f w e = rw e refl

-- The related type is another one than the handler's.
is_job_invalid_for :
    (j : Job) (ty : JobType) (rel : RelatedType)
    → related_type_eq j.related_type rel ≡ false
    → is_job_invalid j ty rel ≡ true
unfolding is_job_invalid
is_job_invalid_for j ty rel x = elim (Bool-cases (job_type_eq j.type ty)) [
  | inl t ↦ rw t (rw x refl)
  | inr f ↦ rw f refl
]

related_wrong :
    (j : Job) (ty : JobType) (rel other : RelatedType)
    → some rel ≡ some other
    → related_type_eq j.related_type other ≡ false
    → is_job_invalid j ty rel ≡ true
related_wrong j ty rel other k x =
    is_job_invalid_for j ty rel (subst (λ r. related_type_eq j.related_type r ≡ false) (sym (cc)) x)

module _ (j : Job) (ty : JobType) where
  check_job-fails :
      (rel : RelatedType) (w : World)
      → is_job_invalid j ty rel ≡ true
      → Refused (check_job j ty rel) w
  unfolding check_job require
  check_job-fails rel w e = rw e refl

  related_channel-fails :
      (w : World)
      → is_job_invalid j ty RelatedType.channel ≡ true
      → Refused (related_channel j ty) w
  unfolding related_channel
  related_channel-fails w e = >>=-Stops _ _ _ w (check_job-fails _ w e)

  related_offering-fails :
      (w : World)
      → is_job_invalid j ty RelatedType.offering ≡ true
      → Refused (related_offering j ty) w
  unfolding related_offering
  related_offering-fails w e = >>=-Stops _ _ _ w (check_job-fails _ w e)

  related_account-fails :
      (w : World)
      → is_job_invalid j ty RelatedType.account ≡ true
      → Refused (related_account j ty) w
  unfolding related_account
  related_account-fails w e = >>=-Stops _ _ _ w (check_job-fails _ w e)

refused :
    (h : Worker) (j : Job) (w : World) (ty : JobType) (rel : RelatedType)
    → checked_kind ty ≡ some rel
    → related_type_eq j.related_type rel ≡ false
    → Refused (handler_of h ty j) w
unfolding handler_of update_account_balances_job update_related_offering agent_update_service_status
    account_update_balances_job after_account_add_balance_approve_job after_account_add_balance_job
    after_account_return_balance_job after_channel_top_up agent_after_channel_create_job
    agent_after_cooperative_close_job agent_after_offering_delete_job
    agent_after_offering_msg_bc_publish_job agent_after_offering_pop_up_job
    agent_after_uncooperative_close_job agent_after_uncooperative_close_request_job
    agent_pre_endpoint_msg_create_job agent_pre_offering_delete_job
    agent_pre_offering_msg_bc_publish_job agent_pre_offering_pop_up_job
    agent_pre_service_suspend_job agent_pre_service_terminate_job agent_pre_service_unsuspend_job
    client_after_channel_create_job client_after_cooperative_close_job
    client_after_offering_delete_job client_after_offering_msg_bc_publish_job
    client_after_offering_pop_up_job client_after_uncooperative_close_job
    client_after_uncooperative_close_request_job client_endpoint_get_job
    client_pre_channel_create_job client_pre_channel_top_up_job client_pre_uncooperative_close_job
    client_pre_uncooperative_close_request_job client_record_closing_job
    client_update_service_status complete_service_transition_job decrement_current_supply_job
    increase_tx_gas_price_job increment_current_supply_job pre_account_add_balance_approve_job
    pre_account_add_balance_job pre_account_return_balance_job
refused h j w agent_after_channel_create rel k x = >>=-Stops _ _ _ w (
    >>=-Stops _ _ _ w
      (check_job-fails j agent_after_channel_create _ w (related_wrong j _ _ rel k x)))
refused h j w agent_after_channel_top_up rel k x = >>=-Stops _ _ _ w (
    >>=-Stops _ _ _ w
      (related_channel-fails j agent_after_channel_top_up w (related_wrong j _ _ rel k x)))
refused h j w agent_after_uncooperative_close_request rel k x = >>=-Stops _ _ _ w (
    >>=-Stops _ _ _ w (
      related_channel-fails j agent_after_uncooperative_close_request w
        (related_wrong j _ _ rel k x)))
refused h j w agent_after_uncooperative_close rel k x = >>=-Stops _ _ _ w (
    >>=-Stops _ _ _ w
      (related_channel-fails j agent_after_uncooperative_close w (related_wrong j _ _ rel k x)))
refused h j w agent_after_cooperative_close rel k x = >>=-Stops _ _ _ w (
    >>=-Stops _ _ _ w
      (related_channel-fails j agent_after_cooperative_close w (related_wrong j _ _ rel k x)))
refused h j w agent_pre_service_suspend rel k x = >>=-Stops _ _ _ w (
    >>=-Stops _ _ _ w (
      >>=-Stops _ _ _ w
        (related_channel-fails j agent_pre_service_suspend w (related_wrong j _ _ rel k x))))
refused h j w agent_pre_service_unsuspend rel k x = >>=-Stops _ _ _ w (
    >>=-Stops _ _ _ w (
      >>=-Stops _ _ _ w
        (related_channel-fails j agent_pre_service_unsuspend w (related_wrong j _ _ rel k x))))
refused h j w agent_pre_service_terminate rel k x = >>=-Stops _ _ _ w (
    >>=-Stops _ _ _ w (
      >>=-Stops _ _ _ w
        (related_channel-fails j agent_pre_service_terminate w (related_wrong j _ _ rel k x))))
refused h j w agent_pre_endpoint_msg_create rel k x = >>=-Stops _ _ _ w (
    >>=-Stops _ _ _ w
      (related_channel-fails j agent_pre_endpoint_msg_create w (related_wrong j _ _ rel k x)))
refused h j w agent_pre_offering_msg_bc_publish rel k x = >>=-Stops _ _ _ w (
    >>=-Stops _ _ _ w
      (related_offering-fails j agent_pre_offering_msg_bc_publish w (related_wrong j _ _ rel k x)))
refused h j w agent_after_offering_msg_bc_publish rel k x = >>=-Stops _ _ _ w (
    >>=-Stops _ _ _ w (
      related_offering-fails j agent_after_offering_msg_bc_publish w (related_wrong j _ _ rel k x)))
refused h j w agent_pre_offering_pop_up rel k x = >>=-Stops _ _ _ w (
    >>=-Stops _ _ _ w
      (related_offering-fails j agent_pre_offering_pop_up w (related_wrong j _ _ rel k x)))
refused h j w agent_after_offering_pop_up rel k x = absurd cc
refused h j w agent_pre_offering_delete rel k x = >>=-Stops _ _ _ w (
    >>=-Stops _ _ _ w
      (related_offering-fails j agent_pre_offering_delete w (related_wrong j _ _ rel k x)))
refused h j w agent_after_offering_delete rel k x = >>=-Stops _ _ _ w (
    >>=-Stops _ _ _ w
      (related_offering-fails j agent_after_offering_delete w (related_wrong j _ _ rel k x)))
refused h j w client_after_offering_delete rel k x = >>=-Stops _ _ _ w (
    >>=-Stops _ _ _ w
      (related_offering-fails j client_after_offering_delete w (related_wrong j _ _ rel k x)))
refused h j w client_after_offering_pop_up rel k x = absurd cc
refused h j w client_pre_channel_create rel k x = absurd cc
refused h j w client_after_channel_create rel k x = >>=-Stops _ _ _ w (
    >>=-Stops _ _ _ w
      (related_channel-fails j client_after_channel_create w (related_wrong j _ _ rel k x)))
refused h j w client_endpoint_get rel k x = >>=-Stops _ _ _ w (
    >>=-Stops _ _ _ w (related_channel-fails j client_endpoint_get w (related_wrong j _ _ rel k x)))
refused h j w client_after_uncooperative_close rel k x = >>=-Stops _ _ _ w (
    >>=-Stops _ _ _ w
      (related_channel-fails j client_after_uncooperative_close w (related_wrong j _ _ rel k x)))
refused h j w client_after_cooperative_close rel k x = >>=-Stops _ _ _ w (
    >>=-Stops _ _ _ w
      (related_channel-fails j client_after_cooperative_close w (related_wrong j _ _ rel k x)))
refused h j w client_pre_uncooperative_close rel k x = absurd cc
refused h j w client_pre_channel_top_up rel k x = >>=-Stops _ _ _ w (
    >>=-Stops _ _ _ w
      (related_channel-fails j client_pre_channel_top_up w (related_wrong j _ _ rel k x)))
refused h j w client_after_channel_top_up rel k x = >>=-Stops _ _ _ w (
    >>=-Stops _ _ _ w
      (related_channel-fails j client_after_channel_top_up w (related_wrong j _ _ rel k x)))
refused h j w client_pre_uncooperative_close_request rel k x = >>=-Stops _ _ _ w (
    >>=-Stops _ _ _ w (
      related_channel-fails j client_pre_uncooperative_close_request w
        (related_wrong j _ _ rel k x)))
refused h j w client_after_uncooperative_close_request rel k x = >>=-Stops _ _ _ w (
    >>=-Stops _ _ _ w (
      related_channel-fails j client_after_uncooperative_close_request w
        (related_wrong j _ _ rel k x)))
refused h j w client_pre_service_terminate rel k x = >>=-Stops _ _ _ w (
    >>=-Stops _ _ _ w
      (related_channel-fails j client_pre_service_terminate w (related_wrong j _ _ rel k x)))
refused h j w client_pre_service_suspend rel k x = >>=-Stops _ _ _ w (
    >>=-Stops _ _ _ w
      (related_channel-fails j client_pre_service_suspend w (related_wrong j _ _ rel k x)))
refused h j w client_pre_service_unsuspend rel k x = >>=-Stops _ _ _ w (
    >>=-Stops _ _ _ w
      (related_channel-fails j client_pre_service_unsuspend w (related_wrong j _ _ rel k x)))
refused h j w client_after_offering_msg_bc_publish rel k x = absurd cc
refused h j w complete_service_transition rel k x = >>=-Stops _ _ _ w (
    >>=-Stops _ _ _ w
      (related_channel-fails j complete_service_transition w (related_wrong j _ _ rel k x)))
refused h j w client_record_closing rel k x = absurd cc
refused h j w pre_account_add_balance_approve rel k x = >>=-Stops _ _ _ w (
    >>=-Stops _ _ _ w
      (related_account-fails j pre_account_add_balance_approve w (related_wrong j _ _ rel k x)))
refused h j w after_account_add_balance_approve rel k x = >>=-Stops _ _ _ w (
    >>=-Stops _ _ _ w
      (related_account-fails j after_account_add_balance_approve w (related_wrong j _ _ rel k x)))
refused h j w pre_account_add_balance rel k x = >>=-Stops _ _ _ w (
    >>=-Stops _ _ _ w
      (related_account-fails j pre_account_add_balance w (related_wrong j _ _ rel k x)))
refused h j w after_account_add_balance rel k x = >>=-Stops _ _ _ w (
    >>=-Stops _ _ _ w
      (related_account-fails j after_account_add_balance w (related_wrong j _ _ rel k x)))
refused h j w pre_account_return_balance rel k x = >>=-Stops _ _ _ w (
    >>=-Stops _ _ _ w
      (related_account-fails j pre_account_return_balance w (related_wrong j _ _ rel k x)))
refused h j w after_account_return_balance rel k x = >>=-Stops _ _ _ w (
    >>=-Stops _ _ _ w
      (related_account-fails j after_account_return_balance w (related_wrong j _ _ rel k x)))
refused h j w account_update_balances rel k x = >>=-Stops _ _ _ w (
    >>=-Stops _ _ _ w
      (related_account-fails j account_update_balances w (related_wrong j _ _ rel k x)))
refused h j w decrement_current_supply rel k x = >>=-Stops _ _ _ w (
    skip_unknown-fails _ _ w
      (related_offering-fails j decrement_current_supply w (related_wrong j _ _ rel k x)))
refused h j w increment_current_supply rel k x = >>=-Stops _ _ _ w (
    skip_unknown-fails _ _ w
      (related_offering-fails j increment_current_supply w (related_wrong j _ _ rel k x)))
refused h j w increase_tx_gas_price rel k x =
    >>=-Stops _ _ _ w (
      >>=-Stops _ _ _ w (check_job-fails j increase_tx_gas_price _ w (related_wrong j _ _ rel k x)))

-- The handler of a type whose handler asks for a job's kind refuses a job that is for another kind
-- as invalid, and leaves the world as it was: nothing is asked of the database, written or sent.
pub handler_of-invalid :
    (h : Worker) (j : Job) (w : World) (ty : JobType) (rel : RelatedType)
    → checked_kind ty ≡ some rel
    → related_type_eq j.related_type rel ≡ false
    → handler_of h ty j w ≡ (err (worker invalid_job), w)
handler_of-invalid h j w ty rel k x = refused h j w ty rel k x
