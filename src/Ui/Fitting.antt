-- ===== src/Ui/Fitting.antt =====
-- The jobs of the requests of the user interface fit their handlers.
use dappctrl.Base.{◌≡◌, ℕ, some}
use dappctrl.Data.{
  Uuid, HexString, Text, Job, RelatedType, client_pre_channel_top_up,
  client_pre_uncooperative_close_request, client_pre_channel_create, account_update_balances,
  increase_tx_gas_price, top_up, publish, create, balance, empty_object,
  pre_account_add_balance_approve, pre_account_return_balance, agent_pre_offering_msg_bc_publish,
  agent_pre_offering_pop_up, agent_pre_offering_delete,
}
use dappctrl.Store.{World}
use dappctrl.Ui.Env.{Handler}
use dappctrl.Ui.Channels.{top_up_channel, create_close_request}
use dappctrl.Ui.Offerings.{
  OfferingAction, publish_offering, popup_offering, deactivate_offering, other_action,
  change_offering_status,
}
use dappctrl.Ui.Accounts.{Destination, to_psc, to_ptc, elsewhere, transfer_tokens, update_balance}
use dappctrl.Ui.Market.{accept_offering}
use dappctrl.Ui.Records.{request_gas_price}
use dappctrl.Ui.Made.{IsFor, price_for, Gains}

-- What each request asks for.
abbrev pub IsTopUp : Handler → Uuid → ℕ → ℕ → Job → Type 0
IsTopUp h id deposit gas j =
    (price : ℕ) × ((price_for h gas ≡ some price)
      × IsFor client_pre_channel_top_up RelatedType.channel id (top_up price deposit) j)

abbrev pub IsClose : Handler → Uuid → Job → Type 0
IsClose h id j =
    (price : ℕ) × ((price_for h 0 ≡ some price)
      × IsFor client_pre_uncooperative_close_request RelatedType.channel id (publish price) j)

abbrev pub IsCreation : Handler → Uuid → ℕ → Job → Type 0
IsCreation h id gas j =
    (account chosen : ℕ) × IsFor client_pre_channel_create RelatedType.channel h.new_id
      (create account id gas chosen) j

abbrev pub IsChange : OfferingAction → Uuid → ℕ → Job → Type 0
IsChange publish_offering id gas =
    IsFor agent_pre_offering_msg_bc_publish RelatedType.offering id (publish gas)
IsChange popup_offering id gas =
    IsFor agent_pre_offering_pop_up RelatedType.offering id (publish gas)
IsChange deactivate_offering id gas =
    IsFor agent_pre_offering_delete RelatedType.offering id (publish gas)
IsChange other_action id gas = λ _. ⊥

abbrev pub IsTransfer : Destination → Uuid → ℕ → ℕ → Job → Type 0
IsTransfer to_psc id amount gas =
    IsFor pre_account_add_balance_approve RelatedType.account id (balance gas amount)
IsTransfer to_ptc id amount gas =
    IsFor pre_account_return_balance RelatedType.account id (balance gas amount)
IsTransfer elsewhere id amount gas = λ _. ⊥

-- Each request that only makes a job leaves the jobs as they were, or one more, which is its own.
pub record AllFitting (h : Handler) (tkn : Text) (w : World) : Type 0 where
  pub top_up :
      (id : Uuid) (deposit gas : ℕ)
      → Gains (IsTopUp h id deposit gas) w.db (top_up_channel h tkn id deposit gas w).1.db
  pub close : (id : Uuid) → Gains (IsClose h id) w.db (create_close_request h id w).1.db
  pub accept :
      (account : HexString) (id : Uuid) (deposit gas : ℕ)
      → Gains (IsCreation h id gas) w.db (accept_offering h tkn account id deposit gas w).1.db
  pub change :
      (id : Uuid) (a : OfferingAction) (gas : ℕ)
      → Gains (IsChange a id gas) w.db (change_offering_status h tkn id a gas w).1.db
  pub transfer :
      (id : Uuid) (dest : Destination) (amount gas : ℕ)
      → Gains (IsTransfer dest id amount gas) w.db (transfer_tokens h tkn id dest amount gas w).1.db
  pub update :
      (id : Uuid)
      → Gains
          (IsFor account_update_balances RelatedType.account id empty_object)
          w.db
          (update_balance h tkn id w).1.db
  pub raise_price :
      (id : Uuid) (gas : ℕ)
      → Gains
          (IsFor increase_tx_gas_price RelatedType.transaction id (publish gas))
          w.db
          (request_gas_price h tkn id gas w).1.db
