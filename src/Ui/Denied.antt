-- ===== src/Ui/Denied.antt =====
-- A request of the user interface with another token than the last one is refused.
use dappctrl.Base.{◌≡◌, refl, Bool, false, Option, List, ℕ, ◌==◌}
use dappctrl.Data.{
  OfferStatus, Uuid, HexString, Text, Product, Offering, ChannelStatus, ServiceStatus, SettingKey,
}
use dappctrl.Data.Error.{ui}
use dappctrl.Data.UiError.{access_denied}
use dappctrl.Store.{World, Action, require}
use dappctrl.Store.Frames.{Stops, >>=-Stops}
use dappctrl.Ui.Env.{Handler}
use dappctrl.Ui.Access.{check_token}
use dappctrl.Ui.Channels.{top_up_channel, change_channel_status, get_agent_channels, ChannelAction}
use dappctrl.Ui.Usage.{get_client_channels, get_channels_usage}
use dappctrl.Ui.Market.{
  get_client_offerings_filter_params, accept_offering, get_client_offerings, ping_offerings, Wanted,
}
use dappctrl.Ui.Offerings.{
  get_agent_offerings, change_offering_status, update_offering_row, create_offering, OfferingAction,
}
use dappctrl.Ui.Accounts.{
  suggest_gas_price_for, get_accounts, export_private_key, generate_account, import_account,
  transfer_tokens, update_balance, update_account, AccountParams, Destination,
}
use dappctrl.Ui.Records.{
  JobFilter, get_settings, get_product_usage, get_offering_usage, get_product_income,
  get_offering_income, get_products, get_endpoints, get_sessions, get_jobs, reactivate_job,
  get_eth_transactions, create_product, update_product, get_total_income, update_settings,
  set_gui_settings, TxFilter, uint_from_query,
}

abbrev Refused : {A : Type 0} → Action A → World → Type 0
Refused m w = Stops (ui access_denied) m w

-- The requests of the model that look at their token, with any arguments.
pub record AllRefused (h : Handler) (tkn : Text) (w : World) : Type 0 where
  pub top_up_channel_refused :
      (id : Uuid) (deposit gas : ℕ) → Refused (top_up_channel h tkn id deposit gas) w
  pub change_channel_status_refused :
      (id : Uuid) (a : ChannelAction) → Refused (change_channel_status h tkn id a) w
  pub get_agent_channels_refused :
      (cs : List ChannelStatus) (ss : List ServiceStatus) (offset limit : ℕ)
      → Refused (get_agent_channels h tkn cs ss offset limit) w
  pub get_client_channels_refused :
      (cs : List ChannelStatus) (ss : List ServiceStatus) (offset limit : ℕ)
      → Refused (get_client_channels h tkn cs ss offset limit) w
  pub get_channels_usage_refused : (ids : List Uuid) → Refused (get_channels_usage h tkn ids) w
  pub accept_offering_refused :
      (account : HexString) (id : Uuid) (deposit gas : ℕ)
      → Refused (accept_offering h tkn account id deposit gas) w
  pub get_client_offerings_refused :
      (q : Wanted) (offset limit : ℕ) → Refused (get_client_offerings h tkn q offset limit) w
  pub ping_offerings_refused : (ids : List Uuid) → Refused (ping_offerings h tkn ids) w
  pub change_offering_status_refused :
      (id : Uuid) (a : OfferingAction) (gas : ℕ) → Refused (change_offering_status h tkn id a gas) w
  pub update_offering_row_refused : (o : Offering) → Refused (update_offering_row h tkn o) w
  pub create_offering_refused : (o : Offering) → Refused (create_offering h tkn o) w
  pub export_private_key_refused : (id : Uuid) → Refused (export_private_key h tkn id) w
  pub generate_account_refused :
      (p : AccountParams) (made : Option ℕ) → Refused (generate_account h tkn p made) w
  pub import_account_refused :
      (p : AccountParams) (made : Option ℕ) → Refused (import_account h tkn p made) w
  pub transfer_tokens_refused :
      (id : Uuid) (dest : Destination) (amount gas : ℕ)
      → Refused (transfer_tokens h tkn id dest amount gas) w
  pub update_balance_refused : (id : Uuid) → Refused (update_balance h tkn id) w
  pub update_account_refused :
      (id : Uuid) (name : Text) (is_default in_use : Bool)
      → Refused (update_account h tkn id name is_default in_use) w
  pub reactivate_job_refused : (id : Uuid) → Refused (reactivate_job h tkn id) w
  pub get_eth_transactions_refused :
      (q : TxFilter) (offset limit : ℕ) → Refused (get_eth_transactions h tkn q offset limit) w
  pub create_product_refused : (p : Product) → Refused (create_product h tkn p) w
  pub update_product_refused : (p : Product) → Refused (update_product h tkn p) w
  pub get_total_income_refused : Refused (get_total_income h tkn) w
  pub update_settings_refused :
      (items : List (SettingKey × Text)) → Refused (update_settings h tkn items) w
  pub set_gui_settings_refused : (v : Text) → Refused (set_gui_settings h tkn v) w
  pub get_agent_offerings_refused :
      (product : Uuid) (ss : List OfferStatus) (offset limit : ℕ)
      → Refused (get_agent_offerings h tkn product ss offset limit) w
  pub get_client_offerings_filter_params_refused :
      Refused (get_client_offerings_filter_params h tkn) w
  pub get_accounts_refused : Refused (get_accounts h tkn) w
  pub suggest_gas_price_for_refused : Refused (suggest_gas_price_for h tkn) w
  pub get_jobs_refused :
      (q : JobFilter) (offset limit : ℕ) → Refused (get_jobs h tkn q offset limit) w
  pub get_sessions_refused : (channel : Uuid) → Refused (get_sessions h tkn channel) w
  pub get_endpoints_refused :
      (channel template : Uuid) → Refused (get_endpoints h tkn channel template) w
  pub get_products_refused : Refused (get_products h tkn) w
  pub get_offering_income_refused : (id : Uuid) → Refused (get_offering_income h tkn id) w
  pub get_product_income_refused : (id : Uuid) → Refused (get_product_income h tkn id) w
  pub get_offering_usage_refused : (id : Uuid) → Refused (get_offering_usage h tkn id) w
  pub get_product_usage_refused : (id : Uuid) → Refused (get_product_usage h tkn id) w
  pub get_settings_refused : Refused (get_settings h tkn) w

check_token-Stops :
    (h : Handler) (tkn : Text) (w : World)
    → (tkn == h.memory.token) ≡ false
    → Refused (check_token h tkn) w
unfolding check_token require
check_token-Stops h tkn w e = rw e refl

-- Each of these requests with another token than the one that was made last is refused, and
-- nothing is asked of the database, written or handed to the queue: so are the requests that
-- change channels, offerings, accounts, products, settings and jobs, the one for private keys, and
-- those that read them. Not among them are the request for a higher gas price, which does not look
-- at its token, and those that are not modelled: for templates, objects, logs, changes of objects,
-- the settings of the graphical interface and the last block.
pub requests-AllRefused :
    (h : Handler) (tkn : Text) (w : World) → (tkn == h.memory.token) ≡ false → AllRefused h tkn w
unfolding top_up_channel change_channel_status get_agent_channels get_client_channels
    get_channels_usage accept_offering get_client_offerings ping_offerings change_offering_status
    update_offering_row create_offering export_private_key generate_account import_account
    transfer_tokens update_balance update_account reactivate_job get_eth_transactions create_product
    update_product get_total_income update_settings set_gui_settings get_agent_offerings
    get_client_offerings_filter_params get_accounts suggest_gas_price_for get_jobs get_sessions
    get_endpoints get_products get_offering_income get_product_income get_offering_usage
    get_product_usage get_settings uint_from_query
requests-AllRefused h tkn w e = record {
  top_up_channel_refused = λ _ _ _. >>=-Stops _ _ _ w (check_token-Stops h tkn w e);
  change_channel_status_refused = λ _ _. >>=-Stops _ _ _ w (check_token-Stops h tkn w e);
  get_agent_channels_refused = λ _ _ _ _. >>=-Stops _ _ _ w (check_token-Stops h tkn w e);
  get_client_channels_refused = λ _ _ _ _. >>=-Stops _ _ _ w (check_token-Stops h tkn w e);
  get_channels_usage_refused = λ _. >>=-Stops _ _ _ w (check_token-Stops h tkn w e);
  accept_offering_refused = λ _ _ _ _. >>=-Stops _ _ _ w (check_token-Stops h tkn w e);
  get_client_offerings_refused = λ _ _ _. >>=-Stops _ _ _ w (check_token-Stops h tkn w e);
  ping_offerings_refused = λ _. >>=-Stops _ _ _ w (check_token-Stops h tkn w e);
  change_offering_status_refused = λ _ _ _. >>=-Stops _ _ _ w (check_token-Stops h tkn w e);
  update_offering_row_refused = λ _. >>=-Stops _ _ _ w (check_token-Stops h tkn w e);
  create_offering_refused = λ _. >>=-Stops _ _ _ w (check_token-Stops h tkn w e);
  export_private_key_refused = λ _. >>=-Stops _ _ _ w (check_token-Stops h tkn w e);
  generate_account_refused = λ _ _. >>=-Stops _ _ _ w (check_token-Stops h tkn w e);
  import_account_refused = λ _ _. >>=-Stops _ _ _ w (check_token-Stops h tkn w e);
  transfer_tokens_refused = λ _ _ _ _. >>=-Stops _ _ _ w (check_token-Stops h tkn w e);
  update_balance_refused = λ _. >>=-Stops _ _ _ w (check_token-Stops h tkn w e);
  update_account_refused = λ _ _ _ _. >>=-Stops _ _ _ w (check_token-Stops h tkn w e);
  reactivate_job_refused = λ _. >>=-Stops _ _ _ w (check_token-Stops h tkn w e);
  get_eth_transactions_refused = λ _ _ _. >>=-Stops _ _ _ w (check_token-Stops h tkn w e);
  create_product_refused = λ _. >>=-Stops _ _ _ w (check_token-Stops h tkn w e);
  update_product_refused = λ _. >>=-Stops _ _ _ w (check_token-Stops h tkn w e);
  get_total_income_refused = >>=-Stops _ _ _ w (check_token-Stops h tkn w e);
  update_settings_refused = λ _. >>=-Stops _ _ _ w (check_token-Stops h tkn w e);
  set_gui_settings_refused = λ _. >>=-Stops _ _ _ w (check_token-Stops h tkn w e);
  get_agent_offerings_refused = λ _ _ _ _. >>=-Stops _ _ _ w (check_token-Stops h tkn w e);
  get_client_offerings_filter_params_refused = >>=-Stops _ _ _ w (check_token-Stops h tkn w e);
  get_accounts_refused = >>=-Stops _ _ _ w (check_token-Stops h tkn w e);
  suggest_gas_price_for_refused = >>=-Stops _ _ _ w (check_token-Stops h tkn w e);
  get_jobs_refused = λ _ _ _. >>=-Stops _ _ _ w (check_token-Stops h tkn w e);
  get_sessions_refused = λ _. >>=-Stops _ _ _ w (check_token-Stops h tkn w e);
  get_endpoints_refused = λ _ _. >>=-Stops _ _ _ w (check_token-Stops h tkn w e);
  get_products_refused = >>=-Stops _ _ _ w (check_token-Stops h tkn w e);
  get_offering_income_refused = λ _. >>=-Stops _ _ _ w (check_token-Stops h tkn w e);
  get_product_income_refused = λ _. >>=-Stops _ _ _ w (check_token-Stops h tkn w e);
  get_offering_usage_refused = λ _. >>=-Stops _ _ _ w (check_token-Stops h tkn w e);
  get_product_usage_refused = λ _. >>=-Stops _ _ _ w (check_token-Stops h tkn w e);
  get_settings_refused = >>=-Stops _ _ _ w (check_token-Stops h tkn w e);
}
