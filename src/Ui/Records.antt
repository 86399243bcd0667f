-- ===== src/Ui/Records.antt =====
-- ui/jobs.go, ui/eth_tx.go, ui/session.go, ui/endpoint.go, ui/product.go, ui/income.go, ui/usage.go,
-- ui/setting.go and ui/gui.go: rows that the user reads and changes.
use dappctrl.Base.{
  ℕ, ◌+◌, ◌^◌, Bool, true, false, not, ◌&&◌, ◌||◌, Option, none, some, List, [], ◌∷◌, any, find?,
  select, length, ◌==◌, ltb, leb, if◌then◌else◌, update_where,
}
use dappctrl.Data.{
  Uuid, Text, Instant, Product, Session, Endpoint, Channel, Offering, Job, JobType, JobStatus,
  job_type_eq, job_status_eq, RelatedType, related_type_eq, EthTx, publish, increase_tx_gas_price,
  Setting, SettingKey, setting_key_eq, Permission, read_write, no_access, gui_settings,
}
use dappctrl.Data.Error.{ui, no_rows}
use dappctrl.Data.UiError.{
  access_denied, internal, account_not_found, job_not_found, success_job_non_reactivatable,
  already_active_job, tx_not_found, tx_is_underpriced, product_not_found,
  bad_service_endpoint_address,
}
use dappctrl.Store.{
  Db, plain, in_tx, Action, ◌>>=◌, ◌>>◌, pure, require, or_raise, on_error, query, exec, begin,
  commit,
}
use dappctrl.Ui.Env.{Handler}
use dappctrl.Ui.Access.{check_token, find_row, select_rows, page}
use dappctrl.Ui.Channels.{add_user_job}
use dappctrl.Ui.Offerings.{update_rows}
use dappctrl.Ui.Accounts.{account_by}

-- What is asked of jobs: nothing is no condition, and the times are from one up to another.
pub record JobFilter : Type 0 where
  pub type : Option JobType
  pub from : Option Instant
  pub until : Option Instant
  pub statuses : List JobStatus

unfoldable pub is_asked_job : JobFilter → Job → Bool
is_asked_job q j =
    (length q.statuses == 0 || any (λ s. job_status_eq s j.status) q.statuses)
    && (is_type q.type && (is_from q.from && is_until q.until))
  where
    is_type : Option JobType → Bool
    is_type none = true
    is_type (some ty) = job_type_eq j.type ty

    is_from : Option Instant → Bool
    is_from none = true
    is_from (some t) = leb t j.created_at

    is_until : Option Instant → Bool
    is_until none = true
    is_until (some t) = ltb j.created_at t

-- `GetJobs`
unfoldable pub get_jobs : Handler → Text → JobFilter → ℕ → ℕ → Action (List Job × ℕ)
get_jobs h tkn q offset limit = do
  check_token h tkn
  total ← select_rows (λ d. length (select (is_asked_job q) d.jobs))
  rows ← select_rows (λ d. page offset limit (h.latest_jobs (select (is_asked_job q) d.jobs)))
  pure (rows, total)

unfoldable pub reactivated : Job → Job
reactivated j = record j { status = JobStatus.active; try_count = 0 }

-- `ReactivateJob`; the empty key is that of no row.
unfoldable pub reactivate_job : Handler → Text → Uuid → Action (Unit {0})
reactivate_job h tkn id = do
  check_token h tkn
  require (not (id == 0)) (ui job_not_found)
  j ← find_row job_not_found (λ d. find? (λ r. r.id == id) d.jobs)
  require (not (job_status_eq j.status JobStatus.done)) (ui success_job_non_reactivatable)
  require (not (job_status_eq j.status JobStatus.active)) (ui already_active_job)
  on_error (ui internal) (
      exec plain
        (λ d. record d { jobs = update_where (λ r. r.id == j.id) (λ _. reactivated j) d.jobs }))

-- What is asked of transactions: those of an account, or of a kind and an object.
pub data TxFilter : Type 0 where
  account_aggregated : Uuid → TxFilter
  related_to : Option RelatedType → Uuid → TxFilter

abbrev is_kind : Option RelatedType → EthTx → Bool
is_kind none t = true
is_kind (some r) t = related_type_eq t.related_type r

unfoldable pub tx_condition : TxFilter → Action (EthTx → Bool)
tx_condition (account_aggregated id) = do
  acc ← find_row account_not_found (account_by id)
  pure (λ t. t.addr_from == acc.eth_addr)
tx_condition (related_to kind id) = pure (λ t. is_kind kind t && (id == 0 || t.related_id == id))

-- `GetEthTransactions`
unfoldable pub get_eth_transactions : Handler → Text → TxFilter → ℕ → ℕ → Action (List EthTx × ℕ)
get_eth_transactions h tkn q offset limit = do
  check_token h tkn
  p ← tx_condition q
  total ← select_rows (λ d. length (select p d.eth_txs))
  rows ← select_rows (λ d. page offset limit (h.latest_txs (select p d.eth_txs)))
  pure (rows, total)

-- `IncreaseTxGasPrice`, which does not look at the token.
unfoldable pub request_gas_price : Handler → Text → Uuid → ℕ → Action (Unit {0})
request_gas_price h tkn id gas = do
  require (not (id == 0)) (ui access_denied)
  t ← on_error (ui tx_not_found) (find_row tx_not_found (λ d. find? (λ t. t.id == id) d.eth_txs))
  require (ltb t.gas_price gas) (ui tx_is_underpriced)
  add_user_job h increase_tx_gas_price RelatedType.transaction id (publish gas)

-- `GetSessions` and `GetEndpoints`; the empty key is no condition.
unfoldable pub get_sessions : Handler → Text → Uuid → Action (List Session)
get_sessions h tkn channel = do
  check_token h tkn
  select_rows (λ d. select (λ s. channel == 0 || s.channel == channel) d.sessions)

unfoldable pub get_endpoints : Handler → Text → Uuid → Uuid → Action (List Endpoint)
get_endpoints h tkn channel template = do
  check_token h tkn
  select_rows (λ d.
      select
        (λ e. (channel == 0 || e.channel == channel) && (template == 0 || e.template == template))
        d.endpoints)

-- `isValidSEAddress`, of an address that is given.
abbrev pub is_valid_address : Handler → Option Text → Bool
is_valid_address h none = true
is_valid_address h (some a) = h.is_host a

-- `CreateProduct`
unfoldable pub create_product : Handler → Text → Product → Action Uuid
create_product h tkn p = do
  check_token h tkn
  require (is_valid_address h p.service_endpoint_address) (ui bad_service_endpoint_address)
  on_error (ui internal)
      (exec plain (λ d. record d { products = record p { id = h.new_id } ∷ d.products }))
  pure h.new_id

-- What a product does not say of its salt and password stays.
unfoldable pub with_secrets : Product → Product → Product
with_secrets old p = record p {
  salt = if p.salt == 0 then old.salt else p.salt;
  password = if p.password == 0 then old.password else p.password;
}

-- `UpdateProduct`
unfoldable pub update_product : Handler → Text → Product → Action (Unit {0})
update_product h tkn p = do
  check_token h tkn
  old ← find_row product_not_found (λ d. find? (λ x. x.id == p.id) d.products)
  require (is_valid_address h p.service_endpoint_address) (ui bad_service_endpoint_address)
  update_rows plain
      (λ d. record d {
        products = update_where (λ x. x.id == p.id) (λ _. with_secrets old p) d.products;
      })
      (λ d. length (select (λ x. x.id == p.id) d.products))

-- `GetProducts`
unfoldable pub get_products : Handler → Text → Action (List Product)
get_products h tkn = do check_token h tkn; select_rows (λ d. select (λ p. p.is_server) d.products)

-- SUM of a column, where no row counts as zero, scanned as int64.
unfoldable pub sum_receipts : List Channel → ℕ
sum_receipts [] = 0
sum_receipts (c ∷ l) = sum_receipts l + c.receipt_balance

unfoldable pub uint_from_query : Handler → Text → (Db → ℕ) → Action ℕ
uint_from_query h tkn f = do
  check_token h tkn
  n ← select_rows f
  require (ltb n (2 ^ 63)) (ui internal)
  pure n

abbrev product_of : Db → Uuid → Option Offering
product_of d id = find? (λ o. o.id == id) d.offerings

abbrev is_of_product : Uuid → Option Offering → Bool
is_of_product id none = false
is_of_product id (some o) = o.product == id

-- `GetOfferingIncome`, `GetProductIncome` and `GetTotalIncome`
unfoldable pub get_offering_income : Handler → Text → Uuid → Action ℕ
get_offering_income h tkn id =
    uint_from_query h tkn (λ d. sum_receipts (select (λ c. c.offering == id) d.channels))

unfoldable pub get_product_income : Handler → Text → Uuid → Action ℕ
get_product_income h tkn id =
    uint_from_query h tkn
      (λ d. sum_receipts (select (λ c. is_of_product id (product_of d c.offering)) d.channels))

unfoldable pub get_total_income : Handler → Text → Action ℕ
get_total_income h tkn = uint_from_query h tkn (λ d. sum_receipts d.channels)

-- The units of the sessions of some channels.
unfoldable pub sum_used : (Channel → Bool) → Db → List Session → ℕ
sum_used p d [] = 0
sum_used p d (s ∷ l) =
    let rest = sum_used p d l in
    if any (λ c. c.id == s.channel && p c) d.channels then rest + s.units_used else rest

-- `GetOfferingUsage` and `GetProductUsage`
unfoldable pub get_offering_usage : Handler → Text → Uuid → Action ℕ
get_offering_usage h tkn id =
    uint_from_query h tkn (λ d. sum_used (λ c. c.offering == id) d d.sessions)

unfoldable pub get_product_usage : Handler → Text → Uuid → Action ℕ
get_product_usage h tkn id =
    uint_from_query h tkn
      (λ d. sum_used (λ c. is_of_product id (product_of d c.offering)) d d.sessions)

-- `GetSettings`: those that may be read.
unfoldable pub get_settings : Handler → Text → Action (List Setting)
get_settings h tkn = do
  check_token h tkn
  select_rows (λ d. select (λ s. is_visible s.permissions) d.settings)
  where
    is_visible : Permission → Bool
    is_visible no_access = false
    is_visible _ = true

abbrev is_writable : Permission → Bool
is_writable read_write = true
is_writable _ = false

abbrev write_setting : Setting → Text → Db → Db
write_setting s v d = record d {
  settings =
      update_where (λ x. setting_key_eq x.key s.key) (λ _. record s { value = v }) d.settings;
}

-- The loop of `UpdateSettings`, over the items in some order; those that may not be written are
-- passed over. `validateSetting` accepts every value.
unfoldable pub update_items : List (SettingKey × Text) → Action (Unit {0})
update_items [] = pure tt
update_items ((k, v) ∷ items) = do
  found ← query in_tx (λ d. find? (λ s. setting_key_eq s.key k) d.settings)
  s ← or_raise found no_rows
  write_if (is_writable s.permissions) (write_setting s v)
  update_items items
  where
    write_if : Bool → (Db → Db) → Action (Unit {0})
    write_if true f = exec in_tx f
    write_if false f = pure tt

-- `UpdateSettings`
unfoldable pub update_settings : Handler → Text → List (SettingKey × Text) → Action (Unit {0})
update_settings h tkn items = do
  check_token h tkn
  on_error (ui internal) (do begin; update_items items; commit)

-- `SetGUISettings`, given the JSON text.
unfoldable pub set_gui_settings : Handler → Text → Text → Action (Unit {0})
set_gui_settings h tkn v = do
  check_token h tkn
  on_error (ui internal) (
      exec plain (λ d. record d {
        settings =
            update_where (λ s. setting_key_eq s.key gui_settings) (λ s. record s { value = v })
              d.settings;
      }))
