-- ===== src/Data/Jobs.antt =====
-- data/jobs.go and the Job table of data/schema.go: job types, creators, statuses and payloads.
use dappctrl.Base.{
  ℕ, ◌≡◌, refl, sym, ap, ◌∙◌, ◌↔◌, Bool, true, false, Option, none, some, List, [], ◌∷◌, get_elem?,
  ◌==◌, ==_iff, max,
}
use dappctrl.Data.Schema.{Base64String, Uuid, HexString, Instant, ServiceStatus}

pub data JobCreator : Type 0 where
  user billing_checker bc_monitor task service_adapter session_server : JobCreator

pub data JobStatus : Type 0 where
  active done failed canceled : JobStatus

pub data RelatedType : Type 0 where
  offering channel endpoint account transaction : RelatedType

pub data JobType : Type 0 where
  client_pre_channel_create client_after_channel_create client_pre_channel_top_up : JobType
  client_after_channel_top_up client_pre_uncooperative_close_request : JobType
  client_after_uncooperative_close_request client_pre_uncooperative_close : JobType
  client_after_uncooperative_close client_after_cooperative_close : JobType
  client_pre_service_suspend client_pre_service_unsuspend client_pre_service_terminate : JobType
  client_endpoint_get client_after_offering_msg_bc_publish client_after_offering_pop_up : JobType
  client_after_offering_delete client_record_closing agent_after_channel_create : JobType
  agent_after_channel_top_up agent_after_uncooperative_close_request : JobType
  agent_after_uncooperative_close agent_after_cooperative_close : JobType
  agent_pre_service_suspend agent_pre_service_unsuspend agent_pre_service_terminate : JobType
  agent_pre_endpoint_msg_create agent_pre_offering_msg_bc_publish : JobType
  agent_after_offering_msg_bc_publish agent_pre_offering_delete : JobType
  agent_pre_offering_pop_up agent_after_offering_pop_up agent_after_offering_delete : JobType
  pre_account_add_balance_approve after_account_add_balance_approve : JobType
  pre_account_add_balance after_account_add_balance pre_account_return_balance : JobType
  after_account_return_balance account_update_balances complete_service_transition : JobType
  decrement_current_supply increment_current_supply increase_tx_gas_price : JobType

-- Go compares the names of the types; the model compares their positions in the list.
abbrev job_type_code : JobType → ℕ
job_type_code client_pre_channel_create = 0
job_type_code client_after_channel_create = 1
job_type_code client_pre_channel_top_up = 2
job_type_code client_after_channel_top_up = 3
job_type_code client_pre_uncooperative_close_request = 4
job_type_code client_after_uncooperative_close_request = 5
job_type_code client_pre_uncooperative_close = 6
job_type_code client_after_uncooperative_close = 7
job_type_code client_after_cooperative_close = 8
job_type_code client_pre_service_suspend = 9
job_type_code client_pre_service_unsuspend = 10
job_type_code client_pre_service_terminate = 11
job_type_code client_endpoint_get = 12
job_type_code client_after_offering_msg_bc_publish = 13
job_type_code client_after_offering_pop_up = 14
job_type_code client_after_offering_delete = 15
job_type_code client_record_closing = 16
job_type_code agent_after_channel_create = 17
job_type_code agent_after_channel_top_up = 18
job_type_code agent_after_uncooperative_close_request = 19
job_type_code agent_after_uncooperative_close = 20
job_type_code agent_after_cooperative_close = 21
job_type_code agent_pre_service_suspend = 22
job_type_code agent_pre_service_unsuspend = 23
job_type_code agent_pre_service_terminate = 24
job_type_code agent_pre_endpoint_msg_create = 25
job_type_code agent_pre_offering_msg_bc_publish = 26
job_type_code agent_after_offering_msg_bc_publish = 27
job_type_code agent_pre_offering_delete = 28
job_type_code agent_pre_offering_pop_up = 29
job_type_code agent_after_offering_pop_up = 30
job_type_code agent_after_offering_delete = 31
job_type_code pre_account_add_balance_approve = 32
job_type_code after_account_add_balance_approve = 33
job_type_code pre_account_add_balance = 34
job_type_code after_account_add_balance = 35
job_type_code pre_account_return_balance = 36
job_type_code after_account_return_balance = 37
job_type_code account_update_balances = 38
job_type_code complete_service_transition = 39
job_type_code decrement_current_supply = 40
job_type_code increment_current_supply = 41
job_type_code increase_tx_gas_price = 42

unfoldable pub job_type_eq : JobType → JobType → Bool
job_type_eq s t = job_type_code s == job_type_code t

abbrev job_types : List JobType
job_types =
    client_pre_channel_create ∷ client_after_channel_create ∷ client_pre_channel_top_up
    ∷ client_after_channel_top_up ∷ client_pre_uncooperative_close_request
    ∷ client_after_uncooperative_close_request ∷ client_pre_uncooperative_close
    ∷ client_after_uncooperative_close ∷ client_after_cooperative_close ∷ client_pre_service_suspend
    ∷ client_pre_service_unsuspend ∷ client_pre_service_terminate ∷ client_endpoint_get
    ∷ client_after_offering_msg_bc_publish ∷ client_after_offering_pop_up
    ∷ client_after_offering_delete ∷ client_record_closing ∷ agent_after_channel_create
    ∷ agent_after_channel_top_up ∷ agent_after_uncooperative_close_request
    ∷ agent_after_uncooperative_close ∷ agent_after_cooperative_close ∷ agent_pre_service_suspend
    ∷ agent_pre_service_unsuspend ∷ agent_pre_service_terminate ∷ agent_pre_endpoint_msg_create
    ∷ agent_pre_offering_msg_bc_publish ∷ agent_after_offering_msg_bc_publish
    ∷ agent_pre_offering_delete ∷ agent_pre_offering_pop_up ∷ agent_after_offering_pop_up
    ∷ agent_after_offering_delete ∷ pre_account_add_balance_approve
    ∷ after_account_add_balance_approve ∷ pre_account_add_balance ∷ after_account_add_balance
    ∷ pre_account_return_balance ∷ after_account_return_balance ∷ account_update_balances
    ∷ complete_service_transition ∷ decrement_current_supply ∷ increment_current_supply
    ∷ increase_tx_gas_price ∷ []

abbrev job_type_of : ℕ → Option JobType
job_type_of n = get_elem? job_types n

job_type_of-code : (t : JobType) → job_type_of (job_type_code t) ≡ some t
job_type_of-code client_pre_channel_create = refl
job_type_of-code client_after_channel_create = refl
job_type_of-code client_pre_channel_top_up = refl
job_type_of-code client_after_channel_top_up = refl
job_type_of-code client_pre_uncooperative_close_request = refl
job_type_of-code client_after_uncooperative_close_request = refl
job_type_of-code client_pre_uncooperative_close = refl
job_type_of-code client_after_uncooperative_close = refl
job_type_of-code client_after_cooperative_close = refl
job_type_of-code client_pre_service_suspend = refl
job_type_of-code client_pre_service_unsuspend = refl
job_type_of-code client_pre_service_terminate = refl
job_type_of-code client_endpoint_get = refl
job_type_of-code client_after_offering_msg_bc_publish = refl
job_type_of-code client_after_offering_pop_up = refl
job_type_of-code client_after_offering_delete = refl
job_type_of-code client_record_closing = refl
job_type_of-code agent_after_channel_create = refl
job_type_of-code agent_after_channel_top_up = refl
job_type_of-code agent_after_uncooperative_close_request = refl
job_type_of-code agent_after_uncooperative_close = refl
job_type_of-code agent_after_cooperative_close = refl
job_type_of-code agent_pre_service_suspend = refl
job_type_of-code agent_pre_service_unsuspend = refl
job_type_of-code agent_pre_service_terminate = refl
job_type_of-code agent_pre_endpoint_msg_create = refl
job_type_of-code agent_pre_offering_msg_bc_publish = refl
job_type_of-code agent_after_offering_msg_bc_publish = refl
job_type_of-code agent_pre_offering_delete = refl
job_type_of-code agent_pre_offering_pop_up = refl
job_type_of-code agent_after_offering_pop_up = refl
job_type_of-code agent_after_offering_delete = refl
job_type_of-code pre_account_add_balance_approve = refl
job_type_of-code after_account_add_balance_approve = refl
job_type_of-code pre_account_add_balance = refl
job_type_of-code after_account_add_balance = refl
job_type_of-code pre_account_return_balance = refl
job_type_of-code after_account_return_balance = refl
job_type_of-code account_update_balances = refl
job_type_of-code complete_service_transition = refl
job_type_of-code decrement_current_supply = refl
job_type_of-code increment_current_supply = refl
job_type_of-code increase_tx_gas_price = refl

-- Two types have the same name exactly when they are one.
pub job_type_eq_iff : (s t : JobType) → (job_type_eq s t ≡ true) ↔ (s ≡ t)
unfolding job_type_eq
job_type_eq_iff s t = (
  λ h.
      let e : some s ≡ some t =
        sym (job_type_of-code s) ∙ ap job_type_of ((==_iff _ _).0 h) ∙ job_type_of-code t in
      cc,
  λ e. (==_iff _ _).1 (ap job_type_code e),
)

pub record JobEthLog : Type 0 where
  pub block : ℕ
  pub bytes : List ℕ
  pub topics : List HexString
  pub tx_hash : HexString

pub data ClosingType : Type 0 where
  closing_coop closing_uncoop : ClosingType

pub record Closing : Type 0 where
  pub id : Uuid
  pub type : ClosingType
  pub agent : HexString
  pub client : HexString
  pub balance : ℕ
  pub block : ℕ

-- What `json.Marshal` makes of the values that the controller stores with a job.
pub data Payload : Type 0 where
  empty_object : Payload
  eth_log : JobEthLog → Payload
  service_status : ServiceStatus → Payload
  balance : ℕ → ℕ → Payload
  publish : ℕ → Payload
  top_up : ℕ → ℕ → Payload
  -- account, offering, gas price, deposit
  create : Uuid → Uuid → ℕ → ℕ → Payload
  endpoint_sealed : Base64String → Payload
  record_closing : Closing → Bool → Payload
  opaque : ℕ → Payload

-- The `EthLog` field after unmarshalling into `JobData`: absent unless the document has it.
abbrev pub payload_eth_log : Payload → Option JobEthLog
payload_eth_log (eth_log l) = some l
payload_eth_log _ = none

-- The `GasPrice` and `Amount` of `JobBalanceData` after unmarshalling: absent fields are zero, and
-- what is not a JSON object does not decode. The keys are compared without regard to case.
abbrev pub payload_gas_price : Payload → Option ℕ
payload_gas_price empty_object = some 0
payload_gas_price (eth_log _) = some 0
payload_gas_price (service_status _) = none
payload_gas_price (balance gas _) = some gas
payload_gas_price (publish gas) = some gas
payload_gas_price (top_up gas _) = some gas
payload_gas_price (create _ _ gas _) = some gas
payload_gas_price (endpoint_sealed _) = some 0
payload_gas_price (record_closing _ _) = some 0
payload_gas_price (opaque _) = none

abbrev pub payload_amount : Payload → ℕ
payload_amount (balance _ amount) = amount
payload_amount _ = 0

-- The `Deposit` of `JobTopUpChannelData`.
abbrev pub payload_deposit : Payload → ℕ
payload_deposit (top_up _ deposit) = deposit
payload_deposit (create _ _ _ deposit) = deposit
payload_deposit _ = 0

-- The `EndpointSealed` of `JobEndpointCreateData`: nothing is an empty text.
abbrev pub payload_sealed : Payload → Option Base64String
payload_sealed (endpoint_sealed s) = some s
payload_sealed (service_status _) = none
payload_sealed (opaque _) = none
payload_sealed _ = some 0

-- A service status is stored as a JSON string.
abbrev pub payload_service_status : Payload → Option ServiceStatus
payload_service_status (service_status s) = some s
payload_service_status _ = none

abbrev pub related_type_code : RelatedType → ℕ
related_type_code offering = 0
related_type_code channel = 1
related_type_code endpoint = 2
related_type_code account = 3
related_type_code transaction = 4

abbrev pub related_type_eq : RelatedType → RelatedType → Bool
related_type_eq s t = related_type_code s == related_type_code t

abbrev pub closing_type_eq : ClosingType → ClosingType → Bool
closing_type_eq closing_coop closing_coop = true
closing_type_eq closing_uncoop closing_uncoop = true
closing_type_eq _ _ = false

abbrev pub job_status_code : JobStatus → ℕ
job_status_code active = 0
job_status_code done = 1
job_status_code failed = 2
job_status_code canceled = 3

abbrev pub job_status_eq : JobStatus → JobStatus → Bool
job_status_eq s t = job_status_code s == job_status_code t

pub record Job : Type 0 where
  pub id : Uuid
  pub type : JobType
  pub status : JobStatus
  pub related_type : RelatedType
  pub related_id : Uuid
  pub created_at : Instant
  pub not_before : Instant
  pub created_by : JobCreator
  pub try_count : ℕ
  pub payload : Payload

-- `COALESCE(MAX(created_at), '0001-01-01 00:00:00')`
unfoldable pub last_created : List Job → Instant
last_created [] = 0
last_created (j ∷ l) = max j.created_at (last_created l)
