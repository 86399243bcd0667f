-- ===== src/Data/Schema.antt =====
-- data/schema.go: the tables that the controller's logic works on.
-- Identifiers, addresses, hashes and other texts that the code only compares or passes on are
-- natural numbers; an instant is a number of nanoseconds. A uint64 column is a natural number, and
-- the code that computes with it reduces modulo 2 ^ 64.
use dappctrl.Base.{ℕ, Bool, Option, ◌==◌}

abbrev pub Uuid : Type 0
Uuid = ℕ

abbrev pub HexString : Type 0
HexString = ℕ

abbrev pub Base64String : Type 0
Base64String = ℕ

-- Texts and JSON documents that no modelled code looks into.
abbrev pub Text : Type 0
Text = ℕ

abbrev pub Instant : Type 0
Instant = ℕ

pub record Account : Type 0 where
  pub id : Uuid
  pub eth_addr : HexString
  pub public_key : Base64String
  pub private_key : Base64String
  pub is_default : Bool
  pub in_use : Bool
  pub name : Text
  pub ptc_balance : ℕ
  pub psc_balance : ℕ
  pub eth_balance : Base64String
  pub last_balance_check : Option Instant

pub record User : Type 0 where
  pub id : Uuid
  pub eth_addr : HexString
  pub public_key : Base64String

pub data UsageRepType : Type 0 where
  incremental total : UsageRepType

pub data ClientIdent : Type 0 where
  by_channel_id : ClientIdent
  other_ident : Text → ClientIdent

pub record Product : Type 0 where
  pub id : Uuid
  pub name : Text
  pub offer_tpl_id : Option Uuid
  pub offer_access_id : Option Uuid
  pub usage_rep_type : UsageRepType
  pub is_server : Bool
  pub salt : ℕ
  pub password : Base64String
  pub client_ident : ClientIdent
  pub config : Text
  pub service_endpoint_address : Option Text
  pub country : Option Text

pub data UnitType : Type 0 where
  units seconds : UnitType

pub data BillingType : Type 0 where
  prepaid postpaid : BillingType

pub data OfferStatus : Type 0 where
  empty popping_up popped_up registering registered removing removed : OfferStatus

pub data IpType : Type 0 where
  residential datacenter mobile : IpType

pub record Offering : Type 0 where
  pub id : Uuid
  pub is_local : Bool
  pub ip_type : IpType
  pub template : Uuid
  pub product : Uuid
  pub hash : HexString
  pub status : OfferStatus
  pub block_number_updated : ℕ
  pub agent : HexString
  pub raw_msg : Base64String
  pub service_name : Text
  pub description : Option Text
  pub country : Text
  pub supply : ℕ
  pub current_supply : ℕ
  pub unit_name : Text
  pub unit_type : UnitType
  pub billing_type : BillingType
  pub setup_price : ℕ
  pub unit_price : ℕ
  pub min_units : ℕ
  pub max_unit : Option ℕ
  pub billing_interval : ℕ
  pub max_billing_unit_lag : ℕ
  pub max_suspend_time : ℕ
  pub max_inactive_time_sec : ℕ
  pub free_units : ℕ
  pub additional_params : Text
  pub auto_pop_up : Option Bool
  pub somc_type : ℕ
  pub somc_data : Base64String
  pub somc_success_ping : Option Instant

pub data ChannelStatus : Type 0 where
  pending active wait_coop closed_coop wait_challenge in_challenge wait_uncoop : ChannelStatus
  closed_uncoop : ChannelStatus

pub data ServiceStatus : Type 0 where
  pending activating active suspending suspended terminating terminated : ServiceStatus

abbrev pub channel_status_code : ChannelStatus → ℕ
channel_status_code ChannelStatus.pending = 0
channel_status_code ChannelStatus.active = 1
channel_status_code wait_coop = 2
channel_status_code closed_coop = 3
channel_status_code wait_challenge = 4
channel_status_code in_challenge = 5
channel_status_code wait_uncoop = 6
channel_status_code closed_uncoop = 7

abbrev pub channel_status_eq : ChannelStatus → ChannelStatus → Bool
channel_status_eq s t = channel_status_code s == channel_status_code t

abbrev pub service_status_code : ServiceStatus → ℕ
service_status_code ServiceStatus.pending = 0
service_status_code activating = 1
service_status_code ServiceStatus.active = 2
service_status_code suspending = 3
service_status_code suspended = 4
service_status_code terminating = 5
service_status_code terminated = 6

abbrev pub service_status_eq : ServiceStatus → ServiceStatus → Bool
service_status_eq s t = service_status_code s == service_status_code t

pub record Channel : Type 0 where
  pub id : Uuid
  pub agent : HexString
  pub client : HexString
  pub offering : Uuid
  pub block : ℕ
  pub channel_status : ChannelStatus
  pub service_status : ServiceStatus
  pub service_changed_time : Option Instant
  pub prepared_at : Instant
  pub total_deposit : ℕ
  pub salt : ℕ
  pub username : Option Text
  pub password : Base64String
  pub receipt_balance : ℕ
  pub receipt_signature : Option Base64String

pub record Session : Type 0 where
  pub id : Uuid
  pub channel : Uuid
  pub started : Instant
  pub stopped : Option Instant
  pub units_used : ℕ
  pub seconds_consumed : ℕ
  pub last_usage_time : Instant
  pub client_ip : Option Text
  pub client_port : Option ℕ

pub record Endpoint : Type 0 where
  pub id : Uuid
  pub template : Uuid
  pub channel : Uuid
  pub hash : HexString
  pub raw_msg : Base64String
  pub payment_receiver_address : Option Text
  pub service_endpoint_address : Option Text
  pub username : Option Text
  pub password : Option Text
  pub additional_params : Text
  pub country_status : Option Text
