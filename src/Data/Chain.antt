-- ===== src/Data/Chain.antt =====
-- What the controller sends to the contracts (the transactions of eth/backend.go) and the tables
-- that go with it: eth_txs, templates, settings and closings of data/schema.go, and the keys of
-- data/settings.go.
use dappctrl.Base.{ℕ, ◌+◌, Bool, Option, ◌==◌}
use dappctrl.Data.Schema.{Uuid, HexString, Base64String, Text, Instant}
use dappctrl.Data.Jobs.{RelatedType}

-- The 20 bytes of an address and the 32 bytes of a hash, as numbers.
abbrev pub Address : Type 0
Address = ℕ

abbrev pub Hash : Type 0
Hash = ℕ

pub data ContractCall : Type 0 where
  -- agent, block, offering hash, balance, balance signature, closing signature
  cooperative_close : Address → ℕ → Hash → ℕ → ℕ → ℕ → ContractCall
  -- offering hash, minimum deposit, supply, SOMC type and data
  register_service_offering : Hash → ℕ → ℕ → ℕ → Base64String → ContractCall
  remove_service_offering : Hash → ContractCall
  popup_service_offering : Hash → ℕ → Base64String → ContractCall
  increase_approval : Address → ℕ → ContractCall
  add_balance : ℕ → ContractCall
  return_balance : ℕ → ContractCall
  -- agent, offering hash, deposit
  create_channel : Address → Hash → ℕ → ContractCall
  -- agent, block, offering hash, and the deposit or the balance
  top_up_channel : Address → ℕ → Hash → ℕ → ContractCall
  uncooperative_close : Address → ℕ → Hash → ℕ → ContractCall
  settle : Address → ℕ → Hash → ContractCall
  -- The transaction with a given JSON text, at another gas price.
  resend : Text → ContractCall

-- A transaction that the node accepted: who signed it, the gas limit and price that were set, and
-- the call. A price or limit that is not set is the node's choice.
pub record Sending : Type 0 where
  pub from : Address
  pub gas_limit : Option ℕ
  pub gas_price : Option ℕ
  pub call : ContractCall

pub data TxStatus : Type 0 where
  tx_unsent tx_sent tx_mined tx_uncle : TxStatus

pub data TxMethod : Type 0 where
  cooperative_close_tx register_offering_tx remove_offering_tx popup_offering_tx : TxMethod
  increase_approval_tx add_balance_tx return_balance_tx create_channel_tx top_up_tx : TxMethod
  uncooperative_close_tx settle_tx : TxMethod

pub record EthTx : Type 0 where
  pub id : Uuid
  pub hash : HexString
  pub method : TxMethod
  pub status : TxStatus
  pub job : Option Uuid
  pub issued : Instant
  pub addr_from : HexString
  pub addr_to : HexString
  pub nonce : ℕ
  pub gas_price : ℕ
  pub gas : ℕ
  pub tx_raw : Text
  pub related_type : RelatedType
  pub related_id : Uuid

pub record Template : Type 0 where
  pub id : Uuid
  pub hash : HexString
  pub raw : Text

pub record Rating : Type 0 where
  pub eth_addr : HexString
  pub val : ℕ

pub data SettingKey : Type 0 where
  period_challenge period_pop_up period_remove : SettingKey
  rating_ranking_steps offerings_fresh_blocks offering_auto_pop_up : SettingKey
  client_min_deposit password_hash password_salt gui_settings : SettingKey
  -- Any other key, by a number.
  other_setting : ℕ → SettingKey

abbrev pub setting_key_code : SettingKey → ℕ
setting_key_code period_challenge = 0
setting_key_code period_pop_up = 1
setting_key_code period_remove = 2
setting_key_code rating_ranking_steps = 3
setting_key_code offerings_fresh_blocks = 4
setting_key_code offering_auto_pop_up = 5
setting_key_code client_min_deposit = 6
setting_key_code password_hash = 7
setting_key_code password_salt = 8
setting_key_code gui_settings = 9
setting_key_code (other_setting n) = 10 + n

abbrev pub setting_key_eq : SettingKey → SettingKey → Bool
setting_key_eq s t = setting_key_code s == setting_key_code t

pub data Permission : Type 0 where
  no_access read_only read_write : Permission

pub record Setting : Type 0 where
  pub key : SettingKey
  pub value : Text
  pub permissions : Permission

-- The values that `abi.Arguments.UnpackValues` returns, of the types that it was asked for.
pub data AbiType : Type 0 where
  uint8_type uint16_type uint32_type uint64_type string_type : AbiType

pub data AbiValue : Type 0 where
  uint8_value uint16_value uint32_value uint64_value string_value : ℕ → AbiValue
