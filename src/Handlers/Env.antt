-- ===== src/Handlers/Env.antt =====
-- proc/worker/worker.go: what a worker is made of. The Ethereum node, the key store, the ABI
-- decoder, the text decoders and the clock are parameters: what they answer during one run of a
-- handler.
use dappctrl.Base.{ℕ, Bool, Option, none, some, List, ◌∷◌}
use dappctrl.Data.{
  ClosingType, IpType, UnitType, BillingType, AbiType, AbiValue, Account, Uuid, HexString,
  Base64String, Text, Instant, Address, Hash, Sending, WorkerError,
}
use dappctrl.Data.Error.{worker}
use dappctrl.Store.{Action, ok, err}
use dappctrl.Job.Config.{Config}
use dappctrl.Job.Add.{Stamp}

-- `GasConf`
pub record GasConf : Type 0 where
  pub approve : ℕ
  pub add_balance : ℕ
  pub register_service_offering : ℕ
  pub create_channel : ℕ
  pub cooperative_close : ℕ
  pub return_balance : ℕ
  pub uncooperative_close : ℕ
  pub top_up : ℕ
  pub popup_service_offering : ℕ
  pub remove_service_offering : ℕ

-- What the contract knows of an offering, as far as the handlers look at it.
pub record OfferingInfo : Type 0 where
  pub min_deposit : ℕ
  pub max_supply : ℕ
  pub current_supply : ℕ
  pub update_block : ℕ
  pub is_active : Bool

-- A transaction as go-ethereum makes it; `json` is none where it cannot be marshalled.
pub record Transaction : Type 0 where
  pub hash : HexString
  pub nonce : ℕ
  pub gas_price : ℕ
  pub gas : ℕ
  pub json : Option Text

-- `eth.Backend`: none is an error of the node.
pub record Backend : Type 0 where
  pub latest_block_number : Option ℕ
  pub suggest_gas_price : Option ℕ
  pub eth_balance_at : Address → Option ℕ
  pub ptc_balance_of : Address → Option ℕ
  pub psc_balance_of : Address → Option ℕ
  pub ptc_allowance : Address → Address → Option ℕ
  pub psc_get_offering_info : Hash → Option OfferingInfo
  -- The block in which a channel may be settled, by client, agent, block and offering.
  pub psc_get_channel_info : Address → Address → ℕ → Hash → Option ℕ
  -- The sender of the transaction with a hash: its address and public key.
  pub transaction_sender : HexString → Option (HexString × Base64String)
  -- Whether the transaction with a hash is pending.
  pub transaction_pending : Hash → Option Bool
  pub transact : Sending → Option Transaction

-- `ept.Message`, the endpoint message that the agent makes for a channel.
pub record EndpointMessage : Type 0 where
  pub template_hash : HexString
  pub username : Text
  pub password : Text
  pub payment_receiver_address : Text
  pub service_endpoint_address : Text
  pub additional_params : Text

-- `offer.Message`, what an agent publishes about an offering.
pub record OfferMessage : Type 0 where
  pub agent_pub_key : Base64String
  pub template_hash : HexString
  pub country : Text
  pub service_supply : ℕ
  pub ip_type : IpType
  pub unit_name : Text
  pub unit_type : UnitType
  pub billing_type : BillingType
  pub setup_price : ℕ
  pub unit_price : ℕ
  pub min_units : ℕ
  pub max_unit : Option ℕ
  pub billing_interval : ℕ
  pub max_billing_unit_lag : ℕ
  pub max_suspend_time : ℕ
  pub max_inactive_time_sec : ℕ
  pub free_units : ℕ
  pub service_specific_parameters : Text

-- What `NewClient` makes for a way to reach an agent: an error, or the requests that it answers.
pub data SomcClient : Type 0 where
  unknown_type broken : SomcClient
  connected : (Base64String → Option Base64String) → (HexString → Option Base64String) → SomcClient

-- `closingEvent`
pub record ClosingEvent : Type 0 where
  pub agent : HexString
  pub client : HexString
  pub type : ClosingType
  pub cost : ℕ

pub record Worker : Type 0 where
  pub queue : Config
  -- The stamps of the jobs that a handler adds, in order.
  pub stamp : ℕ → Stamp
  pub now : Instant
  pub new_id : Uuid
  pub psc_addr : Address
  pub tor_host_name : Option Base64String
  pub gas_conf : GasConf
  pub backend : Backend
  pub unpack_values : List AbiType → List ℕ → Option (List AbiValue)
  pub to_address : HexString → Option Address
  pub of_address : Address → HexString
  pub to_hash : HexString → Option Hash
  pub of_hash : Hash → HexString
  pub of_amount : ℕ → Base64String
  pub to_bytes : Base64String → Option ℕ
  pub parse_uint : Text → Option ℕ
  -- `pwdGetter.GetKey`, the address of a key, and the signature of a closing message by agent's
  -- key, client, block, offering hash and balance.
  pub get_key : Account → Option ℕ
  pub key_address : ℕ → Address
  -- Whether a text has two bytes, and the text for a country that is not known.
  pub has_two_bytes : Text → Bool
  pub undefined_country : Text
  -- The address and public key of the agent that an offering's message names.
  pub message_agent : Base64String → Option (HexString × Base64String)
  -- `getInitialRate`, which computes with floating-point numbers.
  pub initial_rate : List ClosingEvent → ℕ
  -- The agent's server, the key of a channel, the opened text of a sealed message, what texts parse
  -- to, and whether they fit a template; the country of an address.
  pub somc_client : ℕ → Base64String → SomcClient
  pub channel_key : HexString → HexString → ℕ → HexString → Option Base64String
  pub client_open : ℕ → ℕ → ℕ → Option Text
  pub parse_endpoint : Text → Option EndpointMessage
  pub is_valid_json : Text → Text → Bool
  pub keccak_hash : ℕ → Hash
  pub parse_offering : ℕ → Option OfferMessage
  pub is_signed_by : ℕ → ℕ → Bool
  pub is_valid_offer : Text → OfferMessage → Bool
  pub of_bytes : ℕ → Base64String
  pub country_at : Text → Option Text
  -- The endpoint message of a channel, its seal for a client's key by an agent's, the hash of what
  -- is sealed, a random salt, and the hash of a password with a salt.
  pub endpoint_message : Uuid → Option EndpointMessage
  pub agent_seal : EndpointMessage → ℕ → ℕ → Option Base64String
  pub keccak : Base64String → HexString
  pub salt : Option ℕ
  pub hash_password : Text → ℕ → Option Base64String
  pub sign_closing : ℕ → Address → ℕ → Hash → ℕ → Option ℕ

-- A failing handler returns one of the worker's errors.
abbrev pub refuse : {A : Type 0} → Option A → WorkerError → Action A
refuse none e w = (err (worker e), w)
refuse (some a) e w = (ok a, w)

abbrev pub sent_or : Option Transaction → WorkerError → Sending → Action Transaction
sent_or none e s w = (err (worker e), w)
sent_or (some tx) e s w = (ok tx, record w { sent = s ∷ w.sent })

-- A transaction is signed and handed to the node.
unfoldable pub transact : Worker → WorkerError → Sending → Action Transaction
transact h e s = sent_or (h.backend.transact s) e s
