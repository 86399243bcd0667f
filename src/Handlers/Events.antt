-- ===== src/Handlers/Events.antt =====
-- proc/worker/event.go: what a handler reads from the log of an Ethereum event.
use dappctrl.Base.{ℕ, ◌%◌, ◌^◌, List, [], ◌∷◌}
use dappctrl.Data.{
  AbiValue, uint8_type, uint16_type, uint32_type, uint64_type, string_type, uint8_value,
  uint16_value, uint32_value, uint64_value, string_value, Address, Hash, Base64String, JobEthLog,
}
use dappctrl.Data.Error.{worker}
use dappctrl.Data.WorkerError.{
  parse_eth_log, parse_job_data, wrong_log_non_indexed_args_number, wrong_log_topics_number,
}
use dappctrl.Store.{Action, ◌>>=◌, pure, raise}
use dappctrl.Handlers.Env.{Worker, refuse}

-- `common.BytesToAddress` keeps the last 20 bytes of a topic.
abbrev pub address_of_topic : ℕ → Address
address_of_topic t = t % 2 ^ 160

-- The three indexed arguments, in an event that has as many.
unfoldable pub three_topics : List ℕ → Action (ℕ × ℕ × ℕ)
three_topics (_ ∷ a ∷ b ∷ c ∷ []) = pure (a, b, c)
three_topics _ = raise (worker wrong_log_topics_number)

pub record LogChannelCreated : Type 0 where
  pub agent_addr : Address
  pub client_addr : Address
  pub offering_hash : Hash
  pub deposit : ℕ

pub record LogChannelTopUp : Type 0 where
  pub agent_addr : Address
  pub client_addr : Address
  pub offering_hash : Hash
  pub open_block_num : ℕ
  pub added_deposit : ℕ

-- An offering that was created or popped up.
pub record LogOffering : Type 0 where
  pub agent_addr : Address
  pub offering_hash : Hash
  pub min_deposit : ℕ
  pub current_supply : ℕ
  pub somc_type : ℕ
  pub somc_data : Base64String

unfoldable pub created_data : List AbiValue → Action ℕ
created_data (uint64_value deposit ∷ []) = pure deposit
created_data (_ ∷ []) = raise (worker parse_eth_log)
created_data _ = raise (worker wrong_log_non_indexed_args_number)

unfoldable pub topped_up_data : List AbiValue → Action (ℕ × ℕ)
topped_up_data (uint32_value block ∷ uint64_value added ∷ []) = pure (block, added)
topped_up_data (_ ∷ _ ∷ []) = raise (worker parse_eth_log)
topped_up_data _ = raise (worker wrong_log_non_indexed_args_number)

unfoldable pub offering_data : List AbiValue → Action (ℕ × ℕ × ℕ)
offering_data (uint16_value supply ∷ uint8_value kind ∷ string_value somc ∷ []) =
    pure (supply, kind, somc)
offering_data (_ ∷ _ ∷ _ ∷ []) = raise (worker parse_job_data)
offering_data _ = raise (worker wrong_log_non_indexed_args_number)

-- `extractLogChannelCreated`
unfoldable pub extract_log_channel_created : Worker → JobEthLog → Action LogChannelCreated
extract_log_channel_created h l = do
  values ← refuse (h.unpack_values (uint64_type ∷ []) l.bytes) parse_eth_log
  deposit ← created_data values
  args ← three_topics l.topics
  pure (record {
    agent_addr = address_of_topic args.0;
    client_addr = address_of_topic args.1;
    offering_hash = args.2;
    deposit = deposit;
  })

-- `extractLogChannelToppedUp`
unfoldable pub extract_log_channel_topped_up : Worker → JobEthLog → Action LogChannelTopUp
extract_log_channel_topped_up h l = do
  values ← refuse (h.unpack_values (uint32_type ∷ uint64_type ∷ []) l.bytes) parse_eth_log
  topped ← topped_up_data values
  args ← three_topics l.topics
  pure (record {
    agent_addr = address_of_topic args.0;
    client_addr = address_of_topic args.1;
    offering_hash = args.2;
    open_block_num = topped.0;
    added_deposit = topped.1;
  })

-- `extractLogOfferingCreated` and `extractLogOfferingPopUp`, which are the same but for the type of
-- the minimum deposit.
unfoldable pub extract_log_offering : Worker → JobEthLog → Action LogOffering
extract_log_offering h l = do
  args ← three_topics l.topics
  values ←
      refuse (h.unpack_values (uint16_type ∷ uint8_type ∷ string_type ∷ []) l.bytes) parse_job_data
  parts ← offering_data values
  pure (record {
    agent_addr = address_of_topic args.0;
    offering_hash = args.1;
    min_deposit = args.2;
    current_supply = parts.0;
    somc_type = parts.1;
    somc_data = parts.2;
  })
