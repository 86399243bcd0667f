-- ===== src/Bc/Jobs/Asked.antt =====
-- bc/jobsmaker.go: the jobs that each event asks for, by the role, apart from the code.
use dappctrl.Base.{
  ℕ, ◌≡◌, ◌⊎◌, Bool, true, false, none, some, List, [], ◌∷◌, All, get_elem?, ◌%◌, leb, ◌+◌, ◌^◌,
  ◌≢◌,
}
use dappctrl.Data.{
  Job, JobType, JobEthLog, payload_eth_log, agent_after_channel_create, agent_after_channel_top_up,
  agent_after_uncooperative_close_request, agent_after_uncooperative_close,
  agent_after_cooperative_close, agent_after_offering_msg_bc_publish, agent_after_offering_pop_up,
  agent_after_offering_delete, client_after_channel_create, client_after_channel_top_up,
  client_after_uncooperative_close_request, client_after_uncooperative_close,
  client_after_cooperative_close, client_after_offering_msg_bc_publish,
  client_after_offering_pop_up, client_after_offering_delete, client_record_closing,
  decrement_current_supply, increment_current_supply, after_account_add_balance_approve,
  after_account_add_balance, after_account_return_balance, closing_coop, uint32_type, uint64_type,
  uint32_value, uint64_value, record_closing,
}
use dappctrl.Handlers.Table.{checked_kind}
use dappctrl.Bc.Jobs.Lookup.{
  JobsMaker, Event, channel_created, channel_topped_up, channel_close_requested, offering_created,
  offering_deleted, offering_popped_up, cooperative_channel_close, uncooperative_channel_close,
  token_approval, token_transfer, event_of, address_hex,
}

-- The types of the jobs that an event asks for, of the agent (`true`) and of the client.
pub data Asks (m : JobsMaker) (l : JobEthLog) : Bool → Event → JobType → Type 0 where
  agents_channel : Asks m l true channel_created agent_after_channel_create
  agents_top_up : Asks m l true channel_topped_up agent_after_channel_top_up
  agents_request : Asks m l true channel_close_requested agent_after_uncooperative_close_request
  agents_offering : Asks m l true offering_created agent_after_offering_msg_bc_publish
  agents_deletion : Asks m l true offering_deleted agent_after_offering_delete
  agents_pop_up : Asks m l true offering_popped_up agent_after_offering_pop_up
  agents_close : Asks m l true cooperative_channel_close agent_after_cooperative_close
  agents_forced : Asks m l true uncooperative_channel_close agent_after_uncooperative_close
  clients_channel : Asks m l false channel_created client_after_channel_create
  clients_place : Asks m l false channel_created decrement_current_supply
  clients_top_up : Asks m l false channel_topped_up client_after_channel_top_up
  clients_request : Asks m l false channel_close_requested client_after_uncooperative_close_request
  clients_offering : Asks m l false offering_created client_after_offering_msg_bc_publish
  clients_deletion : Asks m l false offering_deleted client_after_offering_delete
  clients_pop_up : Asks m l false offering_popped_up client_after_offering_pop_up
  clients_close : Asks m l false cooperative_channel_close client_after_cooperative_close
  close_recorded : Asks m l false cooperative_channel_close client_record_closing
  close_counted : Asks m l false cooperative_channel_close increment_current_supply
  clients_forced : Asks m l false uncooperative_channel_close client_after_uncooperative_close
  forced_recorded : Asks m l false uncooperative_channel_close client_record_closing
  forced_counted : Asks m l false uncooperative_channel_close increment_current_supply
  approval : (agent : Bool) → Asks m l agent token_approval after_account_add_balance_approve
  returned :
      (agent : Bool) (from : ℕ)
      → get_elem? l.topics 1 ≡ some from
      → from % 2 ^ 160 ≡ m.psc_addr
      → Asks m l agent token_transfer after_account_return_balance
  added :
      (agent : Bool) (from : ℕ)
      → get_elem? l.topics 1 ≡ some from
      → from % 2 ^ 160 ≢ m.psc_addr
      → Asks m l agent token_transfer after_account_add_balance

-- The closing that a log tells of: its parties, its block and its balance; the ratings are asked
-- for when as many closings as the maker's limit were counted.
pub record IsRated (m : JobsMaker) (count : ℕ) (l : JobEthLog) (j : Job) : Type 0 where
  pub type : j.type ≡ client_record_closing
  pub agent : ℕ
  pub client : ℕ
  pub block : ℕ
  pub balance : ℕ
  pub agent_topic : get_elem? l.topics 1 ≡ some agent
  pub client_topic : get_elem? l.topics 2 ≡ some client
  pub arguments :
      m.unpack_values (uint32_type ∷ uint64_type ∷ []) l.bytes
      ≡ some (uint32_value block ∷ uint64_value balance ∷ [])
  pub recorded :
      j.payload
      ≡ record_closing
          (record {
            id = m.new_id 0;
            type = closing_coop;
            agent = address_hex m agent;
            client = address_hex m client;
            balance = balance;
            block = block;
          })
          (leb m.make_rating_job_after (count + 1))

-- A job of a type that the event asks for, with the kind that the handler of its type checks, if
-- it checks one, and with the log or the closing that the log tells of.
pub record IsMade (m : JobsMaker) (agent : Bool) (count : ℕ) (l : JobEthLog) (e : Event) (j : Job)
    : Type 0 where
  pub asked : Asks m l agent e j.type
  pub kind : (checked_kind j.type ≡ none) ⊎ (checked_kind j.type ≡ some j.related_type)
  pub carried :
      ((j.type ≢ client_record_closing) × (payload_eth_log j.payload ≡ some l))
      ⊎ IsRated m count l j

-- Each job is one that the event of the log's first topic asks for.
abbrev pub AreMade : JobsMaker → ℕ → JobEthLog → List Job → Type 0
AreMade m count l js =
    (first : ℕ) × (e : Event) × (get_elem? l.topics 0 ≡ some first)
    × (event_of first ≡ some e)
    × All (IsMade m m.is_agent count l e) js
