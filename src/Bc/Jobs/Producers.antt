-- ===== src/Bc/Jobs/Producers.antt =====
-- bc/jobsmaker.go: what a maker of jobs does with each event. A step takes the number of closings
-- since the ratings were last asked for, and returns the number after it.
use dappctrl.Base.{
  ℕ, ◌+◌, ◌%◌, ◌^◌, Bool, true, false, ◌&&◌, ◌||◌, Option, none, some, List, [], ◌∷◌, ◌++◌, find?,
  get_elem?, select, length, ◌==◌, leb, if◌then◌else◌,
}
use dappctrl.Data.{
  Uuid, Account, Job, JobType, bc_monitor, RelatedType, record_closing, JobEthLog, Closing,
  ClosingType, closing_coop, AbiValue, uint32_type, uint64_type, uint32_value, uint64_value,
  job_type_eq, payload_eth_log, agent_after_channel_create, agent_after_channel_top_up,
  agent_after_uncooperative_close_request, agent_after_uncooperative_close,
  agent_after_cooperative_close, agent_after_offering_msg_bc_publish, agent_after_offering_pop_up,
  agent_after_offering_delete, client_after_channel_create, client_after_channel_top_up,
  client_after_uncooperative_close_request, client_after_uncooperative_close,
  client_after_cooperative_close, client_after_offering_msg_bc_publish,
  client_after_offering_pop_up, client_after_offering_delete, client_record_closing,
  decrement_current_supply, increment_current_supply, after_account_add_balance_approve,
  after_account_add_balance, after_account_return_balance,
}
use dappctrl.Data.Error.{panic, failure}
use dappctrl.Store.{plain, Action, ◌>>=◌, ◌>>◌, pure, raise, or_raise, require, on_error, query}
use dappctrl.Job.Add.{new_job}
use dappctrl.Bc.Jobs.Lookup.{
  JobsMaker, Event, channel_created, channel_topped_up, channel_close_requested, offering_created,
  offering_deleted, offering_popped_up, cooperative_channel_close, uncooperative_channel_close,
  token_approval, token_transfer, event_of, event_topic, topic, address_hex, produce_common, lookup,
  offering_id, job_for, on_existing_channel_event, on_offering_related_event,
}

-- `updateRating`: whether it is time to ask for the ratings, and the number of closings after it.
unfoldable pub update_rating : ℕ → ℕ → Bool × ℕ
update_rating limit count = if leb limit (count + 1) then (true, 0) else (false, count + 1)

-- The block and the balance of a closing's log; other arguments make the handler panic.
abbrev pub closing_data : Option (List AbiValue) → Action (ℕ × ℕ)
closing_data none = raise failure
closing_data (some (uint32_value block ∷ uint64_value balance ∷ [])) = pure (block, balance)
closing_data (some _) = raise panic

abbrev unpack_closing : JobsMaker → List ℕ → Option (List AbiValue)
unpack_closing m bytes = m.unpack_values (uint32_type ∷ uint64_type ∷ []) bytes

-- `rateJob`
unfoldable pub rate_job : JobsMaker → ℕ → JobEthLog → ClosingType → Action (Job × ℕ)
rate_job m count l ty = do
  args ← closing_data (unpack_closing m l.bytes)
  agent ← topic l 1
  client ← topic l 2
  let (due, count') = update_rating m.make_rating_job_after count
  let closing : Closing = record {
    id = m.new_id 0;
    type = ty;
    agent = address_hex m agent;
    client = address_hex m client;
    balance = args.1;
    block = args.0;
  }
  pure (
    new_job client_record_closing RelatedType.channel (m.new_id 1) bc_monitor
        (record_closing closing due) 0,
    count',
  )

-- The job that brings, or brought, an offering that is not in the tables yet.
unfoldable pub is_offering_job : ℕ → Job → Bool
is_offering_job hash row =
    has_topic (payload_eth_log row.payload)
    && (job_type_eq row.type client_after_offering_msg_bc_publish
        || job_type_eq row.type client_after_offering_pop_up)
  where
    is_hash : Option ℕ → Bool
    is_hash none = false
    is_hash (some t) = t == hash

    has_topic : Option JobEthLog → Bool
    has_topic none = false
    has_topic (some l) = is_hash (get_elem? l.topics 2)

abbrev related_of : Option Job → Option Uuid
related_of none = none
related_of (some j) = some j.related_id

-- `offeringCreateJobRelatedID`, where the offering itself is not found.
abbrev or_announced : ℕ → Option Uuid → Action (Option Uuid)
or_announced hash (some id) = pure (some id)
or_announced hash none = lookup (λ d. related_of (find? (is_offering_job hash) d.jobs))

-- `updateCurrentSupplyJobs`
unfoldable pub update_current_supply_jobs : JobsMaker → JobEthLog → JobType → Action (List Job)
update_current_supply_jobs m l ty = do
  t ← topic l 3
  known ← lookup (offering_id m t)
  id ← or_announced t known
  pure (job_for l RelatedType.offering ty id)

-- The job of an uncooperative close between the same parties of the same offering.
unfoldable pub is_same_close : JobEthLog → Job → Bool
is_same_close l row =
    job_type_eq row.type increment_current_supply && same_topics (payload_eth_log row.payload)
  where
    same : Option ℕ → Option ℕ → Bool
    same (some a) (some b) = a == b
    same _ _ = false

    same_topics : Option JobEthLog → Bool
    same_topics none = false
    same_topics (some k) =
        same (get_elem? k.topics 0) (some (event_topic uncooperative_channel_close))
        && (same (get_elem? k.topics 1) (get_elem? l.topics 1)
            && (same (get_elem? k.topics 2) (get_elem? l.topics 2)
                && same (get_elem? k.topics 3) (get_elem? l.topics 3)))

-- Whether one of the jobs is of a channel opened in the block; a log that does not decode is an
-- error.
unfoldable pub any_of_block : JobsMaker → ℕ → List Job → Action Bool
any_of_block m block [] = pure false
any_of_block m block (row ∷ rows) = do
  l ← or_raise (payload_eth_log row.payload) panic
  args ← closing_data (unpack_closing m l.bytes)
  if args.0 == block then pure true else any_of_block m block rows

-- `incrementSupplyAlreadyCreated`
unfoldable pub increment_supply_already_created : JobsMaker → JobEthLog → Action Bool
increment_supply_already_created m l = do
  first ← topic l 0
  require (first == event_topic cooperative_channel_close || length l.topics == 4) failure
  args ← closing_data (unpack_closing m l.bytes)
  topic l 3
  rows ← on_error failure (query plain (λ d. select (is_same_close l) d.jobs))
  any_of_block m args.0 rows

-- A new channel is registered where its offering is known.
abbrev pub registering_jobs : JobsMaker → JobEthLog → Option Uuid → List Job
registering_jobs m l none = []
registering_jobs m l (some _) =
    produce_common l (m.new_id 0) RelatedType.channel agent_after_channel_create ∷ []

-- `agentOnChannelCreated`
unfoldable pub agent_on_channel_created : JobsMaker → JobEthLog → Action (List Job)
agent_on_channel_created m l = do
  t ← topic l 3
  known ← lookup (offering_id m t)
  pure (registering_jobs m l known)

-- `clientOnChannelCreated`
unfoldable pub client_on_channel_created : JobsMaker → JobEthLog → Action (List Job)
client_on_channel_created m l = do
  jobs ← on_existing_channel_event m channel_created l client_after_channel_create
  more ← update_current_supply_jobs m l decrement_current_supply
  pure (jobs ++ more)

-- `clientOnOfferingPopedUp`
unfoldable pub client_on_offering_popped_up : JobsMaker → JobEthLog → Action (List Job)
client_on_offering_popped_up m l = do
  t ← topic l 2
  known ← lookup (offering_id m t)
  pure (produce_common l (or_new known) RelatedType.offering client_after_offering_pop_up ∷ [])
  where
    or_new : Option Uuid → Uuid
    or_new none = m.new_id 0
    or_new (some id) = id

-- The jobs that follow a closing, unless the supply was counted before.
unfoldable pub unless_counted : JobsMaker → JobEthLog → List Job → List Job → Action (List Job)
unless_counted m l jobs [] = pure jobs
unless_counted m l jobs (j ∷ more) = do
  created ← increment_supply_already_created m l
  pure (if created then jobs else jobs ++ (j ∷ more))

-- What both closings do: the jobs of the channel, the closing's record, and those of the supply.
abbrev pub closing_jobs :
    JobsMaker
    → Event
    → JobEthLog
    → JobType
    → ClosingType
    → ℕ
    → (List Job → List Job → Action (List Job))
    → Action (List Job × ℕ)
closing_jobs m e l ty closing count join = do
  jobs ← on_existing_channel_event m e l ty
  rated ← rate_job m count l closing
  more ← update_current_supply_jobs m l increment_current_supply
  all ← join (jobs ++ (rated.0 ∷ [])) more
  pure (all, rated.1)

-- `clientOnCooperativeChannelClose`
unfoldable pub client_on_cooperative_channel_close :
    JobsMaker → ℕ → JobEthLog → Action (List Job × ℕ)
client_on_cooperative_channel_close m count l =
    closing_jobs m cooperative_channel_close l client_after_cooperative_close closing_coop count
      (unless_counted m l)

-- `clientOnUnCooperativeChannelClose`, which records the closing as a cooperative one.
unfoldable pub client_on_uncooperative_channel_close :
    JobsMaker → ℕ → JobEthLog → Action (List Job × ℕ)
client_on_uncooperative_channel_close m count l =
    closing_jobs m uncooperative_channel_close l client_after_uncooperative_close closing_coop count
      λ jobs more. pure (jobs ++ more)

abbrev account_id : Option Account → Option Uuid
account_id none = none
account_id (some a) = some a.id

-- `onTokenApprove`
unfoldable pub on_token_approve : JobsMaker → JobEthLog → Action (List Job)
on_token_approve m l = do
  t ← topic l 1
  id ← lookup (λ d. account_id (find? (λ a. a.eth_addr == address_hex m t) d.accounts))
  pure (job_for l RelatedType.account after_account_add_balance_approve id)

-- `onTokenTransfer`
unfoldable pub on_token_transfer : JobsMaker → JobEthLog → Action (List Job)
on_token_transfer m l = do
  from ← topic l 1
  to ← topic l 2
  id ← lookup (λ d.
      account_id (
        find? (λ a. a.eth_addr == address_hex m from || a.eth_addr == address_hex m to) d.accounts))
  pure (
      job_for l RelatedType.account
        (if from % 2 ^ 160 == m.psc_addr
          then after_account_return_balance
          else after_account_add_balance)
        id)

-- The event leaves the number of closings alone.
unfoldable pub uncounted : ℕ → Action (List Job) → Action (List Job × ℕ)
uncounted count a = do jobs ← a; pure (jobs, count)

-- `agentJobsProducers`
unfoldable pub agent_jobs : JobsMaker → Event → JobEthLog → Action (List Job)
agent_jobs m channel_created l = agent_on_channel_created m l
agent_jobs m channel_topped_up l =
    on_existing_channel_event m channel_topped_up l agent_after_channel_top_up
agent_jobs m channel_close_requested l =
    on_existing_channel_event m channel_close_requested l agent_after_uncooperative_close_request
agent_jobs m offering_created l = on_offering_related_event m l agent_after_offering_msg_bc_publish
agent_jobs m offering_deleted l = on_offering_related_event m l agent_after_offering_delete
agent_jobs m offering_popped_up l = on_offering_related_event m l agent_after_offering_pop_up
agent_jobs m cooperative_channel_close l =
    on_existing_channel_event m cooperative_channel_close l agent_after_cooperative_close
agent_jobs m uncooperative_channel_close l =
    on_existing_channel_event m uncooperative_channel_close l agent_after_uncooperative_close
agent_jobs m token_approval l = on_token_approve m l
agent_jobs m token_transfer l = on_token_transfer m l

-- `clientJobsProducers`
unfoldable pub client_jobs : JobsMaker → ℕ → Event → JobEthLog → Action (List Job × ℕ)
client_jobs m count channel_created l = uncounted count (client_on_channel_created m l)
client_jobs m count channel_topped_up l =
    uncounted count (on_existing_channel_event m channel_topped_up l client_after_channel_top_up)
client_jobs m count channel_close_requested l =
    uncounted count (
      on_existing_channel_event m channel_close_requested l
        client_after_uncooperative_close_request)
client_jobs m count offering_created l = pure (
  produce_common l (m.new_id 0) RelatedType.offering client_after_offering_msg_bc_publish ∷ [],
  count,
)
client_jobs m count offering_deleted l =
    uncounted count (on_offering_related_event m l client_after_offering_delete)
client_jobs m count offering_popped_up l = uncounted count (client_on_offering_popped_up m l)
client_jobs m count cooperative_channel_close l = client_on_cooperative_channel_close m count l
client_jobs m count uncooperative_channel_close l = client_on_uncooperative_channel_close m count l
client_jobs m count token_approval l = uncounted count (on_token_approve m l)
client_jobs m count token_transfer l = uncounted count (on_token_transfer m l)

-- `makeJobs`
unfoldable pub make_jobs : JobsMaker → ℕ → JobEthLog → Action (List Job × ℕ)
make_jobs m count l = do
  first ← topic l 0
  e ← or_raise (event_of first) failure
  if m.is_agent then uncounted count (agent_jobs m e l) else client_jobs m count e l
