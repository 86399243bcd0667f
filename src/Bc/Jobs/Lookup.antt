-- ===== src/Bc/Jobs/Lookup.antt =====
-- bc/jobsmaker.go and eth/constant.go: the events of the contracts and the jobs that they ask for.
use dappctrl.Base.{
  ℕ, ◌%◌, ◌^◌, Bool, true, false, ◌&&◌, Option, none, some, List, [], ◌∷◌, any, find?, get_elem?,
  ◌==◌,
}
use dappctrl.Data.{
  Uuid, HexString, Channel, Offering, Job, JobType, bc_monitor, RelatedType, eth_log, JobEthLog,
  Address, Hash, AbiType, AbiValue, uint32_type, uint64_type, uint32_value,
}
use dappctrl.Data.Error.{panic}
use dappctrl.Store.{Db, Result, ok, err, plain, Action, ◌>>=◌, pure, or_raise, attempt, query}
use dappctrl.Job.Add.{new_job}

-- The events that the contracts emit.
pub data Event : Type 0 where
  channel_created channel_topped_up channel_close_requested offering_created offering_deleted :
      Event
  offering_popped_up cooperative_channel_close uncooperative_channel_close : Event
  token_approval token_transfer : Event

-- The first topic of each event's logs.
unfoldable pub event_topic : Event → ℕ
event_topic channel_created =
    53644787866472888865097326353139511197244939021124280521517846461152282209729
event_topic channel_topped_up =
    95441629846068465456983621499097240498943438055191181133898779862552579678883
event_topic channel_close_requested =
    103128209016655038625917249411808317169468761922004221115435882721535236357291
event_topic offering_created =
    76334941064622987775039731542595841908645271746454371809325368015363248077113
event_topic offering_deleted =
    88203192299202904503539288211978419844273460748937559522908118081729384141782
event_topic offering_popped_up =
    56282752870655541896932955508196312661878479651485236644582819275991447881018
event_topic cooperative_channel_close =
    33481913093145425921630127157886495728827834290654184545799250794506655258848
event_topic uncooperative_channel_close =
    96885668209150399791703766568270157892329278824652557772846428352571825841116
event_topic token_approval =
    63486140976153616755203102783360879283472101686154884697241723088393386309925
event_topic token_transfer =
    100389287136786176327247604509743168900146139575972864366142685224231313322991

abbrev events : List Event
events =
    channel_created ∷ channel_topped_up ∷ channel_close_requested ∷ offering_created
    ∷ offering_deleted ∷ offering_popped_up ∷ cooperative_channel_close
    ∷ uncooperative_channel_close ∷ token_approval ∷ token_transfer ∷ []

unfoldable pub event_of : ℕ → Option Event
event_of t = find? (λ e. event_topic e == t) events

-- A maker of jobs: its fields, the identifiers that it makes up, and the ABI decoder.
pub record JobsMaker : Type 0 where
  pub psc_addr : Address
  pub make_rating_job_after : ℕ
  pub is_agent : Bool
  pub new_id : ℕ → Uuid
  pub of_address : Address → HexString
  pub of_hash : Hash → HexString
  pub unpack_values : List AbiType → List ℕ → Option (List AbiValue)

-- Indexing out of range panics.
unfoldable pub topic : JobEthLog → ℕ → Action ℕ
topic l n = or_raise (get_elem? l.topics n) panic

-- `common.BytesToAddress` keeps the last 20 bytes.
abbrev pub address_hex : JobsMaker → ℕ → HexString
address_hex m t = m.of_address (t % 2 ^ 160)

-- `produceCommon`; the creator is set by the monitor.
unfoldable pub produce_common : JobEthLog → Uuid → RelatedType → JobType → Job
produce_common l id rel ty = new_job ty rel id bc_monitor (eth_log l) 0

abbrev or_none : {A : Type 0} → Result (Option A) → Option A
or_none (ok o) = o
or_none (err _) = none

-- A query whose error counts as no row.
unfoldable pub lookup : {A : Type 0} → (Db → Option A) → Action (Option A)
lookup f = do found ← attempt (query plain f); pure (or_none found)

-- `findOfferingID`
unfoldable pub offering_id : JobsMaker → ℕ → Db → Option Uuid
offering_id m t d = id_of (find? (λ o. o.hash == m.of_hash t) d.offerings)
  where
    id_of : Option Offering → Option Uuid
    id_of none = none
    id_of (some o) = some o.id

-- The opening block that an event's log has, for the events that have one.
unfoldable pub has_open_block : Event → Bool
has_open_block channel_topped_up = true
has_open_block channel_close_requested = true
has_open_block cooperative_channel_close = true
has_open_block uncooperative_channel_close = true
has_open_block _ = false

abbrev first_uint32 : Option (List AbiValue) → Option ℕ
first_uint32 (some (uint32_value b ∷ _ ∷ [])) = some b
first_uint32 _ = none

-- `blockNumber`, with the arguments of a top-up's log whatever the event.
unfoldable pub open_block_number : JobsMaker → JobEthLog → Option ℕ
open_block_number m l = first_uint32 (m.unpack_values (uint32_type ∷ uint64_type ∷ []) l.bytes)

abbrev channel_id : Option Channel → Option Uuid
channel_id none = none
channel_id (some c) = some c.id

-- The channel between the parties of a log, of its offering and opened in a block.
unfoldable pub is_channel_of : JobsMaker → ℕ → ℕ → ℕ → ℕ → Db → Channel → Bool
is_channel_of m agent client hash block d c =
    any (λ o. o.id == c.offering && o.hash == m.of_hash hash) d.offerings
    && (c.agent == address_hex m agent && (c.client == address_hex m client && c.block == block))

-- The channel for which a transaction was sent.
unfoldable pub is_sent_for : HexString → Db → Channel → Bool
is_sent_for hash d c = any (λ t. t.related_id == c.id && t.hash == hash) d.eth_txs

abbrev find_channel : JobsMaker → JobEthLog → ℕ → ℕ → ℕ → Bool → Option ℕ → Action (Option Uuid)
find_channel m l agent client hash true none = pure none
find_channel m l agent client hash true (some block) =
    lookup (λ d. channel_id (find? (is_channel_of m agent client hash block d) d.channels))
find_channel m l agent client hash false _ =
    lookup (λ d. channel_id (find? (is_sent_for l.tx_hash d) d.channels))

-- `findChannelID`
unfoldable pub find_channel_id : JobsMaker → Event → JobEthLog → Action (Option Uuid)
find_channel_id m e l = do
  agent ← topic l 1
  client ← topic l 2
  hash ← topic l 3
  find_channel m l agent client hash (has_open_block e) (open_block_number m l)

-- One job for a row that was found, or none.
abbrev pub job_for : JobEthLog → RelatedType → JobType → Option Uuid → List Job
job_for l rel ty none = []
job_for l rel ty (some id) = produce_common l id rel ty ∷ []

-- `onExistingChannelEvent`
unfoldable pub on_existing_channel_event :
    JobsMaker → Event → JobEthLog → JobType → Action (List Job)
on_existing_channel_event m e l ty = do
  id ← find_channel_id m e l
  pure (job_for l RelatedType.channel ty id)

-- `onOfferingRelatedEvent`
unfoldable pub on_offering_related_event : JobsMaker → JobEthLog → JobType → Action (List Job)
on_offering_related_event m l ty = do
  t ← topic l 2
  id ← lookup (offering_id m t)
  pure (job_for l RelatedType.offering ty id)
