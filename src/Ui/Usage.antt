-- ===== src/Ui/Usage.antt =====
-- ui/channel.go: what the user is told of a channel's usage.
use dappctrl.Base.{
  ℕ, ◌+◌, ◌-◌, ◌*◌, ◌/◌, ◌%◌, ◌^◌, Bool, false, not, ◌&&◌, ◌||◌, Option, none, some, List, [], ◌∷◌,
  any, find?, select, ◌==◌, ltb, leb, if◌then◌else◌,
}
use dappctrl.Data.{
  Uuid, HexString, Text, Instant, Address, UnitType, units, seconds, Offering, Channel,
  ChannelStatus, ServiceStatus, Session, Job, JobType, JobStatus, job_status_eq, failed, done,
  last_created,
}
use dappctrl.Data.Error.{ui, panic, failure}
use dappctrl.Data.UiError.{internal, offering_not_found, job_not_found}
use dappctrl.Store.{Db, Action, ◌>>=◌, ◌>>◌, pure, require, or_raise}
use dappctrl.Ui.Env.{Handler}
use dappctrl.Ui.Access.{check_token, find_row, select_rows}
use dappctrl.Ui.Channels.{get_channels}

pub record Usage : Type 0 where
  pub current : ℕ
  pub max_usage : ℕ
  pub unit_name : Text
  pub unit_type : UnitType
  pub cost : ℕ

unfoldable pub units_of : UnitType → Session → ℕ
units_of units s = s.units_used
units_of seconds s = s.seconds_consumed

-- The sum of a loop, in uint64.
unfoldable pub accumulated : UnitType → List Session → ℕ
accumulated ty [] = 0
accumulated ty (s ∷ l) = (accumulated ty l + units_of ty s) % 2 ^ 64

-- `newUsage`: the cost includes the setup price; a unit price of zero makes it panic.
unfoldable pub new_usage : Channel → Offering → List Session → Action Usage
new_usage c o l = do
  let used = accumulated o.unit_type l
  require (not (o.unit_price == 0)) panic
  pure (record {
    current = used;
    max_usage = (c.total_deposit + 2 ^ 64 - o.setup_price) % 2 ^ 64 / o.unit_price;
    unit_name = o.unit_name;
    unit_type = o.unit_type;
    cost = (o.setup_price + used * o.unit_price % 2 ^ 64) % 2 ^ 64;
  })

-- SUM, of any size.
unfoldable pub sum_of : UnitType → List Session → ℕ
sum_of ty [] = 0
sum_of ty (s ∷ l) = sum_of ty l + units_of ty s

-- A quotient of bigint, which is cut off towards zero, scanned as uint64.
unfoldable pub sql_quotient : ℕ → ℕ → ℕ → Option ℕ
sql_quotient a b c =
    if c == 0
    then none
    else if leb b a
    then some ((a - b) / c)
    else if ltb (b - a) c
    then some 0
    else none

unfoldable pub sessions_in : Db → Uuid → List Session
sessions_in d id = select (λ s. s.channel == id) d.sessions

-- What is made of the units used and of the units that the deposit pays for.
abbrev pub usage_with : Offering → ℕ → ℕ → Usage
usage_with o used limit = record {
  current = used;
  max_usage = limit;
  unit_name = o.unit_name;
  unit_type = o.unit_type;
  cost = used * o.unit_price % 2 ^ 64;
}

unfoldable pub scanned : Uuid → Offering → ℕ → Option ℕ → Option (Uuid × Usage)
scanned id o used none = none
scanned id o used (some limit) = some (id, usage_with o used limit)

-- A row of the query of `queryChannelsUsages`: none where a value is null or does not fit.
unfoldable pub usage_row : Db → Channel → Option Offering → Option (Uuid × Usage)
usage_row d c none = none
usage_row d c (some o) =
    if ltb (sum_of seconds (sessions_in d c.id)) (2 ^ 64)
      && ltb (sum_of units (sessions_in d c.id)) (2 ^ 64)
    then scanned c.id o (sum_of o.unit_type (sessions_in d c.id))
        (sql_quotient c.total_deposit o.setup_price o.unit_price)
    else none

abbrev pub and_row : {A : Type 0} → Option A → Option (List A) → Option (List A)
and_row (some r) (some l) = some (r ∷ l)
and_row _ _ = none

unfoldable pub usage_rows : Db → List Channel → Option (List (Uuid × Usage))
usage_rows d [] = some []
usage_rows d (c ∷ l) =
    and_row (usage_row d c (find? (λ o. o.id == c.offering) d.offerings)) (usage_rows d l)

-- `queryChannelsUsages`
unfoldable pub query_channels_usages : List Uuid → Db → Option (List (Uuid × Usage))
query_channels_usages ids d = usage_rows d (select (λ c. any (λ id. id == c.id) ids) d.channels)

-- `getChannelsUsages`
unfoldable pub usages_of : List Uuid → Action (List (Uuid × Usage))
usages_of [] = pure []
usages_of (id ∷ ids) = do
  rows ← select_rows (query_channels_usages (id ∷ ids))
  or_raise rows (ui internal)

-- `GetChannelsUsage`
unfoldable pub get_channels_usage : Handler → Text → List Uuid → Action (List (Uuid × Usage))
get_channels_usage h tkn ids = do check_token h tkn; usages_of ids

pub record ChanStatusBlock : Type 0 where
  pub service_status : ServiceStatus
  pub channel_status : ChannelStatus
  pub last_changed : Option Instant
  pub max_inactive_time : ℕ

pub record JobBlock : Type 0 where
  pub id : Uuid
  pub type : JobType
  pub status : JobStatus
  pub created_at : Instant

pub record ClientChannelInfo : Type 0 where
  pub id : Uuid
  pub agent : Address
  pub client : Address
  pub offering : Uuid
  pub offering_hash : HexString
  pub total_deposit : ℕ
  pub ch_stat : ChanStatusBlock
  pub job : JobBlock
  pub usage : Usage

unfoldable pub is_finished_for : Uuid → Job → Bool
is_finished_for id j =
    j.related_id == id && (job_status_eq j.status failed || job_status_eq j.status done)

-- The finished job of a channel that was created last.
unfoldable pub last_finished : Uuid → Db → Option Job
last_finished id d =
    let l = select (is_finished_for id) d.jobs in find? (λ j. j.created_at == last_created l) l

-- `createClientChannelResult`
unfoldable pub create_client_channel_result : Handler → Channel → Action ClientChannelInfo
create_client_channel_result h c = do
  o ← find_row offering_not_found (λ d. find? (λ o. o.id == c.offering) d.offerings)
  j ← find_row job_not_found (last_finished c.id)
  l ← select_rows (λ d. sessions_in d c.id)
  agent ← or_raise (h.to_address c.agent) failure
  client ← or_raise (h.to_address c.client) failure
  usage ← new_usage c o l
  pure (record {
    id = c.id;
    agent = agent;
    client = client;
    offering = c.offering;
    offering_hash = o.hash;
    total_deposit = c.total_deposit;
    ch_stat = record {
      service_status = c.service_status;
      channel_status = c.channel_status;
      last_changed = c.service_changed_time;
      max_inactive_time = o.max_inactive_time_sec;
    };
    job = record { id = j.id; type = j.type; status = j.status; created_at = j.created_at };
    usage = usage;
  })

unfoldable pub client_channel_results : Handler → List Channel → Action (List ClientChannelInfo)
client_channel_results h [] = pure []
client_channel_results h (c ∷ l) = do
  info ← create_client_channel_result h c
  rest ← client_channel_results h l
  pure (info ∷ rest)

-- `GetClientChannels`
unfoldable pub get_client_channels :
    Handler
    → Text
    → List ChannelStatus
    → List ServiceStatus
    → ℕ
    → ℕ
    → Action (List ClientChannelInfo × ℕ)
get_client_channels h tkn cs ss offset limit = do
  check_token h tkn
  found ← get_channels false cs ss offset limit
  items ← client_channel_results h found.0
  pure (items, found.1)
