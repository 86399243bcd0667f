-- ===== src/Ui/Channels.antt =====
-- ui/channel.go: what the user asks of channels.
use dappctrl.Base.{
  ℕ, Bool, true, not, ◌&&◌, ◌||◌, Option, List, any, find?, select, length, ◌==◌, if◌then◌else◌,
}
use dappctrl.Data.{
  Uuid, Text, Channel, ChannelStatus, ServiceStatus, channel_status_eq, service_status_eq, JobType,
  JobCreator, RelatedType, Payload, top_up, client_pre_channel_top_up,
  client_pre_uncooperative_close_request,
}
use dappctrl.Data.Error.{ui}
use dappctrl.Data.UiError.{internal, channel_not_found, bad_action, not_allowed_for_agent}
use dappctrl.Store.{Db, plain, Action, ◌>>=◌, ◌>>◌, pure, raise, require, on_error}
use dappctrl.Job.Add.{add_with_data}
use dappctrl.Proc.Channel.{suspend_channel, activate_channel, terminate_channel}
use dappctrl.Ui.Env.{Handler}
use dappctrl.Ui.Access.{
  check_token, find_row, select_rows, page, is_account, gas_or_suggested, job_publish_data,
}

abbrev channel_of : Uuid → Db → Option Channel
channel_of id d = find? (λ c. c.id == id) d.channels

-- `job.AddWithData` for the user.
unfoldable pub add_user_job : Handler → JobType → RelatedType → Uuid → Payload → Action (Unit {0})
add_user_job h ty rel id p = do
  add_with_data h.queue plain h.stamp ty rel id JobCreator.user p h.now
  pure tt

-- `TopUpChannel`
unfoldable pub top_up_channel : Handler → Text → Uuid → ℕ → ℕ → Action (Unit {0})
top_up_channel h tkn id deposit gas = do
  check_token h tkn
  ch ← find_row channel_not_found (channel_of id)
  price ← gas_or_suggested h gas
  add_user_job h client_pre_channel_top_up RelatedType.channel ch.id (top_up price deposit)

pub data ChannelAction : Type 0 where
  pause resume terminate close unknown : ChannelAction

-- The client's channels are those whose agent has no account here.
abbrev is_changeable : Handler → Uuid → Db → Channel → Bool
is_changeable h id d c = c.id == id && (h.is_agent || not (is_account d c.agent))

-- `createPreUncooperativeCloseRequest`
unfoldable pub create_close_request : Handler → Uuid → Action (Unit {0})
create_close_request h id = do
  p ← job_publish_data h 0
  add_user_job h client_pre_uncooperative_close_request RelatedType.channel id p

unfoldable pub channel_action : Handler → Uuid → ChannelAction → Action (Unit {0})
channel_action h id pause =
    on_error (ui internal) (suspend_channel h.queue h.stamp id JobCreator.user h.is_agent)
    >> pure tt
channel_action h id resume =
    on_error (ui internal) (activate_channel h.queue h.stamp id JobCreator.user h.is_agent)
    >> pure tt
channel_action h id terminate =
    on_error (ui internal) (terminate_channel h.queue h.stamp id JobCreator.user h.is_agent)
    >> pure tt
channel_action h id close = do
  require (not h.is_agent) (ui not_allowed_for_agent)
  on_error (ui internal) (create_close_request h id)
channel_action h id unknown = raise (ui bad_action)

-- `ChangeChannelStatus`
unfoldable pub change_channel_status : Handler → Text → Uuid → ChannelAction → Action (Unit {0})
change_channel_status h tkn id action = do
  check_token h tkn
  items ← select_rows (λ d. select (is_changeable h id d) d.channels)
  require (length items == 1) (ui channel_not_found)
  channel_action h id action

-- `getChannelsConditions`: no list of statuses is no condition.
unfoldable pub has_statuses : List ChannelStatus → List ServiceStatus → Channel → Bool
has_statuses cs ss c =
    (length cs == 0 || any (λ s. channel_status_eq c.channel_status s) cs)
    && (length ss == 0 || any (λ s. service_status_eq c.service_status s) ss)

-- `getChannels`, for the channels of the agent or of the client.
unfoldable pub get_channels :
    Bool → List ChannelStatus → List ServiceStatus → ℕ → ℕ → Action (List Channel × ℕ)
get_channels agent cs ss offset limit = do
  total ← select_rows (λ d. length (rows d))
  items ← select_rows (λ d. page offset limit (rows d))
  pure (items, total)
  where
    is_side : Db → Channel → Bool
    is_side d c = if agent then is_account d c.agent else not (is_account d c.agent)

    rows : Db → List Channel
    rows d = select (λ c. has_statuses cs ss c && is_side d c) d.channels

-- `GetAgentChannels`
unfoldable pub get_agent_channels :
    Handler → Text → List ChannelStatus → List ServiceStatus → ℕ → ℕ → Action (List Channel × ℕ)
get_agent_channels h tkn cs ss offset limit = do
  check_token h tkn
  get_channels true cs ss offset limit
