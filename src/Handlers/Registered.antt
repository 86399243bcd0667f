-- ===== src/Handlers/Registered.antt =====
-- What the agent's handler of a new channel leaves behind when it ends well.
use dappctrl.Base.{
  ℕ, ◌≤◌, ◌≡◌, Option, none, some, find?, ◌==◌, ◌+◌, ◌-◌, ◌%◌, ◌^◌, List, ◌∷◌, update_where,
}
use dappctrl.Data.{
  Channel, ChannelStatus, ServiceStatus, JobStatus, User, Offering, Job, JobType, JobCreator,
  RelatedType, JobEthLog, empty_object, compute_price, agent_pre_endpoint_msg_create, eth_log,
}
use dappctrl.Store.{Db, World, ok}
use dappctrl.Store.Ensures.{Ensures}
use dappctrl.Job.Config.{type_config}
use dappctrl.Job.Add.{stamped, new_job}
use dappctrl.Handlers.Env.{Worker}
use dappctrl.Handlers.Events.{LogChannelCreated, extract_log_channel_created}

-- The row of the `n`-th job that a handler adds.
abbrev pub task_job : Worker → ℕ → JobType → RelatedType → ℕ → Job
task_job h n ty rel id =
    let j = new_job ty rel id JobCreator.task empty_object (h.now + 0) in
    stamped (type_config h.queue j) (h.stamp n) j

abbrev pub endpoint_job : Worker → Job → Job
endpoint_job h j = task_job h 0 agent_pre_endpoint_msg_create RelatedType.channel j.related_id

-- The channel of a job, with what its log says: open on the chain, its service not begun, and
-- nothing paid.
pub record IsOpened (h : Worker) (j : Job) (l : JobEthLog) (args : LogChannelCreated)
    (offer : Offering) (ch : Channel) : Type 0 where
  pub id : ch.id ≡ j.related_id
  pub agent : ch.agent ≡ h.of_address args.agent_addr
  pub client : ch.client ≡ h.of_address args.client_addr
  pub of_offer : ch.offering ≡ offer.id
  pub block : ch.block ≡ l.block % 2 ^ 32
  pub active : ch.channel_status ≡ ChannelStatus.active
  pub not_begun : ch.service_status ≡ ServiceStatus.pending
  pub deposit : ch.total_deposit ≡ args.deposit
  pub unpaid : ch.receipt_balance ≡ 0

-- The job that makes the endpoint of the same channel.
pub record IsNext (j row : Job) : Type 0 where
  pub active : row.status ≡ JobStatus.active
  pub type : row.type ≡ agent_pre_endpoint_msg_create
  pub kind : row.related_type ≡ RelatedType.channel
  pub related : row.related_id ≡ j.related_id

abbrev pub with_user : Option User → List User → List User
with_user none l = l
with_user (some u) l = u ∷ l

-- A channel that was registered: what it was checked against, and the tables that are left.
pub record IsRegistered (h : Worker) (j : Job) (w : World) (d' : Db) : Type 0 where
  pub l : JobEthLog
  pub args : LogChannelCreated
  pub offer : Offering
  pub client : Option User
  pub log : j.payload ≡ eth_log l
  pub read : (extract_log_channel_created h l w).0 ≡ ok args
  pub offered : find? (λ o. o.hash == h.of_hash args.offering_hash) w.db.offerings ≡ some offer
  pub enough : compute_price offer offer.min_units ≤ args.deposit
  pub ch : Channel
  pub opened : IsOpened h j l args offer ch
  pub within : (offer.current_supply + (2 ^ 16 - 1)) % 2 ^ 16 ≤ offer.supply
  pub job : Job
  pub next : IsNext j job
  pub tables : d' ≡ (record w.db {
    users = with_user client w.db.users;
    offerings =
        update_where
          (λ o. o.id == offer.id)
          (λ _. record offer { current_supply = (offer.current_supply + (2 ^ 16 - 1)) % 2 ^ 16 })
          w.db.offerings;
    channels = ch ∷ w.db.channels;
    jobs = job ∷ w.db.jobs;
  })
