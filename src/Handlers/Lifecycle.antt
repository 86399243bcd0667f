-- ===== src/Handlers/Lifecycle.antt =====
-- The life of a service as a machine, and that an accepted change carried out by its handler is one
-- of the machine's steps.
use dappctrl.Base.{◌≡◌, Bool, true, false}
use dappctrl.Data.{
  Uuid, ServiceStatus, suspending, suspended, terminating, terminated, activating, Job, JobType,
  JobCreator, agent_pre_service_suspend, agent_pre_service_unsuspend, agent_pre_service_terminate,
  client_pre_service_suspend, client_pre_service_unsuspend, client_pre_service_terminate,
}
use dappctrl.Store.{Action}
use dappctrl.Job.Config.{Config}
use dappctrl.Job.Add.{Stamp}
use dappctrl.Proc.Channel.{
  suspend_transitions, activate_transitions, terminate_transitions, Transition, suspend_channel,
  activate_channel, terminate_channel,
}
use dappctrl.Handlers.Env.{Worker}
use dappctrl.Handlers.Service.{
  agent_next_status, client_next_status, agent_pre_service_suspend_job,
  agent_pre_service_unsuspend_job, agent_pre_service_terminate_job, client_update_service_status,
}

pub data Change : Type 0 where
  suspend activate terminate : Change

-- What a change does to a service, before its product's adapter has taken part.
pub data Follows : Change → ServiceStatus → ServiceStatus → Type 0 where
  stops : Follows suspend ServiceStatus.active suspending
  starts : Follows activate ServiceStatus.pending activating
  resumes : Follows activate suspended activating
  ends : Follows terminate ServiceStatus.active terminating
  ends_pending : Follows terminate ServiceStatus.pending terminated
  ends_suspended : Follows terminate suspended terminated

abbrev pub allowed : Change → Transition
allowed suspend = suspend_transitions
allowed activate = activate_transitions
allowed terminate = terminate_transitions

-- The job of a change, for the agent or for the client.
abbrev pub job_of : Change → Bool → JobType
job_of suspend true = agent_pre_service_suspend
job_of suspend false = client_pre_service_suspend
job_of activate true = agent_pre_service_unsuspend
job_of activate false = client_pre_service_unsuspend
job_of terminate true = agent_pre_service_terminate
job_of terminate false = client_pre_service_terminate

abbrev pub next_status : Change → Bool → ServiceStatus → ServiceStatus
next_status c true s = agent_next_status (job_of c true) s
next_status c false s = client_next_status (job_of c false) s

pub next_status-Follows :
    (c : Change) (agent : Bool) (s : ServiceStatus)
    → allowed c s ≡ true
    → Follows c s (next_status c agent s)
unfolding suspend_transitions activate_transitions terminate_transitions agent_next_status
    client_next_status
next_status-Follows suspend true ServiceStatus.active e = stops
next_status-Follows suspend false ServiceStatus.active e = stops
next_status-Follows activate true ServiceStatus.pending e = starts
next_status-Follows activate false ServiceStatus.pending e = starts
next_status-Follows activate true suspended e = resumes
next_status-Follows activate false suspended e = resumes
next_status-Follows terminate true ServiceStatus.active e = ends
next_status-Follows terminate false ServiceStatus.active e = ends
next_status-Follows terminate true ServiceStatus.pending e = ends_pending
next_status-Follows terminate false ServiceStatus.pending e = ends_pending
next_status-Follows terminate true suspended e = ends_suspended
next_status-Follows terminate false suspended e = ends_suspended
next_status-Follows c agent s e = cc

-- `SuspendChannel`, `ActivateChannel` or `TerminateChannel`.
abbrev pub request : Config → Stamp → Uuid → JobCreator → Change → Bool → Action Uuid
request conf s id creator suspend agent = suspend_channel conf s id creator agent
request conf s id creator activate agent = activate_channel conf s id creator agent
request conf s id creator terminate agent = terminate_channel conf s id creator agent

-- The handler of the job of a change.
abbrev pub carry_out : Worker → Change → Bool → Job → Action (Unit {0})
carry_out h suspend true j = agent_pre_service_suspend_job h j
carry_out h activate true j = agent_pre_service_unsuspend_job h j
carry_out h terminate true j = agent_pre_service_terminate_job h j
carry_out h c false j = client_update_service_status h (job_of c false) j

-- Only a termination cancels the channel's other jobs.
abbrev pub cancels : Change → Bool
cancels suspend = false
cancels activate = false
cancels terminate = true
