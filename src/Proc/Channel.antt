-- ===== src/Proc/Channel.antt =====
-- proc/channel.go: the checks and the job of a service status change.
use dappctrl.Base.{
  Bool, true, false, not, ◌&&◌, Option, none, some, ◌==◌, if◌then◌else◌, find?, any, update_where,
}
use dappctrl.Data.{
  Uuid, Channel, ServiceStatus, suspended, Job, JobType, JobStatus, JobCreator, RelatedType,
  canceled, empty_object, job_status_eq, job_type_eq, agent_pre_service_suspend,
  client_pre_service_suspend, agent_pre_service_unsuspend, client_pre_service_unsuspend,
  agent_pre_service_terminate, client_pre_service_terminate,
}
use dappctrl.Data.Error.{no_rows, bad_service_status, active_jobs_exist, same_job_exists}
use dappctrl.Store.{
  in_tx, Action, ◌>>=◌, ◌>>◌, pure, require, when, or_raise, query, exec, begin, commit,
}
use dappctrl.Job.Config.{Config}
use dappctrl.Job.Add.{Stamp, add, new_job}

-- The statuses from which a transition may start.
abbrev pub Transition : Type 0
Transition = ServiceStatus → Bool

unfoldable pub activate_transitions : Transition
activate_transitions ServiceStatus.pending = true
activate_transitions suspended = true
activate_transitions _ = false

unfoldable pub suspend_transitions : Transition
suspend_transitions ServiceStatus.active = true
suspend_transitions _ = false

unfoldable pub terminate_transitions : Transition
terminate_transitions ServiceStatus.pending = true
terminate_transitions ServiceStatus.active = true
terminate_transitions suspended = true
terminate_transitions _ = false

unfoldable pub is_active_for : Uuid → Job → Bool
is_active_for rel j = job_status_eq j.status JobStatus.active && (j.related_id == rel)

-- With a type: no active job of that type for the object; without one: no active job at all.
unfoldable pub check_job_exists : Uuid → Option JobType → Action (Unit {0})
check_job_exists rel none = do
  found ← query in_tx (λ d. any (is_active_for rel) d.jobs)
  require (not found) active_jobs_exist
check_job_exists rel (some ty) = do
  found ← query in_tx (λ d. any (λ j. is_active_for rel j && job_type_eq j.type ty) d.jobs)
  require (not found) same_job_exists

unfoldable pub canceled_job : Job → Job
canceled_job j = record j { status = canceled }

unfoldable pub cancel_jobs : Uuid → Action (Unit {0})
cancel_jobs rel =
    exec in_tx (λ d. record d { jobs = update_where (is_active_for rel) canceled_job d.jobs })

unfoldable pub select_channel : Uuid → Action Channel
select_channel id = do
  found ← query in_tx (λ d. find? (λ c. c.id == id) d.channels)
  or_raise found no_rows

-- The job that carries a change out.
unfoldable pub transition_job : Uuid → JobCreator → JobType → Job
transition_job id creator ty = new_job ty RelatedType.channel id creator empty_object 0

-- From the cancellation of the active jobs to the commit.
unfoldable pub enqueue_change : Config → Stamp → Channel → JobCreator → JobType → Bool → Action Uuid
enqueue_change conf s ch creator ty cancel = do
  when cancel (cancel_jobs ch.id)
  j ← add conf in_tx s (transition_job ch.id creator ty)
  commit
  pure j.id

unfoldable pub alter_service_status :
    Config → Stamp → Uuid → JobCreator → JobType → Option JobType → Transition → Bool → Action Uuid
alter_service_status conf s id creator ty checked trans cancel = do
  begin
  ch ← select_channel id
  require (trans ch.service_status) bad_service_status
  check_job_exists ch.id checked
  enqueue_change conf s ch creator ty cancel

unfoldable pub suspend_channel : Config → Stamp → Uuid → JobCreator → Bool → Action Uuid
suspend_channel conf s id creator agent =
    let ty = if agent then agent_pre_service_suspend else client_pre_service_suspend in
    alter_service_status conf s id creator ty none suspend_transitions false

unfoldable pub activate_channel : Config → Stamp → Uuid → JobCreator → Bool → Action Uuid
activate_channel conf s id creator agent =
    let ty = if agent then agent_pre_service_unsuspend else client_pre_service_unsuspend in
    alter_service_status conf s id creator ty none activate_transitions false

unfoldable pub terminate_channel : Config → Stamp → Uuid → JobCreator → Bool → Action Uuid
terminate_channel conf s id creator agent =
    let ty = if agent then agent_pre_service_terminate else client_pre_service_terminate in
    alter_service_status conf s id creator ty (some ty) terminate_transitions true
