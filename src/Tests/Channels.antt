-- ===== src/Tests/Channels.antt =====
-- Status changes on samples.
use dappctrl.Base.{◌≡◌, refl, true, false, none, [], ◌∷◌, any, find?}
use dappctrl.Data.{
  ServiceStatus, suspended, JobCreator, JobStatus, agent_pre_service_suspend, job_type_eq,
}
use dappctrl.Store.{Db, answering, monad, ok}
use dappctrl.Job.Add.{add, check_duplicated, is_duplicate, compared_tx, stamped, new_job}
use dappctrl.Job.Config.{type_config}
use dappctrl.Proc.Channel.{
  is_active_for, cancel_jobs, check_job_exists, select_channel, transition_job, enqueue_change,
  alter_service_status, suspend_transitions, activate_transitions, suspend_channel,
  activate_channel,
}
use dappctrl.Proc.Verdict.{verdict, alter_service_status-verdict}
use dappctrl.Tests.Samples.{sample_db, sample_job, sample_config, sample_stamp}

-- The service is active, and a suspension is under way.
abbrev suspending_db : Db
suspending_db =
    sample_db ServiceStatus.active 0 (sample_job JobStatus.active agent_pre_service_suspend ∷ [])

abbrev idle_db : ServiceStatus → Db
idle_db s = sample_db s 0 []

suspend_accepted :
    (suspend_channel sample_config sample_stamp 40 JobCreator.user false
      (answering (idle_db ServiceStatus.active))).0
    ≡ ok 900
unfolding suspend_channel alter_service_status suspend_transitions select_channel check_job_exists
    enqueue_change cancel_jobs add check_duplicated is_duplicate compared_tx stamped new_job
    transition_job type_config is_active_for monad any find? job_type_eq
suspend_accepted = refl

activate_accepted :
    (activate_channel sample_config sample_stamp 40 JobCreator.user true
      (answering (idle_db suspended))).0
    ≡ ok 900
unfolding activate_channel alter_service_status activate_transitions select_channel check_job_exists
    enqueue_change cancel_jobs add check_duplicated is_duplicate compared_tx stamped new_job
    transition_job type_config is_active_for monad any find? job_type_eq
activate_accepted = refl

alter_service_status-verdict_example :
    (alter_service_status sample_config sample_stamp 40 JobCreator.user agent_pre_service_suspend
      none suspend_transitions false
      (record (answering suspending_db) { calls = 0 })).0
    ≡ verdict sample_stamp 40 none suspend_transitions suspending_db
alter_service_status-verdict_example =
    alter_service_status-verdict sample_config sample_stamp 40 JobCreator.user
      agent_pre_service_suspend none suspend_transitions false suspending_db 0 tt
