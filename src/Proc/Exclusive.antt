-- ===== src/Proc/Exclusive.antt =====
-- A channel has at most one service status change under way.
use dappctrl.Base.{
  ◌≡◌, refl, ◌⊎◌, inl, inr, Bool, true, false, Option, none, some, List, [], ◌∷◌, arith, select,
  select-any-false, select-update_where, if◌then◌else◌, update_where,
}
use dappctrl.Data.{
  Uuid, Job, JobType, JobCreator, agent_pre_service_suspend, client_pre_service_suspend,
  agent_pre_service_unsuspend, client_pre_service_unsuspend, agent_pre_service_terminate,
  client_pre_service_terminate,
}
use dappctrl.Store.{Db, World, ok}
use dappctrl.Job.Config.{Config, type_config}
use dappctrl.Job.Add.{Stamp, stamped, new_job}
use dappctrl.Proc.Channel.{
  Transition, is_active_for, canceled_job, transition_job, alter_service_status, suspend_channel,
  activate_channel, terminate_channel,
}
use dappctrl.Proc.Outcome.{conflicting, altered, alter_service_status-Ensures}

-- `j` is the only active job of the object, it is new, and it is of the given type.
pub record Only (id : Uuid) (ty : JobType) (u : Uuid) (js : List Job) : Type 0 where
  pub job : Job
  pub alone : select (is_active_for id) js ≡ job ∷ []
  pub new : job.id ≡ u
  pub typed : job.type ≡ ty

new_is_active :
    (conf : Config) (s : Stamp) (id : Uuid) (creator : JobCreator) (ty : JobType)
    → let job = transition_job id creator ty in
      is_active_for id (stamped (type_config conf job) s job) ≡ true
unfolding is_active_for stamped transition_job new_job
new_is_active conf s id creator ty = ground arith

others_inactive :
    (id : Uuid) (checked : Option JobType) (cancel : Bool) (js : List Job)
    → (cancel ≡ true) ⊎ (checked ≡ none)
    → conflicting id checked js ≡ false
    → select
        (is_active_for id)
        (if cancel then update_where (is_active_for id) canceled_job js else js)
      ≡ []
unfolding is_active_for canceled_job
others_inactive id checked true js h free =
    select-update_where (is_active_for id) canceled_job js (λ j. ground arith)
others_inactive id none false js h free = select-any-false (is_active_for id) js free
others_inactive id (some t) false js h free = ground arith

altered-Only :
    (conf : Config) (s : Stamp) (id : Uuid) (creator : JobCreator) (ty : JobType)
    (checked : Option JobType) (cancel : Bool) (d : Db)
    → (cancel ≡ true) ⊎ (checked ≡ none)
    → conflicting id checked d.jobs ≡ false
    → Only id ty s.uuid (altered conf s id creator ty cancel d).jobs
unfolding altered select stamped transition_job new_job
altered-Only conf s id creator ty checked cancel d h free = record {
  job = stamped (type_config conf (transition_job id creator ty)) s (transition_job id creator ty);
  alone =
      ground (
        arith,
        new_is_active conf s id creator ty,
        others_inactive id checked cancel d.jobs h free,
      );
  new = refl;
  typed = refl;
}

alter-Only :
    (conf : Config) (s : Stamp) (id : Uuid) (creator : JobCreator) (ty : JobType)
    (checked : Option JobType) (trans : Transition) (cancel : Bool) (w : World) (u : Uuid)
    → (cancel ≡ true) ⊎ (checked ≡ none)
    → (alter_service_status conf s id creator ty checked trans cancel w).0 ≡ ok u
    → Only id ty u (alter_service_status conf s id creator ty checked trans cancel w).1.db.jobs
alter-Only conf s id creator ty checked trans cancel w u h e =
    let (acc, new, tables) =
      (alter_service_status-Ensures conf s id creator ty checked trans cancel w).holds u e in
    rw (tables, new) (altered-Only conf s id creator ty checked cancel w.db h acc.free)

module _ (conf : Config) (s : Stamp) (id : Uuid) (creator : JobCreator) (w : World) (u : Uuid) where
  pub terminate_channel-Only :
      (agent : Bool)
      → (terminate_channel conf s id creator agent w).0 ≡ ok u
      → Only id
          (if agent then agent_pre_service_terminate else client_pre_service_terminate)
          u
          (terminate_channel conf s id creator agent w).1.db.jobs
  unfolding terminate_channel
  terminate_channel-Only agent e = alter-Only _ _ _ _ _ _ _ _ w u (inl refl) e

  -- After a suspension was accepted its job is the only active job of the channel, as it had none.
  pub suspend_channel-Only :
      (agent : Bool)
      → (suspend_channel conf s id creator agent w).0 ≡ ok u
      → Only id
          (if agent then agent_pre_service_suspend else client_pre_service_suspend)
          u
          (suspend_channel conf s id creator agent w).1.db.jobs
  unfolding suspend_channel
  suspend_channel-Only agent e = alter-Only _ _ _ _ _ _ _ _ w u (inr refl) e

  -- After an activation was accepted its job is the only active job of the channel, as it had none.
  pub activate_channel-Only :
      (agent : Bool)
      → (activate_channel conf s id creator agent w).0 ≡ ok u
      → Only id
          (if agent then agent_pre_service_unsuspend else client_pre_service_unsuspend)
          u
          (activate_channel conf s id creator agent w).1.db.jobs
  unfolding activate_channel
  activate_channel-Only agent e = alter-Only _ _ _ _ _ _ _ _ w u (inr refl) e
