-- ===== src/Proc/Verdict.antt =====
-- With a database that answers, a status change is decided by the tables alone.
use dappctrl.Base.{
  ℕ, ◌≡◌, Bool, true, false, Option, none, some, List, ◌==◌, ◌&&◌, arith, any, any-implies, find?,
  if◌then◌else◌, Option-cases, inl, inr, ◌+◌,
}
use dappctrl.Data.{Uuid, Channel, Job, JobType, JobCreator, Error, job_type_eq}
use dappctrl.Data.Error.{no_rows, bad_service_status, active_jobs_exist, same_job_exists}
use dappctrl.Store.{Db, Result, ok, err, answering, monad}
use dappctrl.Job.Config.{Config}
use dappctrl.Job.Add.{Stamp, is_duplicate, add, check_duplicated, stamped, compared_tx, new_job}
use dappctrl.Proc.Channel.{
  Transition, is_active_for, check_job_exists, cancel_jobs, select_channel, transition_job,
  enqueue_change, alter_service_status,
}
use dappctrl.Proc.Outcome.{conflicting}

abbrev pub conflict_error : Option JobType → Error
conflict_error none = active_jobs_exist
conflict_error (some _) = same_job_exists

abbrev pub verdict_on :
    Stamp → Option JobType → Transition → List Job → Option Channel → Result Uuid
verdict_on s checked trans js none = err no_rows
verdict_on s checked trans js (some ch) =
    if trans ch.service_status
    then (if conflicting ch.id checked js then err (conflict_error checked) else ok s.uuid)
    else err bad_service_status

unfoldable pub verdict : Stamp → Uuid → Option JobType → Transition → Db → Result Uuid
verdict s id checked trans d =
    verdict_on s checked trans d.jobs (find? (λ c. c.id == id) d.channels)

-- The check for a conflicting job covers the queue's own check for duplicates.
abbrev Covers : Option JobType → JobType → Type 0
Covers none ty = Unit {0}
Covers (some t) ty = t ≡ ty

pub no_duplicate :
    (rel : Uuid) (creator : JobCreator) (ty : JobType) (checked : Option JobType) (js : List Job)
    → Covers checked ty
    → conflicting rel checked js ≡ false
    → any (is_duplicate (transition_job rel creator ty)) js ≡ false
unfolding is_duplicate is_active_for transition_job new_job compared_tx
no_duplicate rel creator ty none js h free =
    any-implies (is_active_for rel) _ js (λ j. ground arith) free
no_duplicate rel creator ty (some t) js h free =
    any-implies (λ j. is_active_for rel j && job_type_eq j.type t) _ js (λ j. rw h (ground arith))
      free

enqueue_change_answers :
    (conf : Config) (s : Stamp) (ch : Channel) (creator : JobCreator) (ty : JobType) (cancel : Bool)
    (d : Db) (n : ℕ)
    → any (is_duplicate (transition_job ch.id creator ty)) d.jobs ≡ false
    → (enqueue_change conf s ch creator ty cancel (record (answering d) { calls = n })).0
      ≡ ok s.uuid
unfolding enqueue_change monad cancel_jobs add check_duplicated stamped
enqueue_change_answers conf s ch creator ty true d n h = ground arith
enqueue_change_answers conf s ch creator ty false d n h = ground arith

-- With a database that answers every call a change is refused only for a reason that the tables
-- give, checked in the order channel, status, conflicting job, and is accepted otherwise: where the
-- check for a conflicting job is for any job or for the type of the new job, the queue never
-- refuses that job as a duplicate.
pub alter_service_status-verdict :
    (conf : Config) (s : Stamp) (id : Uuid) (creator : JobCreator) (ty : JobType)
    (checked : Option JobType) (trans : Transition) (cancel : Bool) (d : Db) (n : ℕ)
    → Covers checked ty
    → (alter_service_status conf s id creator ty checked trans cancel
        (record (answering d) { calls = n })).0
      ≡ verdict s id checked trans d
unfolding alter_service_status verdict monad select_channel check_job_exists
alter_service_status-verdict conf s id creator ty none trans cancel d n h =
    elim (Option-cases (find? (λ c. c.id == id) d.channels)) [
      | inl e ↦ ground arith
      | inr (ch, e) ↦ ground (
        arith,
        no_duplicate ch.id creator ty none d.jobs h,
        enqueue_change_answers conf s ch creator ty cancel d (n + 1 + 1 + 1),
      )
    ]
alter_service_status-verdict conf s id creator ty (some t) trans cancel d n h =
    elim (Option-cases (find? (λ c. c.id == id) d.channels)) [
      | inl e ↦ ground arith
      | inr (ch, e) ↦ ground (
        arith,
        no_duplicate ch.id creator ty (some t) d.jobs h,
        enqueue_change_answers conf s ch creator ty cancel d (n + 1 + 1 + 1),
      )
    ]
