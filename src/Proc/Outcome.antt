-- ===== src/Proc/Outcome.antt =====
-- What altering a service status comes to: its effect when it succeeds, and its atomicity.
use dappctrl.Base.{
  ◌≡◌, Bool, true, false, not, Option, none, some, List, ◌∷◌, ◌==◌, ◌&&◌, arith, any, find?,
  find?-sound, if◌then◌else◌, update_where, ==_iff, ◌∙◌, subst, ap,
}
use dappctrl.Data.{Uuid, Channel, Job, JobType, JobCreator, job_type_eq, Error}
use dappctrl.Store.{Db, World, ok, err, in_tx, commit, when}
use dappctrl.Store.Frames.{
  Keeps, IsAtomic, >>=-Keeps, >>=-IsAtomic, pure_after-IsAtomic, commit-IsAtomic, frames,
}
use dappctrl.Store.Ensures.{
  Ensures, Same, >>=-Ensures, weaken, pure-Ensures, query-Ensures, require-Ensures,
  or_raise-Ensures, begin-Ensures, commit-Ensures, exec_tx-Ensures,
}
use dappctrl.Job.Config.{Config, type_config}
use dappctrl.Job.Add.{Stamp, stamped, insert_job}
use dappctrl.Job.Add.Outcome.{Added, add-Keeps, add_tx-Ensures}
use dappctrl.Proc.Channel.{
  Transition, is_active_for, canceled_job, check_job_exists, cancel_jobs, select_channel,
  transition_job, enqueue_change, alter_service_status,
}

-- What `checkJobExists` finds in the tables.
abbrev pub conflicting : Uuid → Option JobType → List Job → Bool
conflicting rel none js = any (is_active_for rel) js
conflicting rel (some ty) js = any (λ j. is_active_for rel j && job_type_eq j.type ty) js

select_channel-Keeps : (id : Uuid) → Keeps (select_channel id)
unfolding select_channel
select_channel-Keeps id = >>=-Keeps _ _ (search frames) λ _. search frames

check_job_exists-Keeps : (rel : Uuid) (ty : Option JobType) → Keeps (check_job_exists rel ty)
unfolding check_job_exists
check_job_exists-Keeps rel none = >>=-Keeps _ _ (search frames) λ _. search frames
check_job_exists-Keeps rel (some ty) = >>=-Keeps _ _ (search frames) λ _. search frames

cancel_jobs-Keeps : (rel : Uuid) → Keeps (cancel_jobs rel)
unfolding cancel_jobs
cancel_jobs-Keeps rel = search frames

enqueue_change-IsAtomic :
    (conf : Config) (s : Stamp) (ch : Channel) (creator : JobCreator) (ty : JobType) (cancel : Bool)
    → IsAtomic (enqueue_change conf s ch creator ty cancel)
unfolding enqueue_change
enqueue_change-IsAtomic conf s ch creator ty cancel =
    >>=-IsAtomic _ _ (search (frames, cancel_jobs-Keeps ch.id)) λ _.
      >>=-IsAtomic _ _ (add-Keeps conf s _) λ j. pure_after-IsAtomic commit j.id commit-IsAtomic

pub alter_service_status-IsAtomic :
    (conf : Config) (s : Stamp) (id : Uuid) (creator : JobCreator) (ty : JobType)
    (checked : Option JobType) (trans : Transition) (cancel : Bool)
    → IsAtomic (alter_service_status conf s id creator ty checked trans cancel)
unfolding alter_service_status
alter_service_status-IsAtomic conf s id creator ty checked trans cancel =
    >>=-IsAtomic _ _ (search frames) λ _. >>=-IsAtomic _ _ (select_channel-Keeps id) λ ch.
      >>=-IsAtomic _ _ (search frames) λ _.
        >>=-IsAtomic _ _ (check_job_exists-Keeps ch.id checked)
          λ _. enqueue_change-IsAtomic conf s ch creator ty cancel

select_channel-Ensures :
    (id : Uuid) (w : World)
    → Ensures
        (select_channel id)
        w
        (λ ch w'. (find? (λ c. c.id == id) w.tx.channels ≡ some ch) × Same w w')
unfolding select_channel
select_channel-Ensures id w =
    >>=-Ensures (λ o w'. (o ≡ find? (λ c. c.id == id) w.tx.channels) × Same w w') _ _ w
      (query-Ensures in_tx _ w) λ o w1 q. weaken (or_raise-Ensures o _ w1) λ ch w2 r. ground arith

check_job_exists-Ensures :
    (rel : Uuid) (ty : Option JobType) (w : World)
    → Ensures
        (check_job_exists rel ty)
        w
        (λ _ w'. (conflicting rel ty w.tx.jobs ≡ false) × Same w w')
unfolding check_job_exists
check_job_exists-Ensures rel none w =
    >>=-Ensures (λ b w'. (b ≡ conflicting rel none w.tx.jobs) × Same w w') _ _ w
      (query-Ensures in_tx _ w)
      λ b w1 q. weaken (require-Ensures (not b) _ w1) λ _ w2 r. ground arith
check_job_exists-Ensures rel (some ty) w =
    >>=-Ensures (λ b w'. (b ≡ conflicting rel (some ty) w.tx.jobs) × Same w w') _ _ w
      (query-Ensures in_tx _ w)
      λ b w1 q. weaken (require-Ensures (not b) _ w1) λ _ w2 r. ground arith

-- The tables after a change was accepted: the new job, and the others as they were or canceled.
unfoldable pub altered : Config → Stamp → Uuid → JobCreator → JobType → Bool → Db → Db
altered conf s id creator ty cancel d =
    let job = transition_job id creator ty in
    record d {
      jobs =
          stamped (type_config conf job) s job
          ∷ (if cancel then update_where (is_active_for id) canceled_job d.jobs else d.jobs);
    }

-- The channel that a change was accepted for, and why.
pub record Accepted (id : Uuid) (checked : Option JobType) (trans : Transition) (d : Db)
    : Type 0 where
  pub ch : Channel
  pub found : find? (λ c. c.id == id) d.channels ≡ some ch
  pub allowed : trans ch.service_status ≡ true
  pub free : conflicting id checked d.jobs ≡ false

abbrev canceled_if : Bool → Uuid → Db → Db
canceled_if b id d = record d {
  jobs = if b then update_where (is_active_for id) canceled_job d.jobs else d.jobs;
}

cancel-Ensures :
    (b : Bool) (id : Uuid) (w : World)
    → Ensures (when b (cancel_jobs id)) w (λ _ w'. (w'.db ≡ w.db) × (w'.tx ≡ canceled_if b id w.tx))
unfolding cancel_jobs when
cancel-Ensures true id w = exec_tx-Ensures _ w
cancel-Ensures false id w = record { holds = λ _ e. ground arith }

enqueue_change-Ensures :
    (conf : Config) (s : Stamp) (ch : Channel) (creator : JobCreator) (ty : JobType) (cancel : Bool)
    (w : World)
    → Ensures
        (enqueue_change conf s ch creator ty cancel)
        w
        λ u w'. (u ≡ s.uuid) × (w'.db ≡ altered conf s ch.id creator ty cancel w.tx)
unfolding enqueue_change altered stamped
enqueue_change-Ensures conf s ch creator ty cancel w =
    >>=-Ensures (λ _ w1. (w1.db ≡ w.db) × (w1.tx ≡ canceled_if cancel ch.id w.tx)) _ _ w
      (cancel-Ensures cancel ch.id w)
      λ _ w1 q1.
        >>=-Ensures (Added conf s (transition_job ch.id creator ty) w1) _ _ w1
          (add_tx-Ensures conf s _ w1)
          λ j w2 q2.
            >>=-Ensures (λ _ w3. w3.db ≡ w2.tx) _ _ w2 (commit-Ensures w2)
              λ _ w3 q3.
                pure-Ensures j.id w3 (ap (λ r. r.id) q2.row, q3 ∙ q2.tx ∙ ap (insert_job _) q1.1)

pub alter_service_status-Ensures :
    (conf : Config) (s : Stamp) (id : Uuid) (creator : JobCreator) (ty : JobType)
    (checked : Option JobType) (trans : Transition) (cancel : Bool) (w : World)
    → Ensures (alter_service_status conf s id creator ty checked trans cancel) w λ u w'.
      Accepted id checked trans w.db
      × (u ≡ s.uuid)
      × (w'.db ≡ altered conf s id creator ty cancel w.db)
unfolding alter_service_status
alter_service_status-Ensures conf s id creator ty checked trans cancel w =
    >>=-Ensures (λ _ w1. (w1.db ≡ w.db) × (w1.tx ≡ w.db)) _ _ w (begin-Ensures w)
      λ _ w1 q1.
        >>=-Ensures (λ ch w2. (find? (λ c. c.id == id) w1.tx.channels ≡ some ch) × Same w1 w2) _ _
          w1 (select_channel-Ensures id w1)
          λ ch w2 q2.
            >>=-Ensures (λ _ w3. (trans ch.service_status ≡ true) × Same w2 w3) _ _ w2
              (require-Ensures _ _ w2)
              λ _ w3 q3.
                >>=-Ensures (λ _ w4. (conflicting ch.id checked w3.tx.jobs ≡ false) × Same w3 w4) _
                  _ w3 (check_job_exists-Ensures ch.id checked w3)
                  λ _ w4 q4.
                    let same : ch.id ≡ id = (==_iff _ _).0 (find?-sound _ w1.tx.channels ch q2.0) in
                    let t3 : w3.tx ≡ w.db = q3.1.tx ∙ q2.1.tx ∙ q1.1 in
                    let t4 : w4.tx ≡ w.db = q4.1.tx ∙ t3 in
                    let accepted : Accepted id checked trans w.db = record {
                      ch = ch;
                      found = subst (λ t. find? (λ c. c.id == id) t.channels ≡ some ch) q1.1 q2.0;
                      allowed = q3.0;
                      free =
                          subst (λ t. conflicting id checked t.jobs ≡ false) t3
                            (subst (λ i. conflicting i checked w3.tx.jobs ≡ false) same q4.0);
                    } in
                    weaken (enqueue_change-Ensures conf s ch creator ty cancel w4) λ u w5 q5.
                      (accepted, q5.0, q5.1 ∙ λ i. altered conf s (same i) creator ty cancel (t4 i))

module _ (conf : Config) (s : Stamp) (id : Uuid) (creator : JobCreator) (ty : JobType)
    (checked : Option JobType) (trans : Transition) (cancel : Bool) (w : World) where
  -- Whatever call fails and whichever check refuses, a status change that ends in an error leaves
  -- the committed tables as they were.
  pub alter_service_status-atomic :
      (e : Error)
      → (alter_service_status conf s id creator ty checked trans cancel w).0 ≡ err e
      → (alter_service_status conf s id creator ty checked trans cancel w).1.db ≡ w.db
  alter_service_status-atomic e h =
      (alter_service_status-IsAtomic conf s id creator ty checked trans cancel).atomic w e h

  -- An accepted change has found the channel in a status that allows it and no conflicting job; it
  -- returns the new job's id and commits the new job, and the cancellation where it is asked for.
  pub alter_service_status_effect :
      (u : Uuid)
      → (alter_service_status conf s id creator ty checked trans cancel w).0 ≡ ok u
      → Accepted id checked trans w.db
        × (u ≡ s.uuid)
        × ((alter_service_status conf s id creator ty checked trans cancel w).1.db
            ≡ altered conf s id creator ty cancel w.db)
  alter_service_status_effect u h =
      (alter_service_status-Ensures conf s id creator ty checked trans cancel w).holds u h
