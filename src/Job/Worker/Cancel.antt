-- ===== src/Job/Worker/Cancel.antt =====
-- A job that was canceled while its handler ran is not run again.
use dappctrl.Base.{
  ℕ, ◌+◌, ◌≡◌, ◌==◌, ==_iff, ◌≢◌, refl, arith, true, false, some, find?, any, inl, inr, List,
  Bool-cases, find?-update_where,
}
use dappctrl.Data.{Job, JobStatus, canceled, job_status_eq}
use dappctrl.Store.{World, ok, monad, answering, exec}
use dappctrl.Job.Worker.{
  job_by_id, again, canceled_meanwhile, mark, finish, save_job, save_and_notify, Db, exec,
}

find-save_job : (j : Job) (js : List Job) → find? (λ r. r.id == j.id) (save_job j js) ≡ some j
unfolding save_job
find-save_job j js = elim (Bool-cases (any (λ r. r.id == j.id) js)) [
  | inl e ↦ rw e (find?-update_where (λ r. r.id == j.id) j js e ((==_iff j.id j.id).1 refl))
  | inr e ↦ rw e (unfold find? in ground (arith, (==_iff j.id j.id).1 refl))
]

pub save_and_notify_lem :
    (j : Job) (w : World)
    → w.fails w.calls ≡ false
    → ((save_and_notify j w).0 ≡ ok again) × (job_by_id j.id (save_and_notify j w).1.db ≡ some j)
unfolding save_and_notify exec
save_and_notify_lem j w h = ground (arith, find-save_job j w.db.jobs)

-- A job whose row is canceled when its handler returns is not left active, whatever the handler
-- returned, if the database answers; and the worker goes on.
pub finish-ne-active :
    (j row : Job) (d : Db) (n : ℕ)
    → job_by_id j.id d ≡ some row
    → row.status ≡ canceled
    → let (r, w) = finish j (record (answering d) { calls = n }) in
      (r ≡ ok again) × ((k : Job) × (job_by_id j.id w.db ≡ some k) × (k.status ≢ JobStatus.active))
unfolding finish monad canceled_meanwhile
finish-ne-active j row d n e c = elim (Bool-cases (job_status_eq j.status JobStatus.active)) [
  | inl act ↦ (
    ground
        (arith, save_and_notify_lem (mark j true) (record (answering d) { calls = n + 1 + 1 + 1 })),
    (
      mark j true,
      ground (
        arith,
        save_and_notify_lem (mark j true) (record (answering d) { calls = n + 1 + 1 + 1 }),
      ),
      λ h. cc,
    ),
  )
  | inr other ↦ (
    ground (arith, save_and_notify_lem j (record (answering d) { calls = n })),
    (
      j,
      ground (arith, save_and_notify_lem j (record (answering d) { calls = n })),
      λ h. ground arith,
    ),
  )
]
