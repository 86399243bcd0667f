-- ===== src/Job/Worker.antt =====
-- job/queue.go: running a job, and one round of a worker's loop.
pub mod Retry
pub mod Cancel
pub mod Runs
use dappctrl.Base.{
  ℕ, ◌+◌, ◌%◌, Bool, true, false, not, ◌&&◌, ◌||◌, Option, none, some, List, ◌∷◌, ltb, leb, ◌==◌,
  if◌then◌else◌, find?, any, update_where,
}
use dappctrl.Data.{
  Uuid, Instant, Job, JobType, JobStatus, done, failed, canceled, job_status_eq, Error,
}
use dappctrl.Data.Error.{no_rows, handler_not_found, job_internal}
use dappctrl.Store.{
  Db, World, Result, ok, err, Querier, plain, in_tx, Action, ◌>>=◌, ◌>>◌, pure, or_raise, query,
  exec, begin, commit,
}
use dappctrl.Job.Config.{Config, TypeConfig, type_config, milliseconds}

-- A handler calls the database and may change the job that it is handed a pointer to; its error
-- asks for a retry.
abbrev pub Handler : Type 0
Handler = Job → World → Result (Unit {0}) × Job × World

abbrev pub HandlerMap : Type 0
HandlerMap = JobType → Option Handler

-- `TryCount` is a uint8.
abbrev counted : TypeConfig → Job → ℕ
counted tconf j = if tconf.try_limit == 0 then j.try_count else (j.try_count + 1) % 256

-- The job after a run of its handler that failed at `now`.
unfoldable pub retried : TypeConfig → Instant → Job → Job
retried tconf now j =
    if leb tconf.try_limit (counted tconf j) && not (tconf.try_limit == 0)
    then record j { status = failed; try_count = counted tconf j }
    else record j { not_before = now + milliseconds tconf.try_period; try_count = counted tconf j }

unfoldable pub processed : TypeConfig → Instant → Job → Result (Unit {0}) → Job
unfolding retried
processed tconf now j (ok _) = record j { status = done }
processed tconf now j (err _) = retried tconf now j

-- `processJob`: the job with its new status.
unfoldable pub process_job : Config → Handler → Instant → Job → Action Job
process_job conf handler now j w =
    let (r, j', w') = handler j w in (ok (processed (type_config conf j) now j' r), w')

-- How a round of the loop ends: with the next round, or with the end of the worker, which reports
-- an error or none.
pub data Round : Type 0 where
  again : Round
  stop : Option Error → Round

abbrev pub job_by_id : Uuid → Db → Option Job
job_by_id id d = find? (λ j. j.id == id) d.jobs

-- `reform.DB.Save`: an update, or an insertion where no row has the key.
unfoldable pub save_job : Job → List Job → List Job
save_job j js =
    if any (λ r. r.id == j.id) js then update_where (λ r. r.id == j.id) (λ _. j) js else j ∷ js

-- Whether the row was canceled, read under a lock in a transaction of its own.
unfoldable pub canceled_meanwhile : Job → Action Bool
canceled_meanwhile j = do
  begin
  found ← query in_tx (job_by_id j.id)
  row ← or_raise found no_rows
  commit
  pure (job_status_eq row.status canceled)

abbrev mark : Job → Bool → Job
mark j b = if b then record j { status = canceled } else j

abbrev saved : Result (Unit {0}) × World → Result Round × World
saved (ok _, w) = (ok again, w)
saved (err _, w) = (ok (stop (some job_internal)), w)

unfoldable pub save_and_notify : Job → Action Round
unfolding save_job
save_and_notify j w = saved (exec plain (λ d. record d { jobs = save_job j d.jobs }) w)

-- The errors of this transaction are bound by `:=` within the block: the loop's `err` stays nil,
-- and its `break` ends the worker without an error.
abbrev checked : Job → Result Bool × World → Result Round × World
checked j (ok b, w) = save_and_notify (mark j b) w
checked j (err _, w) = (ok (stop none), w)

unfoldable pub finish : Job → Action Round
finish j w =
    if job_status_eq j.status JobStatus.active
    then checked j (canceled_meanwhile j w)
    else save_and_notify j w

abbrev run_handler : Config → Option Handler → Instant → Job → Action Round
run_handler conf none now j = pure (stop (some handler_not_found))
run_handler conf (some h) now j = process_job conf h now j >>= finish

unfoldable pub run_job : Config → HandlerMap → Instant → Instant → Job → Action Round
run_job conf handlers due now j =
    if not (job_status_eq j.status JobStatus.active) || ltb due j.not_before
    then pure again
    else run_handler conf (handlers j.type) now j

abbrev fetched :
    Config → HandlerMap → Instant → Instant → Result (Option Job) × World → Result Round × World
fetched conf handlers due now (ok (some j), w) = run_job conf handlers due now j w
fetched conf handlers due now (ok none, w) = (ok (stop (some no_rows)), w)
fetched conf handlers due now (err e, w) = (ok (stop (some e)), w)

-- One round for the job `id`: `due` and `now` are the times read before and after the handler.
unfoldable pub worker_round : Config → HandlerMap → Instant → Instant → Uuid → Action Round
worker_round conf handlers due now id w =
    fetched conf handlers due now (query plain (job_by_id id) w)
