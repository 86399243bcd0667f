-- ===== src/Tests/Jobs.antt =====
-- The queue: retries, cancellation and subscriptions on samples.
use dappctrl.Base.{◌*◌, ◌≡◌, ◌≢◌, refl, arith, none, some, [], ◌∷◌, any, find?}
use dappctrl.Data.{JobStatus, ServiceStatus, failed, canceled, client_pre_service_terminate, Job}
use dappctrl.Data.Error.{failure}
use dappctrl.Store.{Db, World, err, answering, ok, exec, plain}
use dappctrl.Job.Worker.{Handler, finish, job_by_id, again}
use dappctrl.Job.Worker.Retry.{fail_times, fail_times-limit}
use dappctrl.Job.Worker.Cancel.{finish-ne-active}
use dappctrl.Job.Subscribe.{
  SubEntry, Subs, entries, put, subscribe, subscribe_loop, subscribe_all, unsubscribe, remove_id,
  unsubscribe_all, rollback,
}
use dappctrl.Job.Subscribe.Laws.{unsubscribe_all-subscribe_all}
use dappctrl.Tests.Samples.{sample_db, sample_job, three_tries}

abbrev fresh_job : Job
fresh_job = sample_job JobStatus.active client_pre_service_terminate

fail_times-limit_example :
    ((fail_times three_tries (λ n. n * 7) 3 fresh_job).try_count ≡ 3)
    × ((fail_times three_tries (λ n. n * 7) 3 fresh_job).status ≡ failed)
fail_times-limit_example =
    fail_times-limit three_tries (λ n. n * 7) fresh_job (omega arith) (omega arith) refl refl 3
      (omega arith)

abbrev canceled_row : Job
canceled_row = sample_job canceled client_pre_service_terminate

row_found : job_by_id 30 (sample_db ServiceStatus.active 0 (canceled_row ∷ [])) ≡ some canceled_row
unfolding find?
row_found = refl

finish-ne-active_example :
    let (r, w) =
      finish fresh_job
        (record (answering (sample_db ServiceStatus.active 0 (canceled_row ∷ []))) { calls = 2 }) in
    (r ≡ ok again) × ((k : Job) × (job_by_id 30 w.db ≡ some k) × (k.status ≢ JobStatus.active))
finish-ne-active_example =
    finish-ne-active fresh_job canceled_row (sample_db ServiceStatus.active 0 (canceled_row ∷ [])) 2
      row_found refl

abbrev first_sub : SubEntry
first_sub = record { sub_id = 1; sub_func = 10 }

abbrev second_sub : SubEntry
second_sub = record { sub_id = 2; sub_func = 11 }

-- One subscriber, of key 4.
abbrev one_sub : Subs
one_sub = put 4 (first_sub ∷ []) (λ _. none)

-- Key 4 has the subscriber already.
free_keys : (subscribe_all (3 ∷ 4 ∷ []) second_sub one_sub).0 ≡ none
unfolding subscribe_all subscribe_loop subscribe rollback unsubscribe remove_id any
free_keys = refl

unsubscribe_all-subscribe_all_example :
    let r = unsubscribe_all (3 ∷ 4 ∷ []) 2 (subscribe_all (3 ∷ 4 ∷ []) second_sub one_sub).1 in
    (r.0 ≡ none) × (entries r.1 4 ≡ entries one_sub 4)
unsubscribe_all-subscribe_all_example =
    unsubscribe_all-subscribe_all (3 ∷ 4 ∷ []) second_sub one_sub free_keys 4

-- A handler that writes to the tables and fails.
abbrev booking : Handler
booking j w = (err failure, j, (exec plain (λ d. record d { accounts = [] }) w).1)

abbrev queued_db : Db
queued_db = sample_db ServiceStatus.active 0 (fresh_job ∷ [])

abbrev booked : World
booked = record (answering (record queued_db { accounts = [] })) { tx = queued_db; calls = 2 }
