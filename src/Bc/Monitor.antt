-- ===== src/Bc/Monitor.antt =====
-- bc/monitor.go: a round of the monitor.
use dappctrl.Base.{ℕ, ◌+◌, Option, none, some, List, [], ◌∷◌, ◌++◌}
use dappctrl.Data.{Job, bc_monitor, JobEthLog}
use dappctrl.Data.Error.{duplicated_job, failure}
use dappctrl.Store.{
  Result, ok, err, in_tx, Action, ◌>>=◌, ◌>>◌, pure, raise, or_raise, attempt, begin, commit,
}
use dappctrl.Job.Config.{Config}
use dappctrl.Job.Add.{Stamp, add}

-- The node, the functions that the monitor was made with, and the time and the identifier of each
-- job that the round adds. A query is known by a number; a failed request is `none`.
pub record Monitor : Type 0 where
  pub queue : Config
  pub stamp : ℕ → Stamp
  pub latest_block : Option ℕ
  pub filter_logs : ℕ → Option (List JobEthLog)
  pub next_round : ℕ → Result (List ℕ × Action (Unit {0}))
  pub jobs_for_log : JobEthLog → Result (List Job)

abbrev pub append_to : {A : Type 0} → List A → Option (List A) → Option (List A)
append_to l none = none
append_to l (some r) = some (l ++ r)

abbrev pub with_jobs : Result (List Job) → Option (List Job) → Option (List Job)
with_jobs (ok l) rest = append_to l rest
with_jobs (err e) rest = none

-- The jobs for the logs of a query, and for those of all queries; an error ends the round.
unfoldable pub jobs_of_logs : Monitor → List JobEthLog → Option (List Job)
jobs_of_logs m [] = some []
jobs_of_logs m (log ∷ l) = with_jobs (m.jobs_for_log log) (jobs_of_logs m l)

abbrev pub logs_jobs : Monitor → Option (List JobEthLog) → Option (List Job)
logs_jobs m none = none
logs_jobs m (some l) = jobs_of_logs m l

abbrev pub append_jobs : Option (List Job) → Option (List Job) → Option (List Job)
append_jobs none rest = none
append_jobs (some l) rest = append_to l rest

unfoldable pub jobs_of_queries : Monitor → List ℕ → Option (List Job)
jobs_of_queries m [] = some []
jobs_of_queries m (q ∷ l) = append_jobs (logs_jobs m (m.filter_logs q)) (jobs_of_queries m l)

abbrev pub owned : Job → Job
owned j = record j { created_by = bc_monitor }

abbrev pub skip_duplicate : Result Job → Action (Unit {0})
skip_duplicate (ok _) = pure tt
skip_duplicate (err duplicated_job) = pure tt
skip_duplicate (err _) = raise failure

unfoldable pub add_one : Monitor → ℕ → Job → Action (Unit {0})
add_one m n j = attempt (add m.queue in_tx (m.stamp n) (owned j)) >>= skip_duplicate

-- The loop of the transaction; `n` counts the jobs.
unfoldable pub add_jobs : Monitor → ℕ → List Job → Action (Unit {0})
add_jobs m n [] = pure tt
add_jobs m n (j ∷ l) = do add_one m n j; add_jobs m (n + 1) l

unfoldable pub store_jobs : Monitor → Action (Unit {0}) → List Job → Action (Unit {0})
store_jobs m done_round l = do begin; add_jobs m 0 l; done_round; commit

abbrev run_queries : Monitor → List ℕ → Action (Unit {0}) → Action (Unit {0})
run_queries m [] done_round = pure tt
run_queries m (q ∷ l) done_round =
    or_raise (jobs_of_queries m (q ∷ l)) failure >>= store_jobs m done_round

abbrev run_round : Monitor → Result (List ℕ × Action (Unit {0})) → Action (Unit {0})
run_round m (ok (queries, done_round)) = run_queries m queries done_round
run_round m (err e) = raise failure

-- `Round`
unfoldable pub monitor_round : Monitor → Action (Unit {0})
monitor_round m = do latest ← or_raise m.latest_block failure; run_round m (m.next_round latest)
