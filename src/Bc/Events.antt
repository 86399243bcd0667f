-- ===== src/Bc/Events.antt =====
-- No event of a round is lost.
use dappctrl.Base.{
  ℕ, ◌+◌, ◌≡◌, Bool, true, some, List, [], ◌∷◌, All, arith, any, Option-cases, inl, inr,
}
use dappctrl.Data.{Job, JobEthLog, Error}
use dappctrl.Store.{World, Result, ok, err, Action, ◌>>=◌, pure, raise, or_raise}
use dappctrl.Store.Frames.{
  attempt-Keeps, Keeps, IsAtomic, >>=-Keeps, >>=-IsAtomic, commit-IsAtomic, frames,
}
use dappctrl.Store.Ensures.{Ensures}
use dappctrl.Job.Add.{is_duplicate}
use dappctrl.Job.Add.Outcome.{add-Keeps}
use dappctrl.Bc.Monitor.{
  add_one, Monitor, owned, skip_duplicate, add_jobs, store_jobs, jobs_of_queries, monitor_round,
}

-- Every job of `l` is in the queue `js`, or one that the queue takes for it.
abbrev pub AreQueued : List Job → List Job → Type 0
AreQueued js l = All (λ j. any (is_duplicate (owned j)) js ≡ true) l

-- `js'` has what `js` has.
abbrev Includes : List Job → List Job → Type 0
Includes js js' = (p : Job → Bool) → any p js ≡ true → any p js' ≡ true

skip-Keeps : (r : Result Job) → Keeps (skip_duplicate r)
unfolding pure raise
skip-Keeps r = record { keeps = λ w. ground arith }

add_one-Keeps : (m : Monitor) (n : ℕ) (j : Job) → Keeps (add_one m n j)
unfolding add_one
add_one-Keeps m n j =
    >>=-Keeps _ _ (attempt-Keeps _ (add-Keeps m.queue (m.stamp n) (owned j))) skip-Keeps

add_jobs-Keeps : (m : Monitor) (n : ℕ) (l : List Job) → Keeps (add_jobs m n l)
unfolding add_jobs
add_jobs-Keeps m n [] = search frames
add_jobs-Keeps m n (j ∷ l) = >>=-Keeps _ _ (add_one-Keeps m n j) λ _. add_jobs-Keeps m (n + 1) l

-- The node answers a query, and each job that one of its logs asks for is in the queue.
abbrev pub IsHandled : Monitor → List Job → ℕ → Type 0
IsHandled m js q =
    (logs : List JobEthLog) × ((m.filter_logs q ≡ some logs)
      × All (λ log. (l : List Job) × ((m.jobs_for_log log ≡ ok l) × AreQueued js l)) logs)

module _ (m : Monitor) (w : World) (latest q : ℕ) (queries : List ℕ)
    (done_round : Action (Unit {0})) (known : m.latest_block ≡ some latest)
    (planned : m.next_round latest ≡ ok (q ∷ queries, done_round))
    (settings_only : (v : World)
      → ((done_round v).1.db ≡ v.db) × ((done_round v).1.tx.jobs ≡ v.tx.jobs)) where
  store_jobs-IsAtomic : (l : List Job) → IsAtomic (store_jobs m done_round l)
  unfolding store_jobs
  store_jobs-IsAtomic l = >>=-IsAtomic _ _ (search frames) λ _.
      >>=-IsAtomic _ _ (add_jobs-Keeps m 0 l)
        λ _. >>=-IsAtomic _ _ (record { keeps = λ v. (settings_only v).0 }) λ _. commit-IsAtomic

  -- A round that fails, while collecting the jobs, adding them or ending, leaves the committed tables
  -- as they were, where what ends the round commits nothing itself.
  pub monitor_round-atomic :
      (x : Error) → (monitor_round m w).0 ≡ err x → (monitor_round m w).1.db ≡ w.db
  unfolding monitor_round or_raise ◌>>=◌
  monitor_round-atomic x e = elim (Option-cases (jobs_of_queries m (q ∷ queries))) [
    | inl n ↦ ground arith
    | inr (l, f) ↦ ground (arith, (store_jobs-IsAtomic l).atomic w x)
  ]
