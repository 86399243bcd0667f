-- ===== src/Job/Worker/Retry.antt =====
-- Retries are bounded by the limit of the job's type.
use dappctrl.Base.{ℕ, zero, suc, ◌≤◌, ◌<◌, ◌≡◌, arith, ◌==◌, Bool-cases, inl, inr, if◌then◌else◌}
use dappctrl.Data.{Instant, Job, active, failed}
use dappctrl.Job.Config.{TypeConfig}
use dappctrl.Job.Worker.{retried}

-- `n` runs of a handler that always fails, at the times `at`.
pub fail_times : TypeConfig → (ℕ → Instant) → ℕ → Job → Job
fail_times tconf at zero j = j
fail_times tconf at (suc n) j = retried tconf (at n) (fail_times tconf at n j)

module _ (tconf : TypeConfig) (at : ℕ → Instant) (j : Job) (limited : 0 < tconf.try_limit)
    (byte : tconf.try_limit < 256) (fresh : j.try_count ≡ 0) (act : j.status ≡ active) where
  fail_times_counts :
      (n : ℕ)
      → n < tconf.try_limit
      → ((fail_times tconf at n j).try_count ≡ n) × ((fail_times tconf at n j).status ≡ active)
  unfolding fail_times retried
  fail_times_counts zero h = (fresh, act)
  fail_times_counts (suc n) h = ground (arith, fail_times_counts n)

  at_limit :
      (n : ℕ)
      → n ≡ tconf.try_limit
      → ((fail_times tconf at n j).status ≡ failed) × ((fail_times tconf at n j).try_count ≡ n)
  unfolding fail_times retried
  at_limit zero e = absurd (omega arith)
  at_limit (suc n) e = ground (arith, fail_times_counts n)

  -- A fresh job whose handler always fails counts its runs up to the limit of its type, is active
  -- before the limit is reached, and has failed when it is; the limit fits a byte, so the count
  -- never wraps.
  pub fail_times-limit :
      (n : ℕ)
      → n ≤ tconf.try_limit
      → ((fail_times tconf at n j).try_count ≡ n)
        × ((fail_times tconf at n j).status ≡ (if n == tconf.try_limit then failed else active))
  fail_times-limit n h = elim (Bool-cases (n == tconf.try_limit)) [
    | inl e ↦ ground (arith, at_limit n)
    | inr e ↦ ground (arith, fail_times_counts n)
  ]
