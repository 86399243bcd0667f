-- ===== src/ClientBill/Queries.antt =====
-- client/bill/monitor.go: what the monitor reads of the tables.
use dappctrl.Base.{
  ℕ, ◌+◌, ◌-◌, ◌/◌, Bool, not, ◌&&◌, ◌||◌, List, [], ◌∷◌, length, ltb, ◌==◌, if◌then◌else◌, select,
  max,
}
use dappctrl.Data.{
  Uuid, Instant, Channel, Offering, Session, Job, JobType, JobStatus, done, job_type_eq,
  job_status_eq, client_pre_channel_top_up, client_after_channel_top_up, last_created,
}
use dappctrl.Store.{Db}

unfoldable pub sessions_of : Uuid → Db → List Session
sessions_of id d = select (λ s. s.channel == id) d.sessions

-- `COALESCE(sum(units_used), 0)`
unfoldable pub sum_units : List Session → ℕ
sum_units [] = 0
sum_units (s ∷ l) = s.units_used + sum_units l

unfoldable pub max_last_usage : List Session → Instant
max_last_usage [] = 0
max_last_usage (s ∷ l) = max s.last_usage_time (max_last_usage l)

unfoldable pub consumed_units : Uuid → Db → ℕ
consumed_units id d = sum_units (sessions_of id d)

-- `maxInactiveTimeReached`: without a session the test of the quantity fails, whatever `PreparedAt`
-- is. `now` is not before the last usage.
unfoldable pub max_inactive_time_reached : Channel → Offering → Instant → Db → Bool
max_inactive_time_reached ch offer now d =
    let l = sessions_of ch.id d in
    let last_usage = if length l == 0 then ch.prepared_at else max_last_usage l in
    ltb 0 (length l) && ltb offer.max_inactive_time_sec ((now - last_usage) / 1000000000)

unfoldable pub max_deposit_reached : Channel → Bool
max_deposit_reached ch =
    not (ch.receipt_balance == 0)
    && (not (ch.total_deposit == 0) && ch.receipt_balance == ch.total_deposit)

unfoldable pub is_job_of : Uuid → JobType → Job → Bool
is_job_of id ty j = j.related_id == id && job_type_eq j.type ty

-- Jobs after a top-up, active or done, that are newer than every request of a top-up.
unfoldable pub after_top_ups : Uuid → Db → List Job
after_top_ups id d =
    let requested = last_created (select (is_job_of id client_pre_channel_top_up) d.jobs) in
    select
      (λ j.
        (job_status_eq j.status JobStatus.active || job_status_eq j.status done)
        && (is_job_of id client_after_channel_top_up j && ltb requested j.created_at))
      d.jobs
