-- ===== src/AgentBill/Queries.antt =====
-- agent/bill/monitor.go: the conditions of the monitor's queries, which the database evaluates.
-- Sums are of type numeric, so that a quotient by the billing interval is exact; the other quotient
-- is of integers, and truncated.
use dappctrl.Base.{
  ℕ, ◌+◌, ◌*◌, Bool, true, false, not, ◌&&◌, ◌||◌, Option, none, some, List, [], ◌∷◌, map, ltb, leb,
  ◌==◌, if◌then◌else◌, any, find?, select, max,
}
use dappctrl.Base.Int.{ℤ, pos, pos_part, neg_part, ◌-ℤ◌, quot}
use dappctrl.Data.{
  Uuid, Instant, Channel, ChannelStatus, channel_status_eq, ServiceStatus, suspended, Offering,
  UnitType, units, seconds, Session,
}
use dappctrl.Store.{Db}
use dappctrl.ClientBill.Queries.{sessions_of, sum_units}

-- The agent's account must be in use, and the channel not pending.
unfoldable pub is_monitored : Db → Channel → Bool
is_monitored d ch =
    not (channel_status_eq ch.channel_status ChannelStatus.pending)
    && any (λ a. a.eth_addr == ch.agent && a.in_use) d.accounts

unfoldable pub is_pending_or_active : ServiceStatus → Bool
is_pending_or_active ServiceStatus.pending = true
is_pending_or_active ServiceStatus.active = true
is_pending_or_active _ = false

unfoldable pub is_suspended : ServiceStatus → Bool
is_suspended suspended = true
is_suspended _ = false

abbrev pub is_scalar : UnitType → Bool
is_scalar units = true
is_scalar seconds = false

-- A comparison with NULL does not hold.
abbrev reaches : ℕ → Option ℕ → Bool
reaches used none = false
reaches used (some n) = leb n used

unfoldable pub is_used_up : Channel → Offering → ℕ → Bool
is_used_up ch offer used =
    leb ch.total_deposit (offer.setup_price + used * offer.unit_price)
    || reaches used offer.max_unit

-- The units paid for; less than none before the setup fee is paid.
unfoldable pub paid_units : Channel → Offering → ℤ
paid_units ch offer = quot (pos ch.receipt_balance -ℤ pos offer.setup_price) offer.unit_price

-- used / interval - paid > max_lag, and <= for the other query; multiplied by the interval.
unfoldable pub is_lagging : Channel → Offering → ℕ → Bool
is_lagging ch offer used =
    let q = paid_units ch offer in
    ltb ((offer.max_billing_unit_lag + pos_part q) * offer.billing_interval)
      (used + neg_part q * offer.billing_interval)

unfoldable pub is_paid_up : Channel → Offering → ℕ → Bool
is_paid_up ch offer used =
    let q = paid_units ch offer in
    leb (used + neg_part q * offer.billing_interval)
      ((offer.max_billing_unit_lag + pos_part q) * offer.billing_interval)

-- `GREATEST(MAX(ses.last_usage_time), channels.service_changed_time)`, which passes over NULLs.
unfoldable pub last_activity : List Session → Option Instant → Option Instant
last_activity [] changed = changed
last_activity (s ∷ l) changed = elim (last_activity l changed) [
  | none ↦ some s.last_usage_time
  | some t ↦ some (max s.last_usage_time t)
]

abbrev expired : Instant → ℕ → Option Instant → Bool
expired now limit none = false
expired now limit (some t) = ltb (t + limit * 1000000000) now

unfoldable pub is_inactive : Instant → Db → Channel → Offering → Bool
is_inactive now d ch offer =
    expired now offer.max_inactive_time_sec
      (last_activity (sessions_of ch.id d) ch.service_changed_time)

unfoldable pub is_suspended_too_long : Instant → Channel → Offering → Bool
is_suspended_too_long now ch offer = expired now offer.max_suspend_time ch.service_changed_time

abbrev with_offering : (Offering → Bool) → Option Offering → Bool
with_offering p none = false
with_offering p (some o) = p o

-- A query's rows: the channels in a status, that the condition holds for with their offering.
unfoldable pub rows : (ServiceStatus → Bool) → (Channel → Offering → Bool) → Db → List Uuid
rows status p d =
    map (λ ch. ch.id)
      (select
        (λ ch.
          status ch.service_status
          && (is_monitored d ch
              && with_offering (p ch) (find? (λ o. o.id == ch.offering) d.offerings)))
        d.channels)

-- Whether a query that divides by the unit price comes to an offering whose price is zero.
unfoldable pub divides_by_zero : (ServiceStatus → Bool) → Db → Bool
divides_by_zero status d =
    any
      (λ ch.
        status ch.service_status
        && (is_monitored d ch
            && with_offering (λ o. o.unit_price == 0)
                (find? (λ o. o.id == ch.offering) d.offerings)))
      d.channels

abbrev pub used_by : Db → Channel → ℕ
used_by d ch = sum_units (sessions_of ch.id d)

-- The rows of each query; none where a division by zero makes the query fail.
unfoldable pub used_up_channels : Db → Option (List Uuid)
used_up_channels d =
    some (
      rows is_pending_or_active (λ ch o. is_scalar o.unit_type && is_used_up ch o (used_by d ch)) d)

unfoldable pub lagging_channels : Db → Option (List Uuid)
lagging_channels d =
    if divides_by_zero is_pending_or_active d
    then none
    else some (rows is_pending_or_active (λ ch o. is_lagging ch o (used_by d ch)) d)

unfoldable pub paid_up_channels : Db → Option (List Uuid)
paid_up_channels d =
    if divides_by_zero is_suspended d
    then none
    else some (rows is_suspended (λ ch o. is_paid_up ch o (used_by d ch)) d)

unfoldable pub inactive_channels : Instant → Db → Option (List Uuid)
inactive_channels now d =
    some (rows (λ s. is_pending_or_active s || is_suspended s) (is_inactive now d) d)

unfoldable pub overdue_suspended_channels : Instant → Db → Option (List Uuid)
overdue_suspended_channels now d = some (rows is_suspended (is_suspended_too_long now) d)
