-- ===== src/AgentBill/Monitor.antt =====
-- agent/bill/monitor.go: a round of the monitor.
use dappctrl.Base.{Option, ℕ, ◌+◌, true, List, [], ◌∷◌}
use dappctrl.Data.{Uuid, Instant, billing_checker}
use dappctrl.Data.Error.{db_error}
use dappctrl.Store.{Db, plain, Action, ◌>>=◌, ◌>>◌, pure, or_raise, attempt, query}
use dappctrl.Job.Config.{Config}
use dappctrl.Job.Add.{Stamp}
use dappctrl.Proc.Channel.{suspend_channel, activate_channel, terminate_channel}
use dappctrl.AgentBill.Queries.{
  used_up_channels, lagging_channels, paid_up_channels, inactive_channels,
  overdue_suspended_channels,
}

-- What a round reads besides the tables; `stamp i n` is for the `n`th row of the `i`th check.
pub record Round : Type 0 where
  pub queue : Config
  pub stamp : ℕ → ℕ → Stamp
  pub now : Instant

-- The error of a transition is only logged.
unfoldable pub ignore_error : Action Uuid → Action (Unit {0})
ignore_error m = attempt m >> pure tt

unfoldable pub suspend_service : Round → Stamp → Uuid → Action (Unit {0})
suspend_service r s id = ignore_error (suspend_channel r.queue s id billing_checker true)

unfoldable pub terminate_service : Round → Stamp → Uuid → Action (Unit {0})
terminate_service r s id = ignore_error (terminate_channel r.queue s id billing_checker true)

unfoldable pub unsuspend_service : Round → Stamp → Uuid → Action (Unit {0})
unsuspend_service r s id = ignore_error (activate_channel r.queue s id billing_checker true)

-- The loop over a query's rows, which were read before.
unfoldable pub process_rows :
    (ℕ → Stamp) → (Stamp → Uuid → Action (Unit {0})) → ℕ → List Uuid → Action (Unit {0})
process_rows stamp f n [] = pure tt
process_rows stamp f n (id ∷ l) = do f (stamp n) id; process_rows stamp f (n + 1) l

-- `processEachChannel`
unfoldable pub process_each_channel :
    (ℕ → Stamp) → (Db → Option (List Uuid)) → (Stamp → Uuid → Action (Unit {0})) → Action (Unit {0})
process_each_channel stamp q f = do
  found ← query plain q
  ids ← or_raise found db_error
  process_rows stamp f 0 ids

unfoldable pub verify_units_based_channels : Round → Action (Unit {0})
verify_units_based_channels r =
    process_each_channel (r.stamp 0) used_up_channels (terminate_service r)

unfoldable pub verify_channels_for_inactivity : Round → Action (Unit {0})
verify_channels_for_inactivity r =
    process_each_channel (r.stamp 1) (inactive_channels r.now) (terminate_service r)

unfoldable pub verify_suspended_channels_and_try_to_unsuspend : Round → Action (Unit {0})
verify_suspended_channels_and_try_to_unsuspend r =
    process_each_channel (r.stamp 2) paid_up_channels (unsuspend_service r)

unfoldable pub verify_suspended_channels_and_try_to_terminate : Round → Action (Unit {0})
verify_suspended_channels_and_try_to_terminate r =
    process_each_channel (r.stamp 3) (overdue_suspended_channels r.now) (terminate_service r)

unfoldable pub verify_billing_lags : Round → Action (Unit {0})
verify_billing_lags r = process_each_channel (r.stamp 4) lagging_channels (suspend_service r)

-- The first error ends the round, and the monitor.
unfoldable pub process_round : Round → Action (Unit {0})
process_round r = do
  verify_units_based_channels r
  verify_channels_for_inactivity r
  verify_suspended_channels_and_try_to_unsuspend r
  verify_suspended_channels_and_try_to_terminate r
  verify_billing_lags r
