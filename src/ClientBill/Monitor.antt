-- ===== src/ClientBill/Monitor.antt =====
-- client/bill/monitor.go: processing a channel in a round of the monitor.
use dappctrl.Base.{
  ℕ, Bool, true, false, not, ◌||◌, Option, none, some, ltb, ◌==◌, if◌then◌else◌, any, find?, length,
}
use dappctrl.Base.Int.{ℤ, pos, ◌-ℤ◌, quot, leb_ℤ}
use dappctrl.Data.{
  Uuid, Instant, Channel, Offering, Job, JobCreator, RelatedType, top_up, client_pre_channel_top_up,
  compute_price, Error,
}
use dappctrl.Data.Error.{
  same_job_exists, duplicated_job, already_processing, get_offering, get_consumed_units, failure,
  panic,
}
use dappctrl.Store.{
  Result, ok, err, plain, Action, ◌>>=◌, ◌>>◌, pure, raise, or_raise, require, on_error, attempt,
  query,
}
use dappctrl.Job.Config.{Config}
use dappctrl.Job.Add.{Stamp, add_with_data}
use dappctrl.Proc.Channel.{terminate_channel}
use dappctrl.ClientBill.Queries.{
  max_deposit_reached, max_inactive_time_reached, consumed_units, is_job_of, after_top_ups,
}

-- What a round reads besides the tables: the settings, the suggested gas price (none if the node
-- does not tell it), the times and the new identifiers. `threshold deposit percent` is the float64
-- computation of the amount from which the deposit is increased.
pub record Round : Type 0 where
  pub queue : Config
  pub stamp : Stamp
  pub now : Instant
  pub auto_increase : Bool
  pub percent : ℕ
  pub threshold : ℕ → ℕ → ℕ
  pub gas_price : Option ℕ

unfoldable pub is_to_be_terminated : Round → Channel → Offering → Action Bool
is_to_be_terminated r ch offer =
    if max_deposit_reached ch
    then pure true
    else on_error get_consumed_units (query plain (max_inactive_time_reached ch offer r.now))

-- An error of the first query other than `sql.ErrNoRows` is not looked at.
abbrev was_requested : Result Bool → Bool
was_requested (ok b) = b
was_requested (err _) = true

-- `notMinedChannelTopUpExists`
unfoldable pub not_mined_top_up_exists : Uuid → Action Bool
not_mined_top_up_exists id = do
  first ← attempt (query plain (λ d. any (is_job_of id client_pre_channel_top_up) d.jobs))
  if was_requested first then query plain (λ d. length (after_top_ups id d) == 0) else pure false

-- A job that the queue already has is no error.
abbrev ignore_duplicate : Result Job → Action (Unit {0})
ignore_duplicate (ok _) = pure tt
ignore_duplicate (err duplicated_job) = pure tt
ignore_duplicate (err already_processing) = pure tt
ignore_duplicate (err e) = raise e

unfoldable pub request_top_up : Round → Channel → Action (Unit {0})
request_top_up r ch = do
  gas ← or_raise r.gas_price failure
  added ← attempt (
      add_with_data r.queue plain r.stamp client_pre_channel_top_up RelatedType.channel ch.id
        JobCreator.billing_checker (top_up gas ch.total_deposit) r.now)
  ignore_duplicate added

-- An error of the check is only logged.
abbrev unless_exists : Round → Channel → Result Bool → Action (Unit {0})
unless_exists r ch (ok true) = pure tt
unless_exists r ch (ok false) = request_top_up r ch
unless_exists r ch (err _) = pure tt

unfoldable pub check_and_create_auto_increase_job : Round → Channel → ℕ → Action (Unit {0})
check_and_create_auto_increase_job r ch amount =
    if not r.auto_increase || ltb amount (r.threshold ch.total_deposit r.percent)
    then pure tt
    else (attempt (not_mined_top_up_exists ch.id) >>= unless_exists r ch)

-- The units consumed beyond those paid for, in int64: the columns are bigint, so that the
-- conversions keep the values.
unfoldable pub lag : Channel → Offering → ℕ → ℤ
lag ch offer consumed =
    pos consumed -ℤ quot (pos ch.receipt_balance -ℤ pos offer.setup_price) offer.unit_price

unfoldable pub is_overdue : Channel → Offering → ℕ → Bool
is_overdue ch offer consumed = leb_ℤ (pos 1) (quot (lag ch offer consumed) offer.billing_interval)

-- The amount that a cheque is posted for in the background, if one is. A division by zero panics.
unfoldable pub bill : Round → Channel → Offering → ℕ → Action (Option ℕ)
bill r ch offer consumed =
    let amount = compute_price offer consumed in
    if ltb ch.total_deposit amount then pure (some ch.total_deposit) else do
      check_and_create_auto_increase_job r ch amount
      require (not (offer.unit_price == 0 || offer.billing_interval == 0)) panic
      pure (if is_overdue ch offer consumed then some amount else none)

abbrev is_same_job_exists : Error → Bool
is_same_job_exists same_job_exists = true
is_same_job_exists _ = false

-- A termination that is under way already is no error.
abbrev pub ignore_same_job : Result Uuid → Action (Option ℕ)
ignore_same_job (ok _) = pure none
ignore_same_job (err e) = if is_same_job_exists e then pure none else raise e

unfoldable pub process_channel : Round → Channel → Action (Option ℕ)
process_channel r ch = do
  found ← on_error get_offering (query plain (λ d. find? (λ o. o.id == ch.offering) d.offerings))
  offer ← or_raise found get_offering
  terminate ← is_to_be_terminated r ch offer
  if terminate
      then (attempt (terminate_channel r.queue r.stamp ch.id JobCreator.billing_checker false)
          >>= ignore_same_job)
      else (on_error get_consumed_units (query plain (consumed_units ch.id)) >>= bill r ch offer)
