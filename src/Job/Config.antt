-- ===== src/Job/Config.antt =====
-- job/queue.go: the configuration of the queue and of each job type.
use dappctrl.Base.{ℕ, Bool, Option, none, some, ◌*◌}
use dappctrl.Data.{Job, JobType}

-- Periods and delays are in milliseconds.
pub record TypeConfig : Type 0 where
  pub try_limit : ℕ
  pub try_period : ℕ
  pub duplicated : Bool
  pub first_start_delay : ℕ

pub record Config : Type 0 where
  pub collect_jobs : ℕ
  pub collect_period : ℕ
  pub worker_buf_len : ℕ
  pub workers : ℕ
  pub default_type : TypeConfig
  pub types : JobType → Option TypeConfig

abbrev or_default : TypeConfig → Option TypeConfig → TypeConfig
or_default d none = d
or_default d (some c) = c

-- The configuration of a job's type, or else the default one.
unfoldable pub type_config : Config → Job → TypeConfig
type_config conf j = or_default conf.default_type (conf.types j.type)

-- A `time.Duration` counts nanoseconds.
abbrev pub milliseconds : ℕ → ℕ
milliseconds n = n * 1000000
