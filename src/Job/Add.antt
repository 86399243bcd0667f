-- ===== src/Job/Add.antt =====
-- job/queue.go: adding a job, with the check for duplicates.
pub mod Outcome
use dappctrl.Base.{
  ℕ, ◌+◌, Bool, not, ◌&&◌, Option, none, some, List, ◌∷◌, ltb, ◌==◌, if◌then◌else◌, any, true,
}
use dappctrl.Data.{
  Uuid, HexString, Instant, Job, JobType, JobCreator, RelatedType, Payload, JobEthLog, active,
  job_status_eq, job_type_eq, payload_eth_log, account_update_balances,
}
use dappctrl.Data.Error.{duplicated_job, job_internal}
use dappctrl.Store.{
  Db, Querier, plain, Action, ◌>>=◌, ◌>>◌, pure, require, when, on_error, query, exec,
}
use dappctrl.Job.Config.{Config, TypeConfig, type_config, milliseconds}

-- What `util.NewUUID` and the two calls of `time.Now` return during one `Add`.
pub record Stamp : Type 0 where
  pub uuid : Uuid
  pub delayed_from : Instant
  pub created_at : Instant

-- The transaction by which a job that stems from an Ethereum log is compared.
unfoldable pub compared_tx : Job → Option HexString
compared_tx j = elim (payload_eth_log j.payload) [
  | none ↦ none
  | some l ↦ if job_type_eq j.type account_update_balances then none else some l.tx_hash
]

-- `transactionHash IS NULL OR transactionHash = h`
abbrev null_or_equal : HexString → Option JobEthLog → Bool
null_or_equal h none = true
null_or_equal h (some l) = l.tx_hash == h

abbrev same_source : Option HexString → Job → Bool
same_source none row = job_status_eq row.status active
same_source (some h) row = null_or_equal h (payload_eth_log row.payload)

-- The WHERE clause of the two queries.
unfoldable pub is_duplicate : Job → Job → Bool
is_duplicate j row =
    row.related_id == j.related_id
    && (job_type_eq row.type j.type && same_source (compared_tx j) row)

-- The check asks the queue's own connection, and so sees only what is committed.
unfoldable pub check_duplicated : Job → Action (Unit {0})
check_duplicated j = do
  found ← on_error job_internal (query plain (λ d. any (is_duplicate j) d.jobs))
  require (not found) duplicated_job

abbrev pub insert_job : Job → Db → Db
insert_job j d = record d { jobs = j ∷ d.jobs }

-- The row that is written.
unfoldable pub stamped : TypeConfig → Stamp → Job → Job
stamped tconf s j = record j {
  id = s.uuid;
  status = active;
  created_at = s.created_at;
  not_before =
      if ltb 0 tconf.first_start_delay
      then s.delayed_from + milliseconds tconf.first_start_delay
      else j.not_before;
}

unfoldable pub add : Config → Querier → Stamp → Job → Action Job
add conf q s j = do
  let tconf = type_config conf j
  when (not tconf.duplicated) (check_duplicated j)
  let row = stamped tconf s j
  on_error job_internal (exec q (insert_job row))
  pure row

-- A job as a caller hands it to `Add`, its other columns at Go's zero values.
unfoldable pub new_job : JobType → RelatedType → Uuid → JobCreator → Payload → Instant → Job
new_job ty rel id creator data0 start = record {
  id = 0;
  type = ty;
  status = active;
  related_type = rel;
  related_id = id;
  created_at = 0;
  not_before = start;
  created_by = creator;
  try_count = 0;
  payload = data0;
}

-- `AddWithDataAndDelay`: `now` is the time at which it is called.
unfoldable pub add_with_data_and_delay :
    Config
    → Querier
    → Stamp
    → JobType
    → RelatedType
    → Uuid
    → JobCreator
    → Payload
    → Instant
    → ℕ
    → Action Job
add_with_data_and_delay conf q s ty rel id creator data0 now delay =
    add conf q s (new_job ty rel id creator data0 (now + delay))

unfoldable pub add_with_data :
    Config
    → Querier
    → Stamp
    → JobType
    → RelatedType
    → Uuid
    → JobCreator
    → Payload
    → Instant
    → Action Job
add_with_data conf q s ty rel id creator data0 now =
    add_with_data_and_delay conf q s ty rel id creator data0 now 0
