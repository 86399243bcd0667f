-- ===== src/Handlers/Select.antt =====
-- proc/worker/selectors.go: the row that a job is for, and the rows that belong to it.
use dappctrl.Base.{Bool, not, ◌||◌, Option, find?, ◌==◌}
use dappctrl.Data.{
  Uuid, HexString, Account, Product, Offering, Channel, Job, JobType, JobEthLog, RelatedType,
  Payload, eth_log, service_status, opaque, job_type_eq, related_type_eq, WorkerError, invalid_job,
  eth_log_not_found,
}
use dappctrl.Data.Error.{worker, panic}
use dappctrl.Store.{Db, plain, Action, ◌>>=◌, ◌>>◌, pure, raise, require, or_raise, on_error, query}

-- `FindByPrimaryKeyTo` or `FindOneTo`, any error replaced by one of the worker's.
unfoldable pub find_or : {A : Type 0} → WorkerError → (Db → Option A) → Action A
find_or e f = do found ← on_error (worker e) (query plain f); or_raise found (worker e)

unfoldable pub is_job_invalid : Job → JobType → RelatedType → Bool
is_job_invalid j ty rel = not (job_type_eq j.type ty) || not (related_type_eq j.related_type rel)

unfoldable pub check_job : Job → JobType → RelatedType → Action (Unit {0})
check_job j ty rel = require (not (is_job_invalid j ty rel)) (worker invalid_job)

abbrev pub channel_by : Uuid → Db → Option Channel
channel_by id d = find? (λ c. c.id == id) d.channels

abbrev pub offering_by : Uuid → Db → Option Offering
offering_by id d = find? (λ o. o.id == id) d.offerings

abbrev pub account_by : Uuid → Db → Option Account
account_by id d = find? (λ a. a.id == id) d.accounts

abbrev pub account_of : HexString → Db → Option Account
account_of addr d = find? (λ a. a.eth_addr == addr) d.accounts

unfoldable pub related_offering : Job → JobType → Action Offering
related_offering j ty = do
  check_job j ty RelatedType.offering
  find_or WorkerError.offering_not_found (offering_by j.related_id)

unfoldable pub related_channel : Job → JobType → Action Channel
related_channel j ty = do
  check_job j ty RelatedType.channel
  find_or WorkerError.channel_not_found (channel_by j.related_id)

unfoldable pub related_account : Job → JobType → Action Account
related_account j ty = do
  check_job j ty RelatedType.account
  find_or WorkerError.account_not_found (account_by j.related_id)

-- A document without a log gives a nil pointer, which every caller dereferences next.
abbrev pub log_of : Payload → Action JobEthLog
log_of (eth_log l) = pure l
log_of (service_status _) = raise (worker eth_log_not_found)
log_of (opaque _) = raise (worker eth_log_not_found)
log_of _ = raise panic

-- `ethLog`
unfoldable pub event_log : Job → Action JobEthLog
event_log j = log_of j.payload

unfoldable pub select_offering : Uuid → Action Offering
select_offering id = find_or WorkerError.offering_not_found (offering_by id)

unfoldable pub select_account : HexString → Action Account
select_account addr = find_or WorkerError.account_not_found (account_of addr)

unfoldable pub account_by_pk : Uuid → Action Account
account_by_pk id = find_or WorkerError.account_not_found (account_by id)

unfoldable pub product_by_pk : Uuid → Action Product
product_by_pk id = find_or WorkerError.product_not_found (λ d. find? (λ p. p.id == id) d.products)

-- `offeringByHashString`: a missing row and a failing call have their own errors.
unfoldable pub offering_by_hash : HexString → Action Offering
offering_by_hash hash = do
  found ←
      on_error (worker WorkerError.internal)
        (query plain (λ d. find? (λ o. o.hash == hash) d.offerings))
  or_raise found (worker WorkerError.offering_not_found)
