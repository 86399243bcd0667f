-- ===== src/Sess/Session.antt =====
-- sess/session.go: the requests of an adapter.
use dappctrl.Base.{
  ℕ, ◌+◌, ◌*◌, ◌/◌, ◌%◌, ◌^◌, not, ◌&&◌, ◌||◌, Option, none, some, ◌∷◌, ◌==◌, if◌then◌else◌, find?,
  any, update_where,
}
use dappctrl.Data.{
  Uuid, Text, UsageRepType, incremental, total, Offering, Channel, ServiceStatus, activating,
  suspended, terminating, terminated, service_status_eq, Session, Endpoint, Job, JobCreator,
  RelatedType, service_status, complete_service_transition,
}
use dappctrl.Data.Error.{
  duplicated_job, non_active_channel, bad_client_password, sess_internal, endpoint_not_found,
}
use dappctrl.Store.{
  Db, Querier, plain, in_tx, Result, ok, err, Action, ◌>>=◌, ◌>>◌, pure, raise, require, when,
  or_raise, on_error, attempt, query, exec, begin, commit,
}
use dappctrl.Job.Add.{add_with_data}
use dappctrl.Sess.Access.{
  Server, salt_rune, check_product_password, find_client_channel, find_current_session,
}

-- The job that completes the transition to a status.
unfoldable pub complete_transition : Server → Querier → Channel → ServiceStatus → Action Job
complete_transition h q ch s =
    add_with_data h.queue q h.stamp complete_service_transition RelatedType.channel ch.id
      JobCreator.session_server (service_status s) h.now

-- `ServiceReady`
unfoldable pub service_ready : Server → Uuid → Text → Uuid → Action (Unit {0})
service_ready h product password key = do
  prod ← check_product_password h product password
  ch ← find_client_channel prod key
  when (service_status_eq ch.service_status activating)
      (complete_transition h plain ch ServiceStatus.active >> pure tt)

-- `AuthClient`
unfoldable pub auth_client : Server → Uuid → Text → Uuid → Text → Action (Unit {0})
auth_client h product password key client_password = do
  prod ← check_product_password h product password
  ch ← find_client_channel prod key
  require
      (service_status_eq ch.service_status ServiceStatus.active
        || service_status_eq ch.service_status activating)
      non_active_channel
  require (h.validate ch.password client_password (salt_rune ch.salt)) bad_client_password

abbrev nonzero : ℕ → Option ℕ
nonzero n = if n == 0 then none else some n

-- `ip` is none where the text is empty.
unfoldable pub new_session : Server → Channel → Option Text → ℕ → Session
new_session h ch ip port = record {
  id = h.session_id;
  channel = ch.id;
  started = h.now;
  stopped = none;
  units_used = 0;
  seconds_consumed = 0;
  last_usage_time = h.now;
  client_ip = ip;
  client_port = nonzero port;
}

unfoldable pub insert_session : Session → Db → Db
insert_session s d = record d { sessions = s ∷ d.sessions }

-- A job that the queue already has is no error.
abbrev pub ignore_duplicate : Result Job → Action (Unit {0})
ignore_duplicate (ok _) = pure tt
ignore_duplicate (err duplicated_job) = pure tt
ignore_duplicate (err e) = raise e

-- The function that `InTransaction` runs, with the transaction around it.
unfoldable pub record_start : Server → Channel → Option Text → ℕ → Action (Unit {0})
record_start h ch ip port = do
  begin
  exec in_tx (insert_session (new_session h ch ip port))
  when (service_status_eq ch.service_status activating)
      (attempt (complete_transition h in_tx ch ServiceStatus.active) >>= ignore_duplicate)
  commit

-- `StartSession`
unfoldable pub start_session : Server → Uuid → Text → Uuid → Option Text → ℕ → Action Offering
start_session h product password key ip port = do
  prod ← check_product_password h product password
  ch ← find_client_channel prod key
  found ← on_error sess_internal (query plain (λ d. find? (λ o. o.id == ch.offering) d.offerings))
  offer ← or_raise found sess_internal
  on_error sess_internal (record_start h ch ip port)
  pure offer

-- The units after a report, in uint64: reports are in bytes, and a unit is a mebibyte.
unfoldable pub reported : UsageRepType → ℕ → ℕ → ℕ
reported incremental bytes used =
    if bytes == 0 then used else (used + bytes / (1024 * 1024)) % 2 ^ 64
reported total bytes used = if bytes == 0 then used else bytes / (1024 * 1024)

-- `reform.DB.Save`
unfoldable pub save_session : Session → Db → Db
save_session s d = record d {
  sessions =
      if any (λ r. r.id == s.id) d.sessions
      then update_where (λ r. r.id == s.id) (λ _. s) d.sessions
      else s ∷ d.sessions;
}

-- `UpdateSession`
unfoldable pub update_session : Server → Uuid → Text → Uuid → ℕ → Action (Unit {0})
update_session h product password key bytes = do
  prod ← check_product_password h product password
  ch ← find_client_channel prod key
  require (not (prod.is_server && not (service_status_eq ch.service_status ServiceStatus.active)))
      non_active_channel
  s ← find_current_session ch.id
  on_error sess_internal (
      exec plain (
        save_session (record s {
          units_used = reported prod.usage_rep_type bytes s.units_used;
          last_usage_time = h.now;
        })))

-- Without a current session there is nothing to stop.
abbrev stop_current : Server → Result Session → Action (Unit {0})
stop_current h (ok s) =
    on_error sess_internal
      (exec plain (save_session (record s { last_usage_time = h.now; stopped = some h.now })))
stop_current h (err _) = pure tt

unfoldable pub status_after_stop : ServiceStatus → ServiceStatus
status_after_stop terminating = terminated
status_after_stop _ = suspended

unfoldable pub stop_channel : Server → Channel → Action (Unit {0})
stop_channel h ch = do
  added ← attempt (complete_transition h plain ch (status_after_stop ch.service_status))
  ignore_duplicate added
  current ← attempt (find_current_session ch.id)
  stop_current h current

-- `StopSession`
unfoldable pub stop_session : Server → Uuid → Text → Uuid → Action (Unit {0})
stop_session h product password key = do
  prod ← check_product_password h product password
  ch ← find_client_channel prod key
  if service_status_eq ch.service_status terminated then pure tt else stop_channel h ch

-- `GetEndpoint` of sess/product.go.
unfoldable pub get_endpoint : Server → Uuid → Text → Uuid → Action Endpoint
get_endpoint h product password key = do
  prod ← check_product_password h product password
  ch ← find_client_channel prod key
  found ←
      on_error endpoint_not_found (query plain (λ d. find? (λ e. e.channel == ch.id) d.endpoints))
  or_raise found endpoint_not_found
