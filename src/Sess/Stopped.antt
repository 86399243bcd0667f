-- ===== src/Sess/Stopped.antt =====
-- What the stop of a session leaves behind.
use dappctrl.Base.{◌≡◌, some, if◌then◌else◌}
use dappctrl.Data.{
  Channel, Session, ServiceStatus, suspended, terminating, terminated, service_status_eq,
}
use dappctrl.Store.{Db, World, Result, ok}
use dappctrl.Sess.Access.{Server}
use dappctrl.Sess.Session.{save_session}
use dappctrl.Sess.Started.{IsAsked}

-- What the completion after a stop is to.
abbrev pub target_of : ServiceStatus → ServiceStatus
target_of st = if service_status_eq st terminating then terminated else suspended

-- What stopping the session `s` of a channel comes to.
abbrev pub IsStopped : Server → Channel → Session → Db → Result (Unit {0}) × World → Type 0
IsStopped h ch s d (r, w) =
    (r ≡ ok tt)
    × (IsAsked ch (target_of ch.service_status) d.jobs w.db.jobs
        × (w.db.sessions
            ≡ (save_session (record s { last_usage_time = h.now; stopped = some h.now })
                d).sessions))
