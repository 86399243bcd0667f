-- ===== src/Sess/Atomic.antt =====
-- A session that could not be started leaves nothing behind.
use dappctrl.Base.{ℕ, ◌≡◌, refl, Bool, Option, arith}
use dappctrl.Data.{Uuid, Text, Product, Channel, ServiceStatus, Job, Error}
use dappctrl.Store.{
  World, Result, ok, err, in_tx, Action, ◌>>=◌, pure, raise, attempt, when, on_error, replace_error,
}
use dappctrl.Store.Frames.{
  attempt-Keeps, Keeps, IsAtomic, >>=-Keeps, >>=-IsAtomic, pure_after-IsAtomic, commit-IsAtomic,
  frames,
}
use dappctrl.Job.Add.{add_with_data, add_with_data_and_delay}
use dappctrl.Job.Add.Outcome.{add-Keeps}
use dappctrl.Sess.Access.{Server, check_product_password, find_client_channel}
use dappctrl.Sess.Session.{complete_transition, ignore_duplicate, record_start, start_session}

check-Keeps :
    (h : Server) (id : Uuid) (password : Text) → Keeps (check_product_password h id password)
unfolding check_product_password
check-Keeps h id password =
    >>=-Keeps _ _ (search frames)
      λ _. >>=-Keeps _ _ (search frames) λ _. >>=-Keeps _ _ (search frames) λ _. search frames

find_client_channel-Keeps : (prod : Product) (key : Uuid) → Keeps (find_client_channel prod key)
unfolding find_client_channel
find_client_channel-Keeps prod key =
    >>=-Keeps _ _ (search frames) λ _. >>=-Keeps _ _ (search frames) λ _. search frames

complete-Keeps :
    (h : Server) (ch : Channel) (s : ServiceStatus)
    → Keeps (attempt (complete_transition h in_tx ch s) >>= ignore_duplicate)
unfolding complete_transition add_with_data add_with_data_and_delay
complete-Keeps h ch s =
    >>=-Keeps _ _ (attempt-Keeps _ (add-Keeps h.queue h.stamp _)) λ r. ignore-Keeps r
  where
    ignore-Keeps : (r : Result Job) → Keeps (ignore_duplicate r)
    ignore-Keeps r = record { keeps = λ w. unfold pure raise in ground arith }

when-Keeps : (b : Bool) (m : Action (Unit {0})) → Keeps m → Keeps (when b m)
unfolding when
when-Keeps b m h = record { keeps = λ w. ground (arith, h.keeps w) }

on_error-IsAtomic : {A : Type 0} (e : Error) (m : Action A) → IsAtomic m → IsAtomic (on_error e m)
unfolding on_error
on_error-IsAtomic {A = A} e m h = record { atomic = λ w x p. replaced (m w) w (h.atomic w) x p }
  where
    replaced :
        (r : Result A × World) (w : World)
        → ((x : Error) → r.0 ≡ err x → r.1.db ≡ w.db)
        → (x : Error) → (replace_error e r).0 ≡ err x
        → (replace_error e r).1.db ≡ w.db
    replaced (ok a, v) w k x p = cc
    replaced (err y, v) w k x p = k y refl

record_start-IsAtomic :
    (h : Server) (ch : Channel) (ip : Option Text) (port : ℕ) → IsAtomic (record_start h ch ip port)
unfolding record_start
record_start-IsAtomic h ch ip port = >>=-IsAtomic _ _ (search frames) λ _.
    >>=-IsAtomic _ _ (search frames) λ _.
      >>=-IsAtomic _ _ (when-Keeps _ _ (complete-Keeps h ch ServiceStatus.active))
        λ _. commit-IsAtomic

start_session-IsAtomic :
    (h : Server) (id key : Uuid) (password : Text) (ip : Option Text) (port : ℕ)
    → IsAtomic (start_session h id password key ip port)
unfolding start_session
start_session-IsAtomic h id key password ip port = >>=-IsAtomic _ _ (check-Keeps h id password) λ p.
    >>=-IsAtomic _ _ (find_client_channel-Keeps p key) λ ch. >>=-IsAtomic _ _ (search frames) λ _.
      >>=-IsAtomic _ _ (search frames) λ offer.
        pure_after-IsAtomic _ offer (on_error-IsAtomic _ _ (record_start-IsAtomic h ch ip port))

-- A request to start a session that ends in an error, at whatever call, leaves no session and no
-- job behind: the committed tables are as they were.
pub start_session-atomic :
    (h : Server) (id key : Uuid) (password : Text) (ip : Option Text) (port : ℕ) (w : World)
    (x : Error)
    → (start_session h id password key ip port w).0 ≡ err x
    → (start_session h id password key ip port w).1.db ≡ w.db
start_session-atomic h id key password ip port w x e =
    (start_session-IsAtomic h id key password ip port).atomic w x e
