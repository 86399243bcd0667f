-- ===== src/Job/Add/Outcome.antt =====
-- What `Add` leaves behind.
use dappctrl.Base.{◌≡◌, refl, Bool, false, not, arith, any}
use dappctrl.Data.{Job, duplicated_job}
use dappctrl.Data.Error.{job_internal}
use dappctrl.Store.{World, in_tx, plain, require}
use dappctrl.Store.Frames.{Keeps, >>=-Keeps, frames}
use dappctrl.Store.Ensures.{
  Ensures, Same, >>=-Ensures, pure-Ensures, weaken, when-Ensures, query-Ensures, require-Ensures,
  on_error-Ensures, exec_tx-Ensures,
}
use dappctrl.Job.Config.{Config, type_config}
use dappctrl.Job.Add.{Stamp, is_duplicate, check_duplicated, insert_job, stamped, add}

pub check_duplicated-Keeps : (j : Job) → Keeps (check_duplicated j)
unfolding check_duplicated
check_duplicated-Keeps j = search frames

pub check_duplicated-Ensures :
    (j : Job) (w : World)
    → Ensures (check_duplicated j) w (λ _ w'. (any (is_duplicate j) w.db.jobs ≡ false) × Same w w')
unfolding check_duplicated
check_duplicated-Ensures j w =
    >>=-Ensures (λ a w'. (a ≡ any (is_duplicate j) w.db.jobs) × Same w w') _ _ w
      (on_error-Ensures job_internal _ w (query-Ensures plain _ w))
      λ found w1 q. none_found found w1 q
  where
    none_found :
        (found : Bool) (w1 : World)
        → (found ≡ any (is_duplicate j) w.db.jobs) × Same w w1
        → Ensures
            (require (not found) duplicated_job)
            w1
            (λ _ w'. (any (is_duplicate j) w.db.jobs ≡ false) × Same w w')
    none_found found w1 q = record {
      holds = λ a e. ground (arith, (require-Ensures (not found) duplicated_job w1).holds a e);
    }

pub add-Keeps : (conf : Config) (s : Stamp) (j : Job) → Keeps (add conf in_tx s j)
unfolding add
add-Keeps conf s j = >>=-Keeps _ _ (search (frames, check_duplicated-Keeps j)) λ _. search frames

-- What adding `j` within a transaction does.
pub record Added (conf : Config) (s : Stamp) (j : Job) (w : World) (r : Job) (w' : World)
    : Type 0 where
  pub row : r ≡ stamped (type_config conf j) s j
  pub db : w'.db ≡ w.db
  pub tx : w'.tx ≡ insert_job (stamped (type_config conf j) s j) w.tx

pub add_tx-Ensures :
    (conf : Config) (s : Stamp) (j : Job) (w : World)
    → Ensures (add conf in_tx s j) w (Added conf s j w)
unfolding add
add_tx-Ensures conf s j w =
    >>=-Ensures (λ _ w'. Same w w') _ _ w
      (when-Ensures _ _ w {P = λ w'. Same w w'} (record { db = refl; tx = refl })
        (weaken (check_duplicated-Ensures j w) (λ _ _ q. q.1)))
      λ _ w1 q.
        >>=-Ensures
          (λ _ w'. (w'.db ≡ w1.db) × (w'.tx ≡ insert_job (stamped (type_config conf j) s j) w1.tx))
          _ _ w1 (on_error-Ensures job_internal _ w1 (exec_tx-Ensures _ w1))
          λ _ w2 r. pure-Ensures _ w2 (record { row = refl; db = ground arith; tx = ground arith })
