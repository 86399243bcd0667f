-- ===== src/Handlers/Carried.antt =====
-- An accepted change of a service, carried out by the handler of its job, is a step of the machine.
use dappctrl.Base.{ℕ, ◌≡◌, some, arith}
use dappctrl.Data.{Channel, ServiceStatus, Job}
use dappctrl.Store.{Db, World, plain, exec_count}
use dappctrl.Store.Ensures.{Ensures}
use dappctrl.Job.Config.{Config}
use dappctrl.Handlers.Env.{Worker}
use dappctrl.Handlers.Select.{channel_by}
use dappctrl.Handlers.Service.{with_status}

pub exec_count_plain-Ensures :
    (f : Db → Db) (n : Db → ℕ) (w : World)
    → Ensures (exec_count plain f n) w (λ _ w'. w'.db ≡ f w.db)
unfolding exec_count
exec_count_plain-Ensures f n w = record { holds = λ _ h. ground arith }

-- The channel of the job has the status that the job leads to, and is otherwise as it was.
abbrev Written : Worker → Job → Channel → ServiceStatus → World → Type 0
Written h j ch s w' = channel_by j.related_id w'.db ≡ some (with_status h s ch)
