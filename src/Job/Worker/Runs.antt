-- ===== src/Job/Worker/Runs.antt =====
-- A round of a worker runs its job's handler and stores the outcome.
use dappctrl.Data.{Job}
use dappctrl.Job.Config.{Config}
