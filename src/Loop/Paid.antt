-- ===== src/Loop/Paid.antt =====
-- The jobs that the looper makes are paid for, all or none.
use dappctrl.Base.{◌≡◌, ◌≤◌, ℕ, ◌*◌, some, List, map, select, length}
use dappctrl.Data.{Address, Uuid, Offering, Job}
use dappctrl.Store.{Db}
use dappctrl.Store.Ensures.{Ensures}
use dappctrl.Loop.PopUp.{Looper, is_to_pop_up, first_of}

abbrev ids : List Offering → List Uuid
ids = map (λ o. o.id)

abbrev related : List Job → List Uuid
related = map (λ j. j.related_id)

-- One job for each offering that is to be popped up, in the tables' order, and the balance of the
-- agent of the first covers the gas of all.
pub record IsPaid (l : Looper) (d : Db) (js : List Job) : Type 0 where
  pub first : Offering
  pub price : ℕ
  pub gas : ℕ
  pub agent : Address
  pub balance : ℕ
  pub begins : first_of (select (is_to_pop_up d) d.offerings) ≡ some first
  pub suggested : l.backend.suggest_gas_price ≡ some price
  pub estimated : l.popup_gas ≡ some gas
  pub addressed : l.to_address first.agent ≡ some agent
  pub funds : l.backend.eth_balance_at agent ≡ some balance
  pub covered : gas * price * length (select (is_to_pop_up d) d.offerings) ≤ balance
  pub named : map (λ j. j.related_id) js ≡ map (λ o. o.id) (select (is_to_pop_up d) d.offerings)
