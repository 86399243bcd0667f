-- ===== src/Handlers/Funds.antt =====
-- What the handlers of an account's transfers send: only what the balances allow.
use dappctrl.Base.{ℕ, ◌+◌, ◌*◌, ◌-◌, ◌^◌, ◌≤◌, ◌<◌, ◌≡◌, some}
use dappctrl.Data.{
  Account, Address, Sending, increase_approval, add_balance, Job, payload_amount, payload_gas_price,
}
use dappctrl.Store.{Db}
use dappctrl.Store.Ensures.{Ensures}
use dappctrl.Handlers.Env.{Worker}
use dappctrl.Handlers.Select.{account_by}
use dappctrl.Handlers.Sends.{Sends}

-- A deposit into the contract: of the job's amount and at the job's gas price; the account's tokens
-- cover the amount, and its ether the gas.
pub record IsDeposit (h : Worker) (j : Job) (d : Db) (s : Sending) : Type 0 where
  pub acc : Account
  pub addr : Address
  pub key : ℕ
  pub ptc : ℕ
  pub eth : ℕ
  pub gas : ℕ
  pub found : account_by j.related_id d ≡ some acc
  pub addr_read : h.to_address acc.eth_addr ≡ some addr
  pub tokens : h.backend.ptc_balance_of addr ≡ some ptc
  pub covered : payload_amount j.payload ≤ ptc
  pub ether : h.backend.eth_balance_at addr ≡ some eth
  pub price : payload_gas_price j.payload ≡ some gas
  pub affordable : h.gas_conf.add_balance * gas ≤ eth
  pub signed : h.get_key acc ≡ some key
  pub sending : s ≡ (record {
    from = h.key_address key;
    gas_limit = some h.gas_conf.add_balance;
    gas_price = some gas;
    call = add_balance (payload_amount j.payload);
  })

-- The gas at a job's price does not exceed 64 bits.
abbrev pub Fits : (ℕ → ℕ) → Job → Type 0
Fits f j = (n : ℕ) → payload_gas_price j.payload ≡ some n → f n < 2 ^ 64

-- An approval of what the allowance of the contract lacks of the job's amount; the account's tokens
-- cover it, and its ether both transactions of the flow.
pub record IsApproval (h : Worker) (j : Job) (d : Db) (s : Sending) : Type 0 where
  pub acc : Account
  pub addr : Address
  pub key : ℕ
  pub ptc : ℕ
  pub eth : ℕ
  pub gas : ℕ
  pub allowance : ℕ
  pub found : account_by j.related_id d ≡ some acc
  pub addr_read : h.to_address acc.eth_addr ≡ some addr
  pub allowed : h.backend.ptc_allowance addr h.psc_addr ≡ some allowance
  pub lacking : allowance < payload_amount j.payload
  pub tokens : h.backend.ptc_balance_of addr ≡ some ptc
  pub covered : payload_amount j.payload - allowance ≤ ptc
  pub ether : h.backend.eth_balance_at addr ≡ some eth
  pub price : payload_gas_price j.payload ≡ some gas
  pub affordable : h.gas_conf.approve * gas + h.gas_conf.add_balance * gas ≤ eth
  pub signed : h.get_key acc ≡ some key
  pub sending : s ≡ (record {
    from = h.key_address key;
    gas_limit = some h.gas_conf.approve;
    gas_price = some gas;
    call = increase_approval h.psc_addr (payload_amount j.payload - allowance);
  })
