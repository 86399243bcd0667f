-- ===== src/Handlers/Account.antt =====
-- proc/worker/account.go: the transfers between an account and the service contract.
use dappctrl.Base.{
  ℕ, ◌+◌, ◌-◌, ◌*◌, ◌%◌, ◌^◌, Bool, ◌&&◌, Option, none, some, List, any, find?, ◌==◌, leb,
  if◌then◌else◌, false,
}
use dappctrl.Data.{
  Uuid, HexString, Account, Address, ContractCall, increase_approval, add_balance, return_balance,
  TxMethod, increase_approval_tx, add_balance_tx, return_balance_tx, EthTx, Job, RelatedType,
  balance, job_type_eq, related_type_eq, pre_account_add_balance_approve,
  after_account_add_balance_approve, pre_account_add_balance, after_account_add_balance,
  pre_account_return_balance, after_account_return_balance, account_update_balances, WorkerError,
}
use dappctrl.Data.Error.{worker}
use dappctrl.Data.WorkerError.{
  parse_eth_addr, eth_retrieve_balance, ptc_retrieve_allowance, ptc_retrieve_balance,
  insufficient_ptc_balance, insufficient_psc_balance, insufficient_eth_balance,
  ptc_increase_approval, psc_add_balance, psc_return_balance, psc_retrieve_balance,
  find_approval_balance_data,
}
use dappctrl.Store.{Db, plain, Action, ◌>>=◌, ◌>>◌, require}
use dappctrl.Handlers.Env.{Worker, refuse, transact}
use dappctrl.Handlers.Select.{related_account, event_log, find_or}
use dappctrl.Handlers.Misc.{
  key_of, balance_data, add_job_with_data, save_eth_tx, update_account_balances_job,
}

-- The transaction is signed, sent and recorded.
unfoldable pub send_for :
    Worker → Job → Account → WorkerError → TxMethod → ℕ → ℕ → ContractCall → Action (Unit {0})
send_for h j acc e method limit price call = do
  key ← key_of h acc
  tx ← transact h e (record {
    from = h.key_address key;
    gas_limit = some limit;
    gas_price = some price;
    call = call;
  })
  save_eth_tx h j tx method j.related_type j.related_id acc.eth_addr (h.of_address h.psc_addr)

-- The gas of both transactions of the flow, in uint64.
unfoldable pub approval_cost : Worker → ℕ → ℕ
approval_cost h gas =
    (h.gas_conf.approve * gas % 2 ^ 64 + h.gas_conf.add_balance * gas % 2 ^ 64) % 2 ^ 64

unfoldable pub cost : ℕ → ℕ → ℕ
cost limit gas = limit * gas % 2 ^ 64

-- The allowance is less than the amount.
unfoldable pub increase_allowance :
    Worker → Job → Account → Address → ℕ → ℕ → ℕ → ℕ → Action (Unit {0})
increase_allowance h j acc addr eth allowance gas amount = do
  ptc ← refuse (h.backend.ptc_balance_of addr) ptc_retrieve_balance
  require (leb (amount - allowance) (ptc % 2 ^ 64)) (worker insufficient_ptc_balance)
  require (leb (approval_cost h gas) (eth % 2 ^ 64)) (worker insufficient_eth_balance)
  send_for h j acc ptc_increase_approval increase_approval_tx h.gas_conf.approve gas
      (increase_approval h.psc_addr (amount - allowance))

-- `PreAccountAddBalanceApprove`
unfoldable pub pre_account_add_balance_approve_job : Worker → Job → Action (Unit {0})
pre_account_add_balance_approve_job h j = do
  acc ← related_account j pre_account_add_balance_approve
  wanted ← balance_data j
  addr ← refuse (h.to_address acc.eth_addr) parse_eth_addr
  eth ← refuse (h.backend.eth_balance_at addr) eth_retrieve_balance
  allowance ← refuse (h.backend.ptc_allowance addr h.psc_addr) ptc_retrieve_allowance
  if leb wanted.1 allowance
      then add_job_with_data h plain 0 pre_account_add_balance j.related_type j.related_id
          (balance wanted.0 wanted.1)
      else increase_allowance h j acc addr eth allowance wanted.0 wanted.1

abbrev sent_in : HexString → Uuid → List EthTx → Bool
sent_in hash id txs = any (λ t. t.hash == hash && is_of t.job id) txs
  where
    is_of : Option Uuid → Uuid → Bool
    is_of none id = false
    is_of (some j) id = j == id

-- The job that asked for the approval that a log reports.
unfoldable pub is_approval : HexString → Uuid → Db → Job → Bool
is_approval hash id d row =
    sent_in hash row.id d.eth_txs
    && (related_type_eq row.related_type RelatedType.account
        && (row.related_id == id && job_type_eq row.type pre_account_add_balance_approve))

-- `approvedBalanceData`
unfoldable pub approved_balance_data : Job → Action (ℕ × ℕ)
approved_balance_data j = do
  l ← event_log j
  row ←
      find_or find_approval_balance_data (λ d. find? (is_approval l.tx_hash j.related_id d) d.jobs)
  balance_data row

-- `AfterAccountAddBalanceApprove`
unfoldable pub after_account_add_balance_approve_job : Worker → Job → Action (Unit {0})
after_account_add_balance_approve_job h j = do
  acc ← related_account j after_account_add_balance_approve
  wanted ← approved_balance_data j
  add_job_with_data h plain 0 pre_account_add_balance j.related_type acc.id
      (balance wanted.0 wanted.1)

-- `PreAccountAddBalance`
unfoldable pub pre_account_add_balance_job : Worker → Job → Action (Unit {0})
pre_account_add_balance_job h j = do
  acc ← related_account j pre_account_add_balance
  wanted ← balance_data j
  addr ← refuse (h.to_address acc.eth_addr) parse_eth_addr
  ptc ← refuse (h.backend.ptc_balance_of addr) ptc_retrieve_balance
  require (leb wanted.1 (ptc % 2 ^ 64)) (worker insufficient_ptc_balance)
  eth ← refuse (h.backend.eth_balance_at addr) eth_retrieve_balance
  require (leb (cost h.gas_conf.add_balance wanted.0) (eth % 2 ^ 64))
      (worker insufficient_eth_balance)
  send_for h j acc psc_add_balance add_balance_tx h.gas_conf.add_balance wanted.0
      (add_balance wanted.1)

-- `PreAccountReturnBalance`
unfoldable pub pre_account_return_balance_job : Worker → Job → Action (Unit {0})
pre_account_return_balance_job h j = do
  acc ← related_account j pre_account_return_balance
  key ← key_of h acc
  wanted ← balance_data j
  psc ← refuse (h.backend.psc_balance_of (h.key_address key)) psc_return_balance
  require (leb wanted.1 psc) (worker insufficient_psc_balance)
  eth ← refuse (h.backend.eth_balance_at (h.key_address key)) eth_retrieve_balance
  require (leb (cost h.gas_conf.return_balance wanted.0) (eth % 2 ^ 64))
      (worker insufficient_eth_balance)
  tx ← transact h psc_retrieve_balance (record {
    from = h.key_address key;
    gas_limit = some h.gas_conf.return_balance;
    gas_price = some wanted.0;
    call = return_balance wanted.1;
  })
  save_eth_tx h j tx return_balance_tx j.related_type j.related_id acc.eth_addr
      (h.of_address h.psc_addr)

-- `AfterAccountAddBalance`, `AfterAccountReturnBalance` and `AccountUpdateBalances`.
unfoldable pub after_account_add_balance_job : Worker → Job → Action (Unit {0})
after_account_add_balance_job h = update_account_balances_job h after_account_add_balance

unfoldable pub after_account_return_balance_job : Worker → Job → Action (Unit {0})
after_account_return_balance_job h = update_account_balances_job h after_account_return_balance

unfoldable pub account_update_balances_job : Worker → Job → Action (Unit {0})
account_update_balances_job h = update_account_balances_job h account_update_balances
