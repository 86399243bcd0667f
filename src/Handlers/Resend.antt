-- ===== src/Handlers/Resend.antt =====
-- proc/worker/common.go: a transaction that is sent again at a higher gas price.
use dappctrl.Base.{Option, none, some, find?, ◌==◌, ltb}
use dappctrl.Data.{Hash, Job, RelatedType, resend, increase_tx_gas_price}
use dappctrl.Data.Error.{worker, failure}
use dappctrl.Data.WorkerError.{
  tx_not_found, tx_no_gas_increase, eth_get_transaction, eth_tx_is_mined, internal,
}
use dappctrl.Store.{Action, ◌>>=◌, ◌>>◌, require, on_error}
use dappctrl.Handlers.Env.{Worker, refuse, transact}
use dappctrl.Handlers.Select.{check_job, find_or}
use dappctrl.Handlers.Misc.{publish_data, save_eth_tx}

-- A hash that does not decode is only logged.
abbrev or_zero : Option Hash → Hash
or_zero none = 0
or_zero (some hash) = hash

-- `IncreaseTxGasPrice`. What is sent is the stored transaction without its signature, so that no
-- address has signed it; a text that is no transaction fails like one that the node refuses.
unfoldable pub increase_tx_gas_price_job : Worker → Job → Action (Unit {0})
increase_tx_gas_price_job h j = do
  check_job j increase_tx_gas_price RelatedType.transaction
  t ← find_or tx_not_found (λ d. find? (λ t. t.id == j.related_id) d.eth_txs)
  gas ← publish_data j
  require (ltb t.gas_price gas) (worker tx_no_gas_increase)
  pending ← refuse (h.backend.transaction_pending (or_zero (h.to_hash t.hash))) eth_get_transaction
  require pending (worker eth_tx_is_mined)
  tx ← on_error failure (
      transact h internal
        (record { from = 0; gas_limit = some t.gas; gas_price = some gas; call = resend t.tx_raw }))
  save_eth_tx h j tx t.method RelatedType.transaction t.id t.addr_from t.addr_to
