-- ===== src/Handlers/Misc.antt =====
-- proc/worker/misc.go and the extractors of proc/worker/event.go: what the handlers share.
use dappctrl.Base.{
  ℕ, ◌%◌, ◌^◌, Bool, some, ◌∷◌, find?, any, update_where, count_where, not, ◌==◌, if◌then◌else◌,
  leb,
}
use dappctrl.Data.{
  Uuid, HexString, Text, Account, Offering, Channel, EthTx, TxMethod, tx_sent, Job, JobType,
  JobCreator, RelatedType, Payload, empty_object, OfferStatus, SettingKey, setting_key_eq,
  payload_gas_price, payload_amount, Template, template_by_hash_not_found, db_error,
}
use dappctrl.Data.Error.{worker, no_rows, failure}
use dappctrl.Data.WorkerError.{
  internal, add_job_failed, parse_private_key, parse_job_data, parse_eth_addr, ptc_retrieve_balance,
  psc_retrieve_balance, eth_retrieve_balance,
}
use dappctrl.Store.{
  Db, Querier, plain, Action, ◌>>=◌, ◌>>◌, pure, or_raise, on_error, query, exec, exec_count,
  require,
}
use dappctrl.Job.Add.{add_with_data, add_with_data_and_delay}
use dappctrl.Handlers.Env.{Worker, Transaction, refuse}
use dappctrl.Handlers.Select.{related_account, select_account, related_offering, find_or}

-- `key`
unfoldable pub key_of : Worker → Account → Action ℕ
key_of h acc = refuse (h.get_key acc) parse_private_key

unfoldable pub account_key : Worker → HexString → Action ℕ
account_key h addr = do acc ← select_account addr; key_of h acc

-- `addJobWithData` and its variants; `n` counts the jobs that the handler has added.
unfoldable pub add_job_with_data :
    Worker → Querier → ℕ → JobType → RelatedType → Uuid → Payload → Action (Unit {0})
add_job_with_data h q n ty rel id data0 = do
  on_error (worker add_job_failed)
      (add_with_data h.queue q (h.stamp n) ty rel id JobCreator.task data0 h.now)
  pure tt

unfoldable pub add_job : Worker → Querier → ℕ → JobType → RelatedType → Uuid → Action (Unit {0})
add_job h q n ty rel id = add_job_with_data h q n ty rel id empty_object

unfoldable pub add_job_with_delay :
    Worker → Querier → ℕ → JobType → RelatedType → Uuid → ℕ → Action (Unit {0})
add_job_with_delay h q n ty rel id delay = do
  on_error (worker add_job_failed) (
      add_with_data_and_delay h.queue q (h.stamp n) ty rel id JobCreator.task empty_object h.now
        delay)
  pure tt

abbrev pub has_channel : Uuid → Db → Bool
has_channel id d = any (λ c. c.id == id) d.channels

abbrev pub put_channel : Channel → Db → Db
put_channel ch d = record d { channels = update_where (λ c. c.id == ch.id) (λ _. ch) d.channels }

-- `reform.Save`: an update, or an insertion where there is nothing to update.
abbrev pub save_channel : Channel → Db → Db
save_channel ch d =
    if has_channel ch.id d then put_channel ch d else record d { channels = ch ∷ d.channels }

unfoldable pub save_record : Channel → Action (Unit {0})
save_record ch = on_error (worker internal) (exec plain (save_channel ch))

abbrev pub put_offering : Offering → Db → Db
put_offering o d = record d { offerings = update_where (λ x. x.id == o.id) (λ _. o) d.offerings }

abbrev pub save_offering : Offering → Db → Db
save_offering o d =
    if any (λ x. x.id == o.id) d.offerings
    then put_offering o d
    else record d { offerings = o ∷ d.offerings }

unfoldable pub save_offering_record : Offering → Action (Unit {0})
save_offering_record o = on_error (worker internal) (exec plain (save_offering o))

abbrev pub save_account : Account → Db → Db
save_account a d =
    if any (λ x. x.id == a.id) d.accounts
    then record d { accounts = update_where (λ x. x.id == a.id) (λ _. a) d.accounts }
    else record d { accounts = a ∷ d.accounts }

-- `reform.Update`: an error where no row has the key.
unfoldable pub update_channel : Querier → Channel → Action (Unit {0})
update_channel q ch = on_error (worker internal) (do
  n ← exec_count q (put_channel ch) (λ d. count_where (λ c. c.id == ch.id) d.channels)
  require (not (n == 0)) no_rows)

unfoldable pub update_offering : Querier → Offering → Action (Unit {0})
update_offering q o = on_error (worker internal) (do
  require (leb o.current_supply o.supply) db_error
  n ← exec_count q (put_offering o) (λ d. count_where (λ x. x.id == o.id) d.offerings)
  require (not (n == 0)) no_rows)

-- `publishData` and `balanceData`: the gas price, and the amount.
unfoldable pub publish_data : Job → Action ℕ
publish_data j = refuse (payload_gas_price j.payload) parse_job_data

unfoldable pub balance_data : Job → Action (ℕ × ℕ)
balance_data j = do
  gas ← refuse (payload_gas_price j.payload) parse_job_data
  pure (gas, payload_amount j.payload)

-- `updateBalances`
unfoldable pub update_balances : Worker → Account → Action (Unit {0})
update_balances h acc = do
  addr ← refuse (h.to_address acc.eth_addr) parse_eth_addr
  ptc ← refuse (h.backend.ptc_balance_of addr) ptc_retrieve_balance
  psc ← refuse (h.backend.psc_balance_of addr) psc_retrieve_balance
  eth ← refuse (h.backend.eth_balance_at addr) eth_retrieve_balance
  on_error (worker internal) (
      exec plain (
        save_account (record acc {
          ptc_balance = ptc % 2 ^ 64;
          psc_balance = psc;
          eth_balance = h.of_amount eth;
          last_balance_check = some h.now;
        })))

-- `updateAccountBalancesJob`
unfoldable pub update_account_balances_job : Worker → JobType → Job → Action (Unit {0})
update_account_balances_job h ty j = do acc ← related_account j ty; update_balances h acc

unfoldable pub new_eth_tx :
    Worker
    → Job
    → Transaction
    → Text
    → TxMethod
    → RelatedType
    → Uuid
    → HexString
    → HexString
    → EthTx
new_eth_tx h j tx raw method rel id from to = record {
  id = h.new_id;
  hash = tx.hash;
  method = method;
  status = tx_sent;
  job = some j.id;
  issued = h.now;
  addr_from = from;
  addr_to = to;
  nonce = tx.nonce;
  gas_price = tx.gas_price % 2 ^ 64;
  gas = tx.gas;
  tx_raw = raw;
  related_type = rel;
  related_id = id;
}

-- `saveEthTX`
unfoldable pub save_eth_tx :
    Worker
    → Job
    → Transaction
    → TxMethod
    → RelatedType
    → Uuid
    → HexString
    → HexString
    → Action (Unit {0})
save_eth_tx h j tx method rel id from to = do
  raw ← refuse tx.json internal
  on_error (worker internal) (
      exec plain
        (λ d. record d { eth_txs = new_eth_tx h j tx raw method rel id from to ∷ d.eth_txs }))

-- `updateRelatedOffering`
unfoldable pub update_related_offering : JobType → OfferStatus → Job → Action (Unit {0})
update_related_offering ty status j = do
  offer ← related_offering j ty
  save_offering_record (record offer { status = status })

-- `templateByHash`
unfoldable pub template_by_hash : HexString → Action Template
template_by_hash hash =
    find_or template_by_hash_not_found (λ d. find? (λ t. t.hash == hash) d.templates)

-- `ReadUintSetting`, 32 bits; the error is the caller's.
unfoldable pub read_uint_setting : Worker → SettingKey → Action ℕ
read_uint_setting h key = do
  found ← query plain (λ d. find? (λ s. setting_key_eq s.key key) d.settings)
  s ← or_raise found no_rows
  or_raise (h.parse_uint s.value) failure
