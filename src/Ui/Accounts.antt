-- ===== src/Ui/Accounts.antt =====
-- ui/account.go: the user's accounts.
use dappctrl.Base.{
  ℕ, Bool, true, false, not, Option, none, some, List, ◌∷◌, find?, select, map, length, ◌==◌,
  if◌then◌else◌, update_where,
}
use dappctrl.Data.{
  Uuid, Text, Base64String, Account, JobType, RelatedType, balance, empty_object,
  account_update_balances, pre_account_add_balance_approve, pre_account_return_balance,
}
use dappctrl.Data.Error.{ui}
use dappctrl.Data.UiError.{internal, account_not_found, token_amount_too_small, bad_destination}
use dappctrl.Store.{
  Db, Querier, plain, in_tx, Action, ◌>>=◌, ◌>>◌, pure, require, when, or_raise, on_error, exec,
  begin, commit,
}
use dappctrl.Ui.Env.{Handler}
use dappctrl.Ui.Access.{check_token, find_row, select_rows, suggested_gas_price}
use dappctrl.Ui.Channels.{add_user_job}
use dappctrl.Ui.Offerings.{update_rows}

abbrev pub account_by : Uuid → Db → Option Account
account_by id d = find? (λ a. a.id == id) d.accounts

-- `ExportPrivateKey`
unfoldable pub export_private_key : Handler → Text → Uuid → Action ℕ
export_private_key h tkn id = do
  check_token h tkn
  acc ← find_row account_not_found (account_by id)
  or_raise (h.to_bytes acc.private_key) (ui internal)

-- `GetAccounts`
unfoldable pub get_accounts : Handler → Text → Action (List Account)
get_accounts h tkn = do check_token h tkn; select_rows (λ d. d.accounts)

pub record AccountParams : Type 0 where
  pub name : Text
  pub is_default : Bool
  pub in_use : Bool

-- `prefilledAccount` and the columns that `fillAndSaveAccount` sets.
unfoldable pub new_account : Handler → AccountParams → ℕ → Base64String → Account
new_account h p key sealed = record {
  id = h.new_id;
  eth_addr = h.address_of key;
  public_key = h.public_key key;
  private_key = sealed;
  is_default = p.is_default;
  in_use = p.in_use;
  name = p.name;
  ptc_balance = 0;
  psc_balance = 0;
  eth_balance = h.zero_balance;
  last_balance_check = none;
}

-- `fillAndSaveAccount`, given the private key or none where making it failed.
unfoldable pub fill_and_save_account : Handler → AccountParams → Option ℕ → Bool → Action Uuid
fill_and_save_account h p made balances = do
  key ← or_raise made (ui internal)
  sealed ← or_raise (h.encrypt_key key h.memory.password) (ui internal)
  on_error (ui internal)
      (exec plain (λ d. record d { accounts = new_account h p key sealed ∷ d.accounts }))
  when balances (
      on_error (ui internal)
        (add_user_job h account_update_balances RelatedType.account h.new_id empty_object))
  pure h.new_id

-- `GenerateAccount`, `ImportAccountFromHex` and `ImportAccountFromJSON`: the key is a new one, or
-- what the argument decodes to.
unfoldable pub generate_account : Handler → Text → AccountParams → Option ℕ → Action Uuid
generate_account h tkn p made = do check_token h tkn; fill_and_save_account h p made false

unfoldable pub import_account : Handler → Text → AccountParams → Option ℕ → Action Uuid
import_account h tkn p made = do check_token h tkn; fill_and_save_account h p made true

pub data Destination : Type 0 where
  to_psc to_ptc elsewhere : Destination

abbrev pub transfer_type : Destination → Option JobType
transfer_type to_psc = some pre_account_add_balance_approve
transfer_type to_ptc = some pre_account_return_balance
transfer_type elsewhere = none

-- `TransferTokens`
unfoldable pub transfer_tokens : Handler → Text → Uuid → Destination → ℕ → ℕ → Action (Unit {0})
transfer_tokens h tkn id dest amount gas = do
  check_token h tkn
  require (not (amount == 0)) (ui token_amount_too_small)
  ty ← or_raise (transfer_type dest) (ui bad_destination)
  find_row account_not_found (account_by id)
  on_error (ui internal) (add_user_job h ty RelatedType.account id (balance gas amount))

-- `UpdateBalance`
unfoldable pub update_balance : Handler → Text → Uuid → Action (Unit {0})
update_balance h tkn id = do
  check_token h tkn
  find_row account_not_found (account_by id)
  on_error (ui internal)
      (add_user_job h account_update_balances RelatedType.account id empty_object)

-- `update` of an account's row.
unfoldable pub update_account_row : Querier → Account → Action (Unit {0})
update_account_row q acc =
    update_rows q
      (λ d. record d { accounts = update_where (λ a. a.id == acc.id) (λ _. acc) d.accounts })
      (λ d. length (select (λ a. a.id == acc.id) d.accounts))

unfoldable pub clear_default : Account → Account
clear_default a = record a { is_default = false }

unfoldable pub changed_account : Account → Text → Bool → Bool → Account
changed_account acc name is_default in_use = record acc {
  name = if name == 0 then acc.name else name;
  is_default = is_default;
  in_use = in_use;
}

-- The transaction that makes an account the only default.
unfoldable pub make_default : Account → Action (Unit {0})
make_default acc = on_error (ui internal) (do
  begin
  exec in_tx (λ d. record d { accounts = map clear_default d.accounts })
  update_account_row in_tx acc
  commit)

abbrev pub save_changed : Account → Action (Unit {0})
save_changed acc = if acc.is_default then make_default acc else update_account_row plain acc

-- `UpdateAccount`
unfoldable pub update_account : Handler → Text → Uuid → Text → Bool → Bool → Action (Unit {0})
update_account h tkn id name is_default in_use = do
  check_token h tkn
  acc ← find_row account_not_found (account_by id)
  save_changed (changed_account acc name is_default in_use)

-- `SuggestGasPrice`
unfoldable pub suggest_gas_price_for : Handler → Text → Action ℕ
suggest_gas_price_for h tkn = do check_token h tkn; suggested_gas_price h
