-- ===== src/Tests/Interface.antt =====
-- The requests of the user interface on samples.
use dappctrl.Base.{
  ◌==◌, ◌≡◌, refl, true, false, some, List, [], ◌∷◌, All, any, find?, select, update_where, arith,
  ◌+◌, if◌then◌else◌, none, ℕ,
}
use dappctrl.Data.{
  Account, Offering, Setting, password_hash, password_salt, no_access, ServiceStatus, compute_price,
}
use dappctrl.Store.{World, answering, monad, ok, Db}
use dappctrl.Job.Config.{type_config}
use dappctrl.Job.Add.{
  add, add_with_data, add_with_data_and_delay, check_duplicated, is_duplicate, stamped, new_job,
}
use dappctrl.Ui.Env.{Handler}
use dappctrl.Ui.Access.{
  check_token, find_row, find_active_offering, is_active_offering, setting_value,
}
use dappctrl.Ui.Channels.{add_user_job}
use dappctrl.Ui.Usage.{
  units_of, Usage, new_usage, sessions_in, usage_row, sum_of, sql_quotient, scanned, usage_with,
}
use dappctrl.Ui.Market.{accept_offering, compute_deposit, ping_offering}
use dappctrl.Ui.Accounts.{
  clear_default, changed_account, update_account_row, make_default, update_account,
}
use dappctrl.Ui.Offerings.{update_rows}
use dappctrl.Ui.Auth.{
  hash_password, validate_password, get_token, check_password, seal_keys, update_private_keys,
  change_password, update_password,
}
use dappctrl.Ui.Denied.{AllRefused, requests-AllRefused}
use dappctrl.Ui.Cost.{new_usage-usage_row, with_setup}
use dappctrl.Ui.Default.{IsOnlyDefault, update_account-IsOnlyDefault}
use dappctrl.Ui.Accepted.{IsAccepted, accept_offering-IsAccepted}
use dappctrl.Ui.Renewed.{update_password-get_token}
use dappctrl.Ui.Resealed.{IsResealed, update_password-IsResealed}
use dappctrl.Tests.Samples.{sample_config, sample_stamp, sample_db, sample_channel, sample_offering}
use dappctrl.Tests.Handlers.{sample_account}

-- A key that is encrypted with a password is their sum; the token is 5 and the password is 6.
abbrev sample_handler : Handler
sample_handler = record {
  memory = record { token = 5; password = 6 };
  queue = sample_config;
  stamp = sample_stamp;
  now = 10;
  new_id = 901;
  is_agent = false;
  suggest_gas_price = some 1;
  ping = λ _ _. true;
  to_address = λ a. some a;
  parse_uint = λ a. some a;
  to_bytes = λ a. some a;
  newest = λ l. l;
  latest_jobs = λ l. l;
  latest_txs = λ l. l;
  get_key = λ p a. if p == 6 then some a.private_key else none;
  encrypt_key = λ k p. some (k + p);
  public_key = λ k. k;
  address_of = λ k. k;
  zero_balance = 0;
  packed_offering = λ _ _ _ _. some 1;
  of_bytes = λ b. b;
  keccak = λ b. b;
  is_host = λ _. true;
  salted = λ p s. p + s;
  generate_hash = λ b. some b;
  compare_hash = λ hash b. hash == b;
  new_token = some 7;
  new_salt = 8;
}

abbrev other_account : Account
other_account = record sample_account { id = 16; eth_addr = 33; is_default = false }

-- An offering of another node that is on sale.
abbrev foreign_offering : Offering
foreign_offering = record sample_offering { is_local = false }

abbrev hidden : List Setting
hidden =
    record { key = password_hash; value = 9; permissions = no_access }
    ∷ (record { key = password_salt; value = 3; permissions = no_access } ∷ [])

abbrev user_db : Db
user_db = record (sample_db ServiceStatus.active 0 []) {
  accounts = sample_account ∷ (other_account ∷ []);
  offerings = foreign_offering ∷ [];
  settings = hidden;
}

abbrev user_world : World
user_world = answering user_db

requests-AllRefused_example : AllRefused sample_handler 4 user_world
requests-AllRefused_example = requests-AllRefused sample_handler 4 user_world refl

abbrev shown : Usage
shown = usage_with foreign_offering 9 45

row_run :
    usage_row user_db (sample_channel ServiceStatus.active 0) (some foreign_offering)
    ≡ some (40, shown)
unfolding usage_row sum_of sessions_in sql_quotient scanned select units_of
row_run = refl

new_usage-usage_row_example :
    (new_usage
        (sample_channel ServiceStatus.active 0)
        foreign_offering
        (sessions_in user_db 40)
        user_world
      ≡ (ok (with_setup foreign_offering shown), user_world))
    × ((with_setup foreign_offering shown).cost ≡ compute_price foreign_offering shown.current)
new_usage-usage_row_example =
    new_usage-usage_row user_db (sample_channel ServiceStatus.active 0) foreign_offering 40 shown
      user_world (omega arith) (omega arith) row_run

-- The second account becomes the default.
default_run : (update_account sample_handler 5 16 0 true true user_world).0 ≡ ok tt
unfolding update_account make_default update_account_row update_rows check_token find_row
    changed_account clear_default monad find? select
default_run = refl

update_account-IsOnlyDefault_example :
    IsOnlyDefault 16 (update_account sample_handler 5 16 0 true true user_world).1.db.accounts
update_account-IsOnlyDefault_example =
    update_account-IsOnlyDefault sample_handler 5 16 0 true user_world default_run

accepted_run : (accept_offering sample_handler 5 12 50 0 1 user_world).0 ≡ ok 901
unfolding accept_offering compute_deposit ping_offering find_active_offering is_active_offering
    check_token find_row setting_value add_user_job add add_with_data add_with_data_and_delay
    check_duplicated is_duplicate stamped new_job monad find? any type_config
accepted_run = refl

accept_offering-IsAccepted_example :
    IsAccepted sample_handler 12 50 0 1 user_db
      (accept_offering sample_handler 5 12 50 0 1 user_world).1.db
accept_offering-IsAccepted_example =
    accept_offering-IsAccepted sample_handler 5 12 50 0 1 user_world 901 (λ _. refl) accepted_run

resealed_run :
    (update_password sample_handler 6 2 user_world).0
    ≡ ok (ok tt, record { token = 7; password = 6 })
unfolding update_password check_password change_password update_private_keys seal_keys
    update_account_row update_rows setting_value monad find? select update_where hash_password
    validate_password
resealed_run = refl

update_password-IsResealed_example :
    All
      (IsResealed sample_handler 6 2 user_db.accounts)
      (update_password sample_handler 6 2 user_world).1.db.accounts
update_password-IsResealed_example =
    update_password-IsResealed sample_handler 6 2 user_world (record { token = 7; password = 6 })
      resealed_run

hash_accepted : (a b : ℕ) → some a ≡ some b → (b == a) ≡ true
hash_accepted a b e = grind arith

update_password-get_token_example :
    (get_token
      (record sample_handler { memory = record { token = 7; password = 6 } })
      2
      (answering (update_password sample_handler 6 2 user_world).1.db)).0
    ≡ ok (ok 7, record { token = 7; password = 2 })
update_password-get_token_example =
    update_password-get_token sample_handler 2 7 (record { token = 7; password = 6 }) (λ _. refl)
      hash_accepted refl 6 user_world resealed_run
