-- ===== src/Ui/Auth.antt =====
-- ui/auth.go and checkPassword of ui/misc.go: the user's password and access token.
use dappctrl.Base.{
  not, ◌||◌, Option, none, some, List, [], ◌∷◌, any, select, length, ◌==◌, update_where, ℕ, Bool,
  false,
}
use dappctrl.Data.{
  Text, Account, Setting, SettingKey, setting_key_eq, password_hash, password_salt, no_access,
  Base64String,
}
use dappctrl.Data.Error.{ui}
use dappctrl.Data.UiError.{access_denied, internal, empty_password, password_exists}
use dappctrl.Store.{
  Db, Result, ok, err, plain, in_tx, Action, ◌>>=◌, ◌>>◌, pure, require, or_raise, on_error,
  attempt, query, exec, begin, commit,
}
use dappctrl.Ui.Env.{Handler, Memory}
use dappctrl.Ui.Access.{setting_value}
use dappctrl.Ui.Offerings.{update_rows}
use dappctrl.Ui.Accounts.{update_account_row}

-- `data.HashPassword`
abbrev pub encoded : Handler → Option ℕ → Option Base64String
encoded h none = none
encoded h (some b) = some (h.of_bytes b)

unfoldable pub hash_password : Handler → Text → Text → Option Base64String
hash_password h password salt = encoded h (h.generate_hash (h.salted password salt))

-- `data.ValidatePassword`: a hash that is not in base64 matches no password.
unfoldable pub validate_password : Handler → Base64String → Text → Text → Bool
validate_password h hash password salt = matches (h.to_bytes hash)
  where
    matches : Option ℕ → Bool
    matches none = false
    matches (some b) = h.compare_hash b (h.salted password salt)

-- `checkPassword`: the memory then holds the password.
unfoldable pub check_password : Handler → Text → Action Memory
check_password h password = do
  hash ← on_error (ui internal) (setting_value password_hash)
  salt ← on_error (ui internal) (setting_value password_salt)
  require (validate_password h hash password salt) (ui access_denied)
  pure (record (h.memory) { password = password })

abbrev pub hidden_setting : SettingKey → Text → Setting
hidden_setting k v = record { key = k; value = v; permissions = no_access }

-- `SetPassword`
unfoldable pub set_password : Handler → Text → Action (Unit {0})
set_password h password = do
  require (not (password == 0)) (ui empty_password)
  known ← on_error (ui internal) (
      query plain (λ d.
        any (λ s. setting_key_eq s.key password_salt || setting_key_eq s.key password_hash)
          d.settings))
  require (not known) (ui password_exists)
  hashed ← or_raise (hash_password h password h.new_salt) (ui internal)
  on_error (ui internal) begin
  on_error (ui internal) (exec in_tx (add_setting (hidden_setting password_salt h.new_salt)))
  on_error (ui internal) (exec in_tx (add_setting (hidden_setting password_hash hashed)))
  on_error (ui internal) commit
  where
    add_setting : Setting → Db → Db
    add_setting s d = record d { settings = s ∷ d.settings }

-- The loop of `updatePrivateKeys`
unfoldable pub seal_keys : Handler → Text → Text → List Account → Action (Unit {0})
seal_keys h current new [] = pure tt
seal_keys h current new (acc ∷ l) = do
  key ← or_raise (h.get_key current acc) (ui internal)
  sealed ← or_raise (h.encrypt_key key new) (ui internal)
  update_account_row in_tx (record acc { private_key = sealed })
  seal_keys h current new l

-- `updatePrivateKeys`
unfoldable pub update_private_keys : Handler → Text → Text → Action (Unit {0})
update_private_keys h current new = do
  l ← on_error (ui internal) (query in_tx (λ d. d.accounts))
  seal_keys h current new l

abbrev pub update_setting : Setting → Action (Unit {0})
update_setting s =
    update_rows in_tx
      (λ d. record d {
        settings = update_where (λ x. setting_key_eq x.key s.key) (λ _. s) d.settings;
      })
      (λ d. length (select (λ x. setting_key_eq x.key s.key) d.settings))

-- What `UpdatePassword` does once the current password is checked.
unfoldable pub change_password : Handler → Text → Text → Action (Unit {0})
change_password h current new = do
  require (not (new == 0)) (ui empty_password)
  hashed ← or_raise (hash_password h new h.new_salt) (ui internal)
  on_error (ui internal) begin
  update_private_keys h current new
  update_setting (hidden_setting password_salt h.new_salt)
  update_setting (hidden_setting password_hash hashed)
  on_error (ui internal) commit

-- A token that cannot be made leaves the last one.
abbrev with_token : Option Text → Memory → Memory
with_token none m = m
with_token (some t) m = record m { token = t }

-- `UpdatePassword`, with the memory that it leaves: the password in it is the current one still.
abbrev pub renew_token : Handler → Memory → Result (Unit {0}) → Result (Unit {0}) × Memory
renew_token h m (ok _) = (ok tt, with_token h.new_token m)
renew_token h m (err e) = (err e, m)

abbrev pub when_checked : Handler → Text → Result Memory → Action (Result (Unit {0}) × Memory)
when_checked h new (err e) = pure (err e, h.memory)
when_checked h new (ok m) =
    attempt (change_password h m.password new) >>= λ r. pure (renew_token h m r)

unfoldable pub update_password : Handler → Text → Text → Action (Result (Unit {0}) × Memory)
update_password h current new = do
  checked ← attempt (check_password h current)
  when_checked h new checked

-- `GetToken`, with the memory that it leaves.
abbrev pub issue_token : Option Text → Memory → Result Text × Memory
issue_token none m = (err (ui internal), m)
issue_token (some t) m = (ok t, record m { token = t })

abbrev pub token_when : Handler → Result Memory → Result Text × Memory
token_when h (err e) = (err e, h.memory)
token_when h (ok m) = issue_token h.new_token m

unfoldable pub get_token : Handler → Text → Action (Result Text × Memory)
get_token h password = do checked ← attempt (check_password h password); pure (token_when h checked)
