-- ===== src/Ui/Access.antt =====
-- ui/misc.go, ui/db.go and ui/token.go: the token of a request, the rows that it finds, and the
-- gas price that is suggested for it.
use dappctrl.Base.{
  ℕ, zero, suc, ◌%◌, ◌^◌, Bool, Option, none, some, List, [], ◌∷◌, find?, any, ◌==◌, if◌then◌else◌,
  not, ◌&&◌, ltb, some, true, false,
}
use dappctrl.Data.{
  Uuid, Text, HexString, Offering, OfferStatus, registered, popped_up, Payload, publish, UiError,
  Setting, SettingKey, setting_key_eq,
}
use dappctrl.Data.Error.{ui, no_rows, failure}
use dappctrl.Data.UiError.{access_denied, internal}
use dappctrl.Store.{Db, plain, Action, ◌>>=◌, pure, require, or_raise, on_error, query}
use dappctrl.Ui.Env.{Handler}

-- `token.Check`
unfoldable pub check_token : Handler → Text → Action (Unit {0})
check_token h tkn = require (tkn == h.memory.token) (ui access_denied)

-- `findByPrimaryKey`, `findByColumn` and `selectOneFrom`
unfoldable pub find_row : {A : Type 0} → UiError → (Db → Option A) → Action A
find_row e f = do found ← on_error (ui internal) (query plain f); or_raise found (ui e)

-- `selectAllFrom`, `findAllFrom` and `numberOfObjects`
unfoldable pub select_rows : {A : Type 0} → (Db → A) → Action A
select_rows f = on_error (ui internal) (query plain f)

-- `offsetLimit`: OFFSET and LIMIT, where a limit of zero is none.
unfoldable pub skip : {A : Type 0} → ℕ → List A → List A
skip zero l = l
skip (suc n) [] = []
skip (suc n) (x ∷ l) = skip n l

unfoldable pub first_rows : {A : Type 0} → ℕ → List A → List A
first_rows zero l = []
first_rows (suc n) [] = []
first_rows (suc n) (x ∷ l) = x ∷ first_rows n l

unfoldable pub page : {A : Type 0} → ℕ → ℕ → List A → List A
page offset limit l = if limit == 0 then skip offset l else first_rows limit (skip offset l)

-- `agent NOT IN (SELECT eth_addr FROM accounts)`
abbrev pub is_account : Db → HexString → Bool
is_account d addr = any (λ a. a.eth_addr == addr) d.accounts

abbrev pub is_on_sale : OfferStatus → Bool
is_on_sale registered = true
is_on_sale popped_up = true
is_on_sale _ = false

-- `activeOfferingCondition`
unfoldable pub is_active_offering : Db → Offering → Bool
is_active_offering d o =
    is_on_sale o.status
    && (not o.is_local && (ltb 0 o.current_supply && not (is_account d o.agent)))

-- `findActiveOfferingByID`
unfoldable pub find_active_offering : Uuid → Action Offering
find_active_offering id =
    find_row UiError.offering_not_found
      (λ d. find? (λ o. o.id == id && is_active_offering d o) d.offerings)

-- `suggestedGasPrice`, whose error is the node's own.
unfoldable pub suggested_gas_price : Handler → Action ℕ
suggested_gas_price h = do price ← or_raise h.suggest_gas_price failure; pure (price % 2 ^ 64)

-- A gas price of zero stands for the suggested one.
unfoldable pub gas_or_suggested : Handler → ℕ → Action ℕ
gas_or_suggested h gas = if gas == 0 then suggested_gas_price h else pure gas

-- `jobPublishData`
unfoldable pub job_publish_data : Handler → ℕ → Action Payload
job_publish_data h gas = do price ← gas_or_suggested h gas; pure (publish price)

-- `ReadSetting` and `ReadUint64Setting`
unfoldable pub setting_value : SettingKey → Action Text
setting_value key = do
  found ← query plain (λ d. find? (λ s. setting_key_eq s.key key) d.settings)
  or_raise (value_of found) no_rows
  where
    value_of : Option Setting → Option Text
    value_of none = none
    value_of (some s) = some s.value
