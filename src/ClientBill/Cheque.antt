-- ===== src/ClientBill/Cheque.antt =====
-- client/bill/monitor.go: posting a cheque.
use dappctrl.Base.{ℕ, Bool, ◌&&◌, ltb, ◌==◌, if◌then◌else◌, find?, update_where}
use dappctrl.Data.{Uuid, Channel, Account}
use dappctrl.Data.Error.{no_rows, failure, pay_equal_balance}
use dappctrl.Store.{Db, plain, Action, ◌>>=◌, pure, raise, or_raise, query, exec}
use dappctrl.Pay.Server.{reply_code}
use dappctrl.Pay.Client.{Posted, posted, refused_with, failed_with}

unfoldable pub is_behind : Uuid → ℕ → Channel → Bool
is_behind id amount ch = ch.id == id && ltb ch.receipt_balance amount

unfoldable pub receipted : ℕ → Channel → Channel
receipted amount ch = record ch { receipt_balance = amount }

unfoldable pub record_receipt : Uuid → ℕ → Db → Db
record_receipt id amount d = record d {
  channels = update_where (is_behind id amount) (receipted amount) d.channels;
}

-- A refusal because the balance is equal is no error; any other is reported.
abbrev settle : Uuid → ℕ → Posted → Action (Unit {0})
settle id amount posted = exec plain (record_receipt id amount)
settle id amount (refused_with code) =
    if code == reply_code pay_equal_balance then pure tt else raise failure
settle id amount (failed_with e) = raise e

-- `key` opens the account's key, `post` sends the cheque: both answer for themselves.
unfoldable pub post_cheque :
    (Account → Bool) → (Channel → ℕ → Action Posted) → Uuid → ℕ → Action (Unit {0})
post_cheque key post id amount = do
  found ← query plain (λ d. find? (λ c. c.id == id) d.channels)
  ch ← or_raise found no_rows
  client ← query plain (λ d. find? (λ a. a.eth_addr == ch.client) d.accounts)
  account ← or_raise client no_rows
  if key account then (post ch amount >>= settle id amount) else raise failure
