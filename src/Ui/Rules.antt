-- ===== src/Ui/Rules.antt =====
-- What the calls of a request find and leave.
use dappctrl.Base.{◌≡◌, sym, ◌∙◌, ℕ, true, Option, some, arith, ◌==◌, false, not}
use dappctrl.Data.{SettingKey, Text, UiError}
use dappctrl.Store.{Db, World, plain, in_tx, exec_count}
use dappctrl.Store.Frames.{Keeps, >>=-Keeps, frames}
use dappctrl.Store.Ensures.{
  Ensures, Same, >>=-Ensures, weaken, query-Ensures, or_raise-Ensures, require-Ensures,
  on_error-Ensures,
}
use dappctrl.Ui.Env.{Handler}
use dappctrl.Ui.Access.{setting_value, check_token, find_row, select_rows}
use dappctrl.Ui.Offerings.{update_rows}

pub check_token-Ensures :
    (h : Handler) (tkn : Text) (w : World)
    → Ensures (check_token h tkn) w (λ _ w'. ((tkn == h.memory.token) ≡ true) × Same w w')
unfolding check_token
check_token-Ensures h tkn w = require-Ensures _ _ w

pub check_token-Keeps : (h : Handler) (tkn : Text) → Keeps (check_token h tkn)
unfolding check_token
check_token-Keeps h tkn = search frames

module _ {A : Type 0} where
  pub find_row-Ensures :
      (e : UiError) (f : Db → Option A) (w : World)
      → Ensures (find_row e f) w (λ a w'. (f w.db ≡ some a) × Same w w')
  unfolding find_row
  find_row-Ensures e f w =
      >>=-Ensures (λ o w1. (o ≡ f w.db) × Same w w1) _ _ w
        (on_error-Ensures _ _ w (query-Ensures plain _ w))
        λ o w1 q.
          weaken (or_raise-Ensures o _ w1)
            λ a w2 r. (sym q.0 ∙ r.0, record { db = r.1.db ∙ q.1.db; tx = r.1.tx ∙ q.1.tx })

  pub find_row-Keeps : (e : UiError) (f : Db → Option A) → Keeps (find_row e f)
  unfolding find_row
  find_row-Keeps e f = >>=-Keeps _ _ (search frames) λ _. search frames

  pub select_rows-Ensures :
      (f : Db → A) (w : World) → Ensures (select_rows f) w (λ a w'. (a ≡ f w.db) × Same w w')
  unfolding select_rows
  select_rows-Ensures f w = on_error-Ensures _ _ w (query-Ensures plain _ w)

  pub select_rows-Keeps : (f : Db → A) → Keeps (select_rows f)
  unfolding select_rows
  select_rows-Keeps f = search frames

exec_count-Ensures :
    (f : Db → Db) (n : Db → ℕ) (w : World)
    → Ensures (exec_count in_tx f n) w (λ c w'. (c ≡ n w.tx) × ((w'.db ≡ w.db) × (w'.tx ≡ f w.tx)))
unfolding exec_count
exec_count-Ensures f n w = record { holds = λ _ h. ground arith }

-- An update by key ends well only if it finds a row.
pub found_rows-Ensures :
    (f : Db → Db) (n : Db → ℕ) (w : World)
    → Ensures
        (update_rows in_tx f n)
        w
        (λ _ w'. ((n w.tx == 0) ≡ false) × ((w'.db ≡ w.db) × (w'.tx ≡ f w.tx)))
unfolding update_rows
found_rows-Ensures f n w =
    >>=-Ensures _ _ _ w (on_error-Ensures _ _ w (exec_count-Ensures f n w)) λ c w1 q1.
      weaken (require-Ensures _ _ w1)
        λ _ w2 q2. (some_row c (n w.tx) q1.0 q2.0, (q2.1.db ∙ q1.1.0, q2.1.tx ∙ q1.1.1))
  where
    some_row : (c n : ℕ) → c ≡ n → not (c == 0) ≡ true → (n == 0) ≡ false
    some_row c n e h = ground arith

pub update_rows-Ensures :
    (f : Db → Db) (n : Db → ℕ) (w : World)
    → Ensures (update_rows in_tx f n) w (λ _ w'. (w'.db ≡ w.db) × (w'.tx ≡ f w.tx))
update_rows-Ensures f n w = weaken (found_rows-Ensures f n w) λ _ _ q. q.1

pub setting_value-Keeps : (k : SettingKey) → Keeps (setting_value k)
unfolding setting_value
setting_value-Keeps k = >>=-Keeps _ _ (search frames) λ _. search frames
