-- ===== src/Ui/Default.antt =====
-- The default account.
use dappctrl.Base.{
  ◌≡◌, refl, sym, ◌∙◌, ap, subst, Bool, true, List, [], ◌∷◌, map, All, update_where, ◌==◌, ==_iff,
  find?-sound, Bool-cases, inl, inr,
}
use dappctrl.Data.{Uuid, Text, Account}
use dappctrl.Store.{Db, World, ok}
use dappctrl.Store.Ensures.{
  Ensures, >>=-Ensures, weaken, on_error-Ensures, begin-Ensures, exec_tx-Ensures, commit-Ensures,
}
use dappctrl.Ui.Env.{Handler}
use dappctrl.Ui.Accounts.{
  clear_default, changed_account, update_account_row, make_default, update_account,
}
use dappctrl.Ui.Rules.{check_token-Ensures, find_row-Ensures, update_rows-Ensures}

-- The account with a key is the default, and no other.
abbrev pub IsOnlyDefault : Uuid → List Account → Type 0
IsOnlyDefault id = All (λ a. a.is_default ≡ (a.id == id))

replaced-IsOnlyDefault :
    (acc : Account) (l : List Account)
    → acc.is_default ≡ true
    → IsOnlyDefault acc.id (update_where (λ a. a.id == acc.id) (λ _. acc) (map clear_default l))
unfolding update_where clear_default
replaced-IsOnlyDefault acc [] e = tt
replaced-IsOnlyDefault acc (a ∷ l) e = elim (Bool-cases (a.id == acc.id)) [
  | inl t ↦ (rw t (e ∙ sym ((==_iff acc.id acc.id).1 refl)), replaced-IsOnlyDefault acc l e)
  | inr f ↦ (rw f (sym f), replaced-IsOnlyDefault acc l e)
]

make-Ensures :
    (acc : Account) (w : World)
    → acc.is_default ≡ true
    → Ensures (make_default acc) w (λ _ w'. IsOnlyDefault acc.id w'.db.accounts)
unfolding make_default update_account_row
make-Ensures acc w e = on_error-Ensures _ _ w (
    >>=-Ensures _ _ _ w (begin-Ensures w) λ _ w1 q1.
      >>=-Ensures _ _ _ w1 (exec_tx-Ensures _ w1) λ _ w2 q2.
        >>=-Ensures _ _ _ w2 (update_rows-Ensures _ _ w2) λ _ w3 q3.
          weaken (commit-Ensures w3) λ _ w4 q4.
            subst (λ d. IsOnlyDefault acc.id d.accounts)
              (sym (
                q4
                ∙ q3.1
                ∙ ap
                    (λ (d : Db). record d {
                      accounts = update_where (λ a. a.id == acc.id) (λ _. acc) d.accounts;
                    })
                    q2.1))
              (replaced-IsOnlyDefault acc w1.tx.accounts e))

update-Ensures :
    (h : Handler) (tkn : Text) (id : Uuid) (name : Text) (in_use : Bool) (w : World)
    → Ensures (update_account h tkn id name true in_use) w (λ _ w'. IsOnlyDefault id w'.db.accounts)
unfolding update_account changed_account
update-Ensures h tkn id name in_use w = >>=-Ensures _ _ _ w (check_token-Ensures h tkn w) λ _ w1 q1.
    >>=-Ensures _ _ _ w1 (find_row-Ensures _ _ w1) λ acc w2 q2.
      weaken (make-Ensures _ w2 refl) λ _ w3 q3.
        subst (λ i. IsOnlyDefault i w3.db.accounts) ((==_iff _ _).0 (find?-sound _ _ acc q2.0)) q3

-- An account that is made the default is the only one: when the request ends well, each account is
-- the default exactly if it has the given key.
pub update_account-IsOnlyDefault :
    (h : Handler) (tkn : Text) (id : Uuid) (name : Text) (in_use : Bool) (w : World)
    → (update_account h tkn id name true in_use w).0 ≡ ok tt
    → IsOnlyDefault id (update_account h tkn id name true in_use w).1.db.accounts
update_account-IsOnlyDefault h tkn id name in_use w e =
    (update-Ensures h tkn id name in_use w).holds tt e
