-- ===== src/Ui/Resealed.antt =====
-- The private keys after a change of the password.
use dappctrl.Base.{
  ◌≡◌, refl, sym, ◌∙◌, ap, subst, ◌⊎◌, inl, inr, ℕ, Bool, true, false, some, List, [], ◌∷◌, All,
  any, update_where, ◌==◌, ◌||◌, ==_iff, arith, Bool-cases,
}
use mathlib.Core.List.{Mem, mem-cons_self, mem-cons_of_mem}
use dappctrl.Data.{Setting, Text, Account}
use dappctrl.Store.{Db, World, Result, ok, err, in_tx}
use dappctrl.Store.Frames.{on_error-Keeps}
use dappctrl.Store.Ensures.{
  Keeps-Ensures, attempted-Ensures, Ensures, >>=-Ensures, weaken, on_error-Ensures,
  or_raise-Ensures, begin-Ensures, commit-Ensures, require-Ensures, pure-Ensures, query-Ensures,
}
use dappctrl.Ui.Env.{Memory, Handler}
use dappctrl.Ui.Accounts.{update_account_row}
use dappctrl.Ui.Auth.{
  check_password, when_checked, renew_token, update_password, update_setting, seal_keys,
  update_private_keys, change_password,
}
use dappctrl.Ui.Rules.{setting_value-Keeps, update_rows-Ensures}

-- A row whose private key is that of an account of a list, under a password.
pub record IsResealed (h : Handler) (current new : Text) (l : List Account) (row : Account)
    : Type 0 where
  pub old : Account
  pub key : ℕ
  pub known : Mem old l
  pub opened : h.get_key current old ≡ some key
  pub same_id : old.id ≡ row.id
  pub sealed : h.encrypt_key key new ≡ some row.private_key

All-Mem : {P : Account → Type 0} (l : List Account) → ((a : Account) → Mem a l → P a) → All P l
All-Mem [] k = tt
All-Mem (x ∷ l) k = (k x mem-cons_self, All-Mem l λ a m. k a (mem-cons_of_mem x m))

module _ (h : Handler) (current new : Text) (l : List Account) where
  -- A row is sealed already, or its turn is to come.
  abbrev IsOnTurn : List Account → Account → Type 0
  IsOnTurn todo row = IsResealed h current new l row ⊎ (any (λ a. a.id == row.id) todo ≡ true)

  ended : (rows : List Account) → All (IsOnTurn []) rows → All (IsResealed h current new l) rows
  unfolding any
  ended [] i = tt
  ended (row ∷ rows) (inl r, i) = (r, ended rows i)
  ended (row ∷ rows) (inr e, i) = cc

  turned :
      (acc row : Account) (todo : List Account)
      → IsOnTurn (acc ∷ todo) row
      → (row.id == acc.id) ≡ false
      → IsOnTurn todo row
  unfolding any
  turned acc row todo (inl r) f = inl r
  turned acc row todo (inr e) f = inr (ground arith)

  replaced :
      (acc now : Account) (todo rows : List Account)
      → now.id ≡ acc.id
      → IsResealed h current new l now
      → All (IsOnTurn (acc ∷ todo)) rows
      → All (IsOnTurn todo) (update_where (λ a. a.id == now.id) (λ _. now) rows)
  unfolding update_where
  replaced acc now todo [] e r i = tt
  replaced acc now todo (row ∷ rows) e r i = elim (Bool-cases (row.id == now.id)) [
    | inl t ↦ (rw t (inl r), replaced acc now todo rows e r i.1)
    | inr f ↦ (
      rw f (turned acc row todo i.0 (subst (λ x. (row.id == x) ≡ false) e f)),
      replaced acc now todo rows e r i.1,
    )
  ]

  seal-Ensures :
      (todo : List Account) (w : World)
      → All (λ a. Mem a l) todo
      → All (IsOnTurn todo) w.tx.accounts
      → Ensures
          (seal_keys h current new todo)
          w
          (λ _ w'. All (IsResealed h current new l) w'.tx.accounts)
  unfolding seal_keys update_account_row
  seal-Ensures [] w m i = pure-Ensures _ w (ended _ i)
  seal-Ensures (acc ∷ todo) w m i = >>=-Ensures _ _ _ w (or_raise-Ensures _ _ w) λ key w1 q1.
      >>=-Ensures _ _ _ w1 (or_raise-Ensures _ _ w1) λ sealed w2 q2.
        >>=-Ensures _ _ _ w2 (update_rows-Ensures _ _ w2) λ _ w3 q3. seal-Ensures todo w3 m.1 (
          subst (λ d. All (IsOnTurn todo) d.accounts) (sym q3.1)
            (replaced acc (record acc { private_key = sealed }) todo w2.tx.accounts refl
              (record {
                old = acc;
                key = key;
                known = m.0;
                opened = q1.0;
                same_id = refl;
                sealed = q2.0;
              })
              (subst (λ d. All (IsOnTurn (acc ∷ todo)) d.accounts) (sym (q2.1.tx ∙ q1.1.tx)) i)))

All-map :
    {P Q : Account → Type 0} (l : List Account) → ((a : Account) → P a → Q a) → All P l → All Q l
All-map [] f a = tt
All-map (x ∷ l) f a = (f x a.0, All-map l f a.1)

own_turn : (l : List Account) → All (λ a. any (λ x. x.id == a.id) l ≡ true) l
unfolding any
own_turn [] = tt
own_turn (x ∷ l) = (
  rw ((==_iff x.id x.id).1 refl) refl,
  All-map l (λ a e. later x.id a.id (any (λ y. y.id == a.id) l) e) (own_turn l),
)
  where
    later : (i j : ℕ) (b : Bool) → b ≡ true → ((i == j) || b) ≡ true
    later i j b e = ground arith

pub keys-Ensures :
    (h : Handler) (current new : Text) (w : World)
    → Ensures
        (update_private_keys h current new)
        w
        (λ _ w'. All (IsResealed h current new w.tx.accounts) w'.tx.accounts)
unfolding update_private_keys
keys-Ensures h current new w =
    >>=-Ensures _ _ _ w (on_error-Ensures _ _ w (query-Ensures in_tx _ w)) λ l w1 q1.
      weaken
        (seal-Ensures h current new l l w1 (All-Mem l λ a m. m) (
          subst (λ x. All (IsOnTurn h current new l l) x)
            (q1.0 ∙ ap (λ (d : Db). d.accounts) (sym q1.1.tx))
            (All-map l (λ a e. inr e) (own_turn l))))
        λ _ w2 q. subst (λ x. All (IsResealed h current new x) w2.tx.accounts) q1.0 q

-- A setting that is written leaves the accounts of the transaction.
setting-Ensures :
    (s : Setting) (w : World)
    → Ensures (update_setting s) w (λ _ w'. w'.tx.accounts ≡ w.tx.accounts)
setting-Ensures s w = weaken (update_rows-Ensures _ _ w) λ _ w' q. ap (λ (d : Db). d.accounts) q.1

change-Ensures :
    (h : Handler) (current new : Text) (w : World)
    → Ensures
        (change_password h current new)
        w
        (λ _ w'. All (IsResealed h current new w.db.accounts) w'.db.accounts)
unfolding change_password
change-Ensures h current new w = >>=-Ensures _ _ _ w (require-Ensures _ _ w) λ _ w1 q1.
    >>=-Ensures _ _ _ w1 (or_raise-Ensures _ _ w1) λ hashed w2 q2.
      >>=-Ensures _ _ _ w2 (on_error-Ensures _ _ w2 (begin-Ensures w2)) λ _ w3 q3.
        >>=-Ensures _ _ _ w3 (keys-Ensures h current new w3) λ _ w4 q4.
          >>=-Ensures _ _ _ w4 (setting-Ensures _ w4) λ _ w5 q5.
            >>=-Ensures _ _ _ w5 (setting-Ensures _ w5) λ _ w6 q6.
              weaken (on_error-Ensures _ _ w6 (commit-Ensures w6)) λ _ w7 q7.
                subst (All (IsResealed h current new w.db.accounts))
                  (sym (ap (λ (d : Db). d.accounts) q7 ∙ q6 ∙ q5))
                  (subst (λ d. All (IsResealed h current new d.accounts) w4.tx.accounts)
                    (q3.1 ∙ q2.1.db ∙ q1.1.db) q4)

-- A password that is checked is the one in memory.
pub checked-Ensures :
    (h : Handler) (password : Text) (w : World)
    → Ensures (check_password h password) w (λ m w'. (m.password ≡ password) × (w'.db ≡ w.db))
unfolding check_password
checked-Ensures h password w =
    >>=-Ensures _ _ _ w (Keeps-Ensures _ w (on_error-Keeps _ _ (setting_value-Keeps _))) λ _ w1 q1.
      >>=-Ensures _ _ _ w1 (Keeps-Ensures _ w1 (on_error-Keeps _ _ (setting_value-Keeps _)))
        λ _ w2 q2.
          >>=-Ensures _ _ _ w2 (require-Ensures _ _ w2)
            λ _ w3 q3. pure-Ensures _ w3 (refl, q3.1.db ∙ q2 ∙ q1)

abbrev IsDone : Handler → Text → Text → Db → Result (Unit {0}) × Memory → World → Type 0
IsDone h current new d r w = r.0 ≡ ok tt → All (IsResealed h current new d.accounts) w.db.accounts

pub renewed :
    (h : Handler) (m : Memory) {X : Type 0} (r : Result (Unit {0}))
    → ((a : Unit {0}) → r ≡ ok a → X)
    → (renew_token h m r).0 ≡ ok tt
    → X
renewed h m (ok u) q p = q u refl
renewed h m (err x) q p = cc

when-Ensures :
    (h : Handler) (current new : Text) (d : Db) (r : Result Memory) (w : World)
    → ((m : Memory) → r ≡ ok m → (m.password ≡ current) × (w.db ≡ d))
    → Ensures (when_checked h new r) w (IsDone h current new d)
when-Ensures h current new d (err x) w e = pure-Ensures _ w λ p. cc
when-Ensures h current new d (ok m) w e =
    >>=-Ensures _ _ _ w (attempted-Ensures _ w (change-Ensures h m.password new w)) λ r w1 q1.
      pure-Ensures _ w1 (λ p.
        subst (λ x. All (IsResealed h x new d.accounts) w1.db.accounts) (e m refl).0
          (subst (λ x. All (IsResealed h m.password new x.accounts) w1.db.accounts) (e m refl).1
            (renewed h m r q1 p)))

-- After a change of the password that ends well, each account's private key is one that the account
-- with that key had, read with the current password and encrypted with the new one.
pub update_password-IsResealed :
    (h : Handler) (current new : Text) (w : World) (m : Memory)
    → (update_password h current new w).0 ≡ ok (ok tt, m)
    → All (IsResealed h current new w.db.accounts) (update_password h current new w).1.db.accounts
unfolding update_password
update_password-IsResealed h current new w m e =
    (>>=-Ensures _ _ _ w (attempted-Ensures _ w (checked-Ensures h current w))
        λ r w1 q1. when-Ensures h current new w.db r w1 q1).holds
      (ok tt, m) e refl
