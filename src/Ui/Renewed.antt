-- ===== src/Ui/Renewed.antt =====
-- The password after a change of it.
use dappctrl.Base.{
  ◌≡◌, refl, sym, ◌∙◌, ap, subst, ℕ, ◌+◌, Bool, true, false, some, List, find?, select, length,
  update_where, find?-update_where, find?-update_where-other, length-select-any, Option-cases, inl,
  inr, ◌==◌, ==_iff, arith,
}
use dappctrl.Data.{
  Text, Base64String, Setting, SettingKey, setting_key_eq, setting_key_code, password_hash,
  password_salt,
}
use dappctrl.Store.{Db, World, Result, ok, err, answering, monad}
use dappctrl.Store.Ensures.{
  attempted-Ensures, Ensures, >>=-Ensures, weaken, on_error-Ensures, or_raise-Ensures,
  begin-Ensures, commit-Ensures, require-Ensures, pure-Ensures,
}
use dappctrl.Ui.Env.{Memory, Handler}
use dappctrl.Ui.Access.{setting_value}
use dappctrl.Ui.Auth.{
  check_password, hidden_setting, encoded, hash_password, validate_password, when_checked,
  update_password, update_setting, change_password, get_token,
}
use dappctrl.Ui.Rules.{found_rows-Ensures}
use dappctrl.Ui.Resealed.{keys-Ensures, checked-Ensures, renewed}

abbrev is_key : SettingKey → Setting → Bool
is_key k s = setting_key_eq s.key k

same_key : (s : Setting) → is_key s.key s ≡ true
same_key s = (==_iff (setting_key_code s.key) (setting_key_code s.key)).1 refl

-- A setting that is written is found, and the others are found as before.
record IsWritten (s : Setting) (l l' : List Setting) : Type 0 where
  written : find? (is_key s.key) l' ≡ some s
  others :
      (k : SettingKey) → setting_key_eq s.key k ≡ false → find? (is_key k) l' ≡ find? (is_key k) l

update-IsWritten :
    (s : Setting) (l : List Setting)
    → (length (select (is_key s.key) l) == 0) ≡ false
    → IsWritten s l (update_where (is_key s.key) (λ _. s) l)
update-IsWritten s l h = record {
  written = find?-update_where (is_key s.key) s l (length-select-any _ l h) (same_key s);
  others = λ k e.
      find?-update_where-other (is_key s.key) (is_key k) s l
        (λ x p. other (setting_key_code x.key) (setting_key_code s.key) (setting_key_code k) p e) e;
}
  where
    other : (a b c : ℕ) → (a == b) ≡ true → (b == c) ≡ false → (a == c) ≡ false
    other a b c h k = ground arith

setting-Ensures :
    (s : Setting) (w : World)
    → Ensures (update_setting s) w (λ _ w'. IsWritten s w.tx.settings w'.tx.settings)
setting-Ensures s w = weaken (found_rows-Ensures _ _ w) λ _ w' q.
    subst (λ l. IsWritten s w.tx.settings l) (sym (ap (λ (d : Db). d.settings) q.1.1))
      (update-IsWritten s w.tx.settings q.0)

-- The rows of a password and its salt.
record HasPassword (h : Handler) (new : Text) (d : Db) : Type 0 where
  hashed : Base64String
  hash_of : hash_password h new h.new_salt ≡ some hashed
  hash_row : find? (is_key password_hash) d.settings ≡ some (hidden_setting password_hash hashed)
  salt_row :
      find? (is_key password_salt) d.settings ≡ some (hidden_setting password_salt h.new_salt)

change-Ensures :
    (h : Handler) (current new : Text) (w : World)
    → Ensures (change_password h current new) w (λ _ w'. HasPassword h new w'.db)
unfolding change_password
change-Ensures h current new w = >>=-Ensures _ _ _ w (require-Ensures _ _ w) λ _ w1 _.
    >>=-Ensures _ _ _ w1 (or_raise-Ensures _ _ w1) λ hashed w2 q2.
      >>=-Ensures _ _ _ w2 (on_error-Ensures _ _ w2 (begin-Ensures w2)) λ _ w3 _.
        >>=-Ensures _ _ _ w3 (keys-Ensures h current new w3) λ _ w4 _.
          >>=-Ensures _ _ _ w4 (setting-Ensures _ w4) λ _ w5 q5.
            >>=-Ensures _ _ _ w5 (setting-Ensures _ w5) λ _ w6 q6.
              weaken (on_error-Ensures _ _ w6 (commit-Ensures w6)) λ _ w7 q7.
                subst (HasPassword h new) (sym q7) (record {
                  hashed = hashed;
                  hash_of = q2.0;
                  hash_row = q6.written;
                  salt_row = q6.others password_salt refl ∙ q5.written;
                })

update-Ensures :
    (h : Handler) (current new : Text) (w : World)
    → Ensures (update_password h current new) w (λ r w'. r.0 ≡ ok tt → HasPassword h new w'.db)
unfolding update_password
update-Ensures h current new w =
    >>=-Ensures _ _ _ w (attempted-Ensures _ w (checked-Ensures h current w)) λ r w1 _. after r w1
  where
    after :
        (r : Result Memory) (w : World)
        → Ensures (when_checked h new r) w (λ r w'. r.0 ≡ ok tt → HasPassword h new w'.db)
    after (err x) w = pure-Ensures _ w λ p. cc
    after (ok m) w =
        >>=-Ensures _ _ _ w (attempted-Ensures _ w (change-Ensures h m.password new w))
          λ r w1 q1. pure-Ensures _ w1 (renewed h m r q1)

abbrev after_calls : Db → ℕ → World
after_calls d n = record (answering d) { calls = n }

setting_value_lem :
    (k : SettingKey) (s : Setting) (d : Db) (n : ℕ)
    → find? (is_key k) d.settings ≡ some s
    → setting_value k (after_calls d n) ≡ (ok s.value, after_calls d (n + 1))
unfolding setting_value monad
setting_value_lem k s d n e = rw e refl

-- A password is accepted with its own hash and salt.
own_hash :
    (h : Handler) (p s : Text) (x : Base64String)
    → ((b : ℕ) → h.to_bytes (h.of_bytes b) ≡ some b)
    → ((a b : ℕ) → h.generate_hash a ≡ some b → h.compare_hash b a ≡ true)
    → hash_password h p s ≡ some x
    → validate_password h x p s ≡ true
unfolding hash_password validate_password
own_hash h p s x codes accepts e = elim (Option-cases (h.generate_hash (h.salted p s))) [
  | inl n ↦ ground (arith, n)
  | inr (b, k) ↦
      subst (λ y. validate_password h y p s ≡ true)
        (some_eq (h.of_bytes b) x (subst (λ o. encoded h o ≡ some x) k e))
        (rw (codes b) (accepts (h.salted p s) b k))
]
  where
    some_eq : (a b : Base64String) → some a ≡ some b → a ≡ b
    some_eq a b q = cc

module _ (h : Handler) (new t : Text) (m : Memory)
    (codes : (b : ℕ) → h.to_bytes (h.of_bytes b) ≡ some b)
    (accepts : (a b : ℕ) → h.generate_hash a ≡ some b → h.compare_hash b a ≡ true)
    (made : h.new_token ≡ some t) where
  -- A token for a password whose rows are there.
  token_lem :
      (d : Db)
      → HasPassword h new d
      → (get_token (record h { memory = m }) new (answering d)).0
        ≡ ok (ok t, record { token = t; password = new })
  unfolding get_token check_password monad validate_password
  token_lem d p = rw (setting_value_lem password_hash _ d 0 p.hash_row) (
      rw (setting_value_lem password_salt _ d 1 p.salt_row)
        (rw (own_hash h new h.new_salt p.hashed codes accepts p.hash_of) (rw made refl)))

  -- Of the libraries it is assumed that base64 decodes what it encoded, and that bcrypt's comparison
  -- accepts what a hash was made of. After a change of the password that ends well, and while the
  -- database answers, the new password gives a new token, and is then the one in memory.
  pub update_password-get_token :
      (current : Text) (w : World)
      → (update_password h current new w).0 ≡ ok (ok tt, m)
      → (get_token
          (record h { memory = m })
          new
          (answering (update_password h current new w).1.db)).0
        ≡ ok (ok t, record { token = t; password = new })
  update_password-get_token current w e =
      token_lem _ ((update-Ensures h current new w).holds (ok tt, m) e refl)
