-- ===== src/Store/Ensures.antt =====
-- What holds after an action that ends well, call by call.
use dappctrl.Base.{
  ◌≡◌, refl, Bool, true, false, Option, none, some, arith, subst, sym, Bool-cases, inl, inr,
}
use dappctrl.Data.{Error}
use dappctrl.Store.Frames.{Keeps}
use dappctrl.Store.Monad.{
  attempt, Db, World, Querier, in_tx, plain, visible, Result, ok, err, Action, ◌>>=◌, after, pure,
  require, when, or_raise, on_error, query, exec, begin, commit, replace_error,
}

-- If `m` run at `w` returns a value, `P` holds of it and of the world that is left.
pub record Ensures {A : Type 0} (m : Action A) (w : World) (P : A → World → Type 0) : Type 0 where
  pub holds : (a : A) → (m w).0 ≡ ok a → P a (m w).1

-- Neither the committed tables nor the working copy changed.
pub record Same (w w' : World) : Type 0 where
  pub db : w'.db ≡ w.db
  pub tx : w'.tx ≡ w.tx

module _ {A B : Type 0} {P : B → World → Type 0} (Q : A → World → Type 0) where
  after-Ensures :
      (r : Result A × World) (f : A → Action B)
      → ((a : A) → r.0 ≡ ok a → Q a r.1)
      → ((a : A) (w' : World) → Q a w' → Ensures (f a) w' P)
      → (b : B) → (after r f).0 ≡ ok b
      → P b (after r f).1
  after-Ensures (ok a, w') f h k b e = (k a w' (h a refl)).holds b e
  after-Ensures (err x, w') f h k b e = cc

  pub >>=-Ensures :
      (m : Action A) (f : A → Action B) (w : World)
      → Ensures m w Q
      → ((a : A) (w' : World) → Q a w' → Ensures (f a) w' P)
      → Ensures (m >>= f) w P
  unfolding ◌>>=◌
  >>=-Ensures m f w h k = record { holds = after-Ensures (m w) f h.holds k }

module _ {A : Type 0} where
  pub pure-Ensures : (a : A) (w : World) {P : A → World → Type 0} → P a w → Ensures (pure a) w P
  unfolding pure
  pure-Ensures a w {P} h = record { holds = λ b e. subst (λ x. P x w) (some_ok e) h }
    where
      some_ok : {b : A} → ok a ≡ ok b → a ≡ b
      some_ok e = cc

  pub query-Ensures :
      (q : Querier) (f : Db → A) (w : World)
      → Ensures (query q f) w (λ a w'. (a ≡ f (visible q w)) × Same w w')
  unfolding query
  query-Ensures q f w = record { holds = λ a e. ground arith }

  pub or_raise-Ensures :
      (o : Option A) (e : Error) (w : World)
      → Ensures (or_raise o e) w (λ a w'. (o ≡ some a) × Same w w')
  unfolding or_raise
  or_raise-Ensures none e w = record { holds = λ a h. cc }
  or_raise-Ensures (some b) e w = record { holds = λ a h. ground arith }

  pub on_error-Ensures :
      (e : Error) (m : Action A) (w : World) {P : A → World → Type 0}
      → Ensures m w P
      → Ensures (on_error e m) w P
  unfolding on_error
  on_error-Ensures e m w {P} h = record { holds = go (m w) h.holds }
    where
      go :
          (r : Result A × World)
          → ((a : A) → r.0 ≡ ok a → P a r.1)
          → (a : A) → (replace_error e r).0 ≡ ok a
          → P a (replace_error e r).1
      go (ok b, w') k a p = k a p
      go (err x, w') k a p = cc

pub require-Ensures :
    (b : Bool) (e : Error) (w : World) → Ensures (require b e) w (λ _ w'. (b ≡ true) × Same w w')
unfolding require
require-Ensures true e w = record { holds = λ _ h. (refl, record { db = refl; tx = refl }) }
require-Ensures false e w = record { holds = λ _ h. cc }

pub begin-Ensures : (w : World) → Ensures begin w (λ _ w'. (w'.db ≡ w.db) × (w'.tx ≡ w.db))
unfolding begin
begin-Ensures w = record { holds = λ _ h. ground arith }

pub commit-Ensures : (w : World) → Ensures commit w (λ _ w'. w'.db ≡ w.tx)
unfolding commit
commit-Ensures w = record { holds = λ _ h. ground arith }

pub exec_tx-Ensures :
    (f : Db → Db) (w : World) → Ensures (exec in_tx f) w (λ _ w'. (w'.db ≡ w.db) × (w'.tx ≡ f w.tx))
unfolding exec
exec_tx-Ensures f w = record { holds = λ _ h. ground arith }

pub exec_plain-Ensures :
    (f : Db → Db) (w : World) → Ensures (exec plain f) w (λ _ w'. (w'.db ≡ f w.db) × (w'.tx ≡ w.tx))
unfolding exec
exec_plain-Ensures f w = record { holds = λ _ h. ground arith }

pub weaken :
    {A : Type 0} {m : Action A} {w : World} {P Q : A → World → Type 0}
    → Ensures m w P
    → ((a : A) (w' : World) → P a w' → Q a w')
    → Ensures m w Q
weaken {m = m} {w = w} h k = record { holds = λ a e. k a (m w).1 (h.holds a e) }

pub when-Ensures :
    (b : Bool) (m : Action (Unit {0})) (w : World) {P : World → Type 0}
    → P w
    → Ensures m w (λ _ w'. P w')
    → Ensures (when b m) w (λ _ w'. P w')
unfolding when
when-Ensures true m w p h = h
when-Ensures false m w p h = record { holds = λ _ _. p }

pub attempt-Ensures :
    {A : Type 0} (m : Action A) (w : World) → Keeps m → Ensures (attempt m) w (λ _ w'. w'.db ≡ w.db)
unfolding attempt
attempt-Ensures m w h = record { holds = λ a e. h.keeps w }

-- Whatever the outcome, `P` holds of the committed tables.
pub record Ends {A : Type 0} (m : Action A) (w : World) (P : Db → Type 0) : Type 0 where
  pub ends : P (m w).1.db

pub Keeps-Ends :
    {A : Type 0} {P : Db → Type 0} (m : Action A) (w : World) → P w.db → Keeps m → Ends m w P
Keeps-Ends {P = P} m w a k = record { ends = subst P (sym (k.keeps w)) a }

pub >>=-Ends :
    {P : Db → Type 0} {A B : Type 0} (Q : A → World → Type 0) (m : Action A) (f : A → Action B)
    (w : World)
    → P w.db
    → Keeps m
    → Ensures m w Q
    → ((a : A) (w' : World) → w'.db ≡ w.db → Q a w' → Ends (f a) w' P)
    → Ends (m >>= f) w P
unfolding ◌>>=◌
>>=-Ends {P} {A} {B} Q m f w a k h g = record { ends = go (m w) (k.keeps w) (h.holds) }
  where
    go :
        (r : Result A × World)
        → r.1.db ≡ w.db
        → ((x : A) → r.0 ≡ ok x → Q x r.1)
        → P (after r f).1.db
    go (ok x, w') e q = (g x w' e (q x refl)).ends
    go (err y, w') e q = subst P (sym e) a

pub >>=-then-Ends :
    {P : Db → Type 0} {A B : Type 0} (m : Action A) (f : A → Action B) (w : World)
    → Ends m w P
    → ((a : A) → Keeps (f a))
    → Ends (m >>= f) w P
unfolding ◌>>=◌
>>=-then-Ends {P} {A} {B} m f w h k = record { ends = go (m w) h.ends }
  where
    go : (r : Result A × World) → P r.1.db → P (after r f).1.db
    go (ok x, w') p = subst P (sym ((k x).keeps w')) p
    go (err y, w') p = p

-- A single write happens or not.
pub exec-Ends :
    {P : Db → Type 0} (f : Db → Db) (w : World) → P w.db → P (f w.db) → Ends (exec plain f) w P
unfolding exec
exec-Ends f w a b = elim (Bool-cases (w.fails w.calls)) [
  | inl t ↦ record { ends = rw t a }
  | inr g ↦ record { ends = rw g b }
]

pub on_error-Ends :
    {P : Db → Type 0} {A : Type 0} (e : Error) (m : Action A) (w : World)
    → Ends m w P
    → Ends (on_error e m) w P
unfolding on_error
on_error-Ends {P} {A} e m w h = record { ends = go (m w) h.ends }
  where
    go : (r : Result A × World) → P r.1.db → P (replace_error e r).1.db
    go (ok x, w') p = p
    go (err y, w') p = p

pub attempt-Ends :
    {P : Db → Type 0} {A : Type 0} (m : Action A) (w : World) → Ends m w P → Ends (attempt m) w P
unfolding attempt
attempt-Ends m w h = record { ends = h.ends }

-- What a result that is looked at says.
pub attempted-Ensures :
    {A : Type 0} {P : A → World → Type 0} (m : Action A) (w : World)
    → Ensures m w P
    → Ensures (attempt m) w (λ r w'. (a : A) → r ≡ ok a → P a w')
unfolding attempt
attempted-Ensures m w h = record { holds = λ r e a q. h.holds a (cc) }

pub Keeps-Ensures :
    {A : Type 0} (m : Action A) (w : World) → Keeps m → Ensures m w (λ _ w'. w'.db ≡ w.db)
Keeps-Ensures m w k = record { holds = λ _ _. k.keeps w }
