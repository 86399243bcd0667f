-- ===== src/Store/Frames.antt =====
-- Which actions leave the committed tables alone, and the rules by which a chain of calls does.
use dappctrl.Base.{◌≡◌, refl, Bool, Option, none, some, arith, ◌∙◌}
use dappctrl.Data.{Error}
use dappctrl.Store.Monad.{
  Db, World, Querier, in_tx, Result, ok, err, Action, ◌>>=◌, after, pure, raise, require, when,
  or_raise, on_error, query, exec, begin, commit, replace_error, attempt,
}

-- Whatever the outcome, the committed tables are as they were.
pub record Keeps {A : Type 0} (m : Action A) : Type 0 where
  pub keeps : (w : World) → (m w).1.db ≡ w.db

-- An action that ends in an error has left the committed tables as they were.
pub record IsAtomic {A : Type 0} (m : Action A) : Type 0 where
  pub atomic : (w : World) (e : Error) → (m w).0 ≡ err e → (m w).1.db ≡ w.db

module _ {A B : Type 0} where
  after-Keeps :
      (d : Db) (r : Result A × World) (f : A → Action B)
      → r.1.db ≡ d
      → ((a : A) → Keeps (f a))
      → (after r f).1.db ≡ d
  after-Keeps d (ok a, w) f h k = (k a).keeps w ∙ h
  after-Keeps d (err e, w) f h k = h

  pub >>=-Keeps :
      (m : Action A) (f : A → Action B) → Keeps m → ((a : A) → Keeps (f a)) → Keeps (m >>= f)
  unfolding ◌>>=◌
  >>=-Keeps m f h k = record { keeps = λ w. after-Keeps w.db (m w) f (h.keeps w) k }

  after-IsAtomic :
      (d : Db) (r : Result A × World) (f : A → Action B) (e : Error)
      → r.1.db ≡ d
      → ((a : A) → IsAtomic (f a))
      → (after r f).0 ≡ err e
      → (after r f).1.db ≡ d
  after-IsAtomic d (ok a, w) f e h k p = (k a).atomic w e p ∙ h
  after-IsAtomic d (err e', w) f e h k p = h

  pub >>=-IsAtomic :
      (m : Action A) (f : A → Action B) → Keeps m → ((a : A) → IsAtomic (f a)) → IsAtomic (m >>= f)
  unfolding ◌>>=◌
  >>=-IsAtomic m f h k = record { atomic = λ w e. after-IsAtomic w.db (m w) f e (h.keeps w) k }

module _ {A : Type 0} where
  pub Keeps-IsAtomic : (m : Action A) → Keeps m → IsAtomic m
  Keeps-IsAtomic m h = record { atomic = λ w e p. h.keeps w }

  pub pure-Keeps : (a : A) → Keeps (pure a)
  unfolding pure
  pure-Keeps a = record { keeps = λ w. refl }

  pub raise-Keeps : (e : Error) → Keeps (raise {A = A} e)
  unfolding raise
  raise-Keeps e = record { keeps = λ w. refl }

  pub or_raise-Keeps : (o : Option A) (e : Error) → Keeps (or_raise o e)
  unfolding or_raise
  or_raise-Keeps none e = record { keeps = λ w. refl }
  or_raise-Keeps (some a) e = record { keeps = λ w. refl }

  pub on_error-Keeps : (e : Error) (m : Action A) → Keeps m → Keeps (on_error e m)
  unfolding on_error
  on_error-Keeps e m h = record { keeps = λ w. ground (arith, h.keeps w) }

  pub query-Keeps : (q : Querier) (f : Db → A) → Keeps (query q f)
  unfolding query
  query-Keeps q f = record { keeps = λ w. ground arith }

pub require-Keeps : (b : Bool) (e : Error) → Keeps (require b e)
unfolding require
require-Keeps b e = record { keeps = λ w. refl }

pub when-Keeps : (b : Bool) (m : Action (Unit {0})) → Keeps m → Keeps (when b m)
unfolding when
when-Keeps b m h = record { keeps = λ w. ground (arith, h.keeps w) }

-- Until it is committed a transaction writes to its own copy.
pub exec-Keeps : (f : Db → Db) → Keeps (exec in_tx f)
unfolding exec
exec-Keeps f = record { keeps = λ w. ground arith }

pub begin-Keeps : Keeps begin
unfolding begin
begin-Keeps = record { keeps = λ w. ground arith }

pub commit-IsAtomic : IsAtomic commit
unfolding commit
commit-IsAtomic = record { atomic = λ w e. ground arith }

pub on_error-IsAtomic :
    {A : Type 0} (e : Error) (m : Action A) → IsAtomic m → IsAtomic (on_error e m)
unfolding on_error
on_error-IsAtomic {A} e m h = record { atomic = λ w x. cases (m w) (h.atomic w) x }
  where
    cases :
        {d : Db} (r : Result A × World)
        → ((y : Error) → r.0 ≡ err y → r.1.db ≡ d)
        → (x : Error) → (replace_error e r).0 ≡ err x
        → (replace_error e r).1.db ≡ d
    cases (ok a, w) k x q = cc
    cases (err y, w) k x q = k y refl

-- An action that ends in its only write, and then returns a value.
pub pure_after-IsAtomic :
    {A B : Type 0} (m : Action A) (b : B) → IsAtomic m → IsAtomic (m >>= λ _. pure b)
unfolding ◌>>=◌ pure
pure_after-IsAtomic {A} {B} m b h = record { atomic = λ w e. cases (m w) (h.atomic w) e }
  where
    cases :
        {d : Db} (r : Result A × World)
        → ((y : Error) → r.0 ≡ err y → r.1.db ≡ d)
        → (x : Error) → (after r (λ _. pure b)).0 ≡ err x
        → (after r (λ _. pure b)).1.db ≡ d
    cases (ok a, w) k x q = cc
    cases (err y, w) k x q = k y refl

pub ruleset frames = (
  >>=-Keeps, >>=-IsAtomic, pure-Keeps, raise-Keeps, or_raise-Keeps, on_error-Keeps, query-Keeps,
  require-Keeps, when-Keeps, exec-Keeps, begin-Keeps, commit-IsAtomic,
)

pub attempt-Keeps : {A : Type 0} (m : Action A) → Keeps m → Keeps (attempt m)
unfolding attempt
attempt-Keeps m h = record { keeps = h.keeps }

-- What an action that ends in an error without having done anything ends in.
abbrev pub Stops : {A : Type 0} → Error → Action A → World → Type 0
Stops e m w = m w ≡ (err e, w)

pub >>=-Stops :
    {A B : Type 0} (e : Error) (m : Action A) (f : A → Action B) (w : World)
    → Stops e m w
    → Stops e (m >>= f) w
unfolding ◌>>=◌
>>=-Stops e m f w h = rw h refl
