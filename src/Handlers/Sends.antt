-- ===== src/Handlers/Sends.antt =====
-- Which handlers send a transaction, and what must hold of one that is sent.
use dappctrl.Base.{
  ◌≡◌, refl, ◌∙◌, ◌⊎◌, inl, inr, Bool, true, false, Option, none, some, List, ◌∷◌, arith,
  if◌then◌else◌,
}
use dappctrl.Data.{Sending, Error, WorkerError}
use dappctrl.Store.{
  Db, World, Querier, in_tx, plain, Result, ok, err, Action, ◌>>=◌, after, pure, raise, require,
  when, or_raise, on_error, attempt, query, exec,
}
use dappctrl.Store.Ensures.{Ensures}
use dappctrl.Handlers.Env.{Worker, Transaction, refuse, transact, sent_or}

-- Nothing is sent.
pub record IsQuiet {A : Type 0} (m : Action A) : Type 0 where
  pub quiet : (w : World) → (m w).1.sent ≡ w.sent

-- Nothing is sent, or one transaction, of which `P` holds.
abbrev pub SentBy : World → World → (Sending → Type 0) → Type 0
SentBy w w' P = (w'.sent ≡ w.sent) ⊎ ((s : Sending) × (w'.sent ≡ s ∷ w.sent) × P s)

pub record Sends {A : Type 0} (m : Action A) (w : World) (P : Sending → Type 0) : Type 0 where
  pub sends : SentBy w (m w).1 P

module _ {A B : Type 0} where
  after-IsQuiet :
      (l : List Sending) (r : Result A × World) (f : A → Action B)
      → r.1.sent ≡ l
      → ((a : A) → IsQuiet (f a))
      → (after r f).1.sent ≡ l
  after-IsQuiet l (ok a, w) f h k = (k a).quiet w ∙ h
  after-IsQuiet l (err e, w) f h k = h

  pub >>=-IsQuiet :
      (m : Action A) (f : A → Action B) → IsQuiet m → ((a : A) → IsQuiet (f a)) → IsQuiet (m >>= f)
  unfolding ◌>>=◌
  >>=-IsQuiet m f h k = record { quiet = λ w. after-IsQuiet w.sent (m w) f (h.quiet w) k }

module _ {A : Type 0} where
  pub pure-IsQuiet : (a : A) → IsQuiet (pure a)
  unfolding pure
  pure-IsQuiet a = record { quiet = λ w. refl }

  pub raise-IsQuiet : (e : Error) → IsQuiet (raise {A = A} e)
  unfolding raise
  raise-IsQuiet e = record { quiet = λ w. refl }

  pub or_raise-IsQuiet : (o : Option A) (e : Error) → IsQuiet (or_raise o e)
  unfolding or_raise
  or_raise-IsQuiet none e = record { quiet = λ w. refl }
  or_raise-IsQuiet (some a) e = record { quiet = λ w. refl }

  pub refuse-IsQuiet : (o : Option A) (e : WorkerError) → IsQuiet (refuse o e)
  refuse-IsQuiet none e = record { quiet = λ w. refl }
  refuse-IsQuiet (some a) e = record { quiet = λ w. refl }

  pub on_error-IsQuiet : (e : Error) (m : Action A) → IsQuiet m → IsQuiet (on_error e m)
  unfolding on_error
  on_error-IsQuiet e m h = record { quiet = λ w. ground (arith, h.quiet w) }

  pub attempt-IsQuiet : (m : Action A) → IsQuiet m → IsQuiet (attempt m)
  unfolding attempt
  attempt-IsQuiet m h = record { quiet = h.quiet }

  pub query-IsQuiet : (q : Querier) (f : Db → A) → IsQuiet (query q f)
  unfolding query
  query-IsQuiet q f = record { quiet = λ w. ground arith }

pub if-IsQuiet :
    {A : Type 0} (b : Bool) (m n : Action A) → IsQuiet m → IsQuiet n → IsQuiet (if b then m else n)
if-IsQuiet true m n h k = h
if-IsQuiet false m n h k = k

pub require-IsQuiet : (b : Bool) (e : Error) → IsQuiet (require b e)
unfolding require
require-IsQuiet b e = record { quiet = λ w. refl }

pub when-IsQuiet : (b : Bool) (m : Action (Unit {0})) → IsQuiet m → IsQuiet (when b m)
unfolding when
when-IsQuiet b m h = record { quiet = λ w. ground (arith, h.quiet w) }

pub exec-IsQuiet : (q : Querier) (f : Db → Db) → IsQuiet (exec q f)
unfolding exec
exec-IsQuiet plain f = record { quiet = λ w. ground arith }
exec-IsQuiet in_tx f = record { quiet = λ w. ground arith }

pub ruleset quiet = (
  >>=-IsQuiet, pure-IsQuiet, raise-IsQuiet, or_raise-IsQuiet, refuse-IsQuiet, on_error-IsQuiet,
  attempt-IsQuiet, query-IsQuiet, require-IsQuiet, when-IsQuiet, exec-IsQuiet, if-IsQuiet,
)

module _ {A : Type 0} {P : Sending → Type 0} where
  pub IsQuiet-Sends : (m : Action A) (w : World) → IsQuiet m → Sends m w P
  IsQuiet-Sends m w h = record { sends = inl (h.quiet w) }

  -- What is known of the value and of the world before the call that sends.
  pub >>=-Sends :
      {B : Type 0} (Q : B → World → Type 0) (m : Action B) (f : B → Action A) (w : World)
      → IsQuiet m
      → Ensures m w Q
      → ((b : B) (w' : World) → Q b w' → Sends (f b) w' P)
      → Sends (m >>= f) w P
  unfolding ◌>>=◌
  >>=-Sends {B} Q m f w q h k = record {
    sends = go (m w) (q.quiet w) (λ b e. (k b (m w).1 (h.holds b e)).sends);
  }
    where
      go :
          (r : Result B × World)
          → r.1.sent ≡ w.sent
          → ((b : B) → r.0 ≡ ok b → SentBy r.1 (f b r.1).1 P)
          → SentBy w (after r f).1 P
      go (ok b, w') e g = elim (g b refl) [
        | inl x ↦ inl (x ∙ e)
        | inr (s, x, p) ↦ inr (s, x ∙ (λ i. s ∷ e i), p)
      ]
      go (err x, w') e g = inl e

  -- The call that sends, and what follows it.
  pub transact-Sends :
      (h : Worker) (e : WorkerError) (s : Sending) (f : Transaction → Action A) (w : World)
      → P s
      → ((tx : Transaction) → IsQuiet (f tx))
      → Sends (transact h e s >>= f) w P
  unfolding ◌>>=◌ transact
  transact-Sends h e s f w p q = record { sends = go (h.backend.transact s) }
    where
      go : (o : Option Transaction) → SentBy w (after (sent_or o e s w) f).1 P
      go none = inl refl
      go (some tx) = inr (s, (q tx).quiet _, p)

pub when-Sends :
    {P : Sending → Type 0} (b : Bool) (m : Action (Unit {0})) (w : World)
    → (b ≡ true → Sends m w P)
    → Sends (when b m) w P
unfolding when
when-Sends true m w h = record { sends = (h refl).sends }
when-Sends false m w h = record { sends = inl refl }

pub if-Sends :
    {A : Type 0} {P : Sending → Type 0} (b : Bool) (m n : Action A) (w : World)
    → Sends m w P
    → Sends n w P
    → Sends (if b then m else n) w P
if-Sends true m n w h k = h
if-Sends false m n w h k = k

pub pure_after-Sends :
    {A B : Type 0} {P : Sending → Type 0} (m : Action A) (b : B) (w : World)
    → Sends m w P
    → Sends (m >>= λ _. pure b) w P
unfolding ◌>>=◌ pure
pure_after-Sends {A} {B} {P} m b w h = record { sends = go (m w) h.sends }
  where
    go : (r : Result A × World) → SentBy w r.1 P → SentBy w (after r (λ _. pure b)).1 P
    go (ok a, w') x = x
    go (err e, w') x = x
