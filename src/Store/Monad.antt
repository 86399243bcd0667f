-- ===== src/Store/Monad.antt =====
-- Database calls. Each call is numbered, and `fails` says which calls the driver refuses; what a
-- program proves for every `fails` it proves for every pattern of database failures.
use dappctrl.Base.{ℕ, ◌+◌, Bool, false, Option, none, some, List, [], if◌then◌else◌}
use dappctrl.Data.{
  Rating, Closing, EthTx, Template, Setting, Sending, Account, User, Product, Offering, Channel,
  Session, Endpoint, Job, Error,
}
use dappctrl.Data.Error.{db_error}

pub record Db : Type 0 where
  pub accounts : List Account
  pub users : List User
  pub products : List Product
  pub offerings : List Offering
  pub channels : List Channel
  pub sessions : List Session
  pub endpoints : List Endpoint
  pub jobs : List Job
  pub eth_txs : List EthTx
  pub templates : List Template
  pub settings : List Setting
  pub closings : List Closing
  pub ratings : List Rating

-- `db` is what is committed, `tx` what the open transaction sees and writes; `sent` are the
-- transactions that the Ethereum node has accepted from the controller, the last one first.
pub record World : Type 0 where
  pub db : Db
  pub tx : Db
  pub fails : ℕ → Bool
  pub calls : ℕ
  pub sent : List Sending

-- `reform.DB.Querier` or `reform.TX.Querier`.
pub data Querier : Type 0 where
  plain in_tx : Querier

pub data Result {ℓ} (A : Type ℓ) : Type ℓ where
  ok : A → Result A
  err : Error → Result A

abbrev pub Action : Type 0 → Type 0
Action A = World → Result A × World

unfoldable pub pure : {A : Type 0} → A → Action A
pure a w = (ok a, w)

unfoldable pub raise : {A : Type 0} → Error → Action A
raise e w = (err e, w)

-- What follows a call: nothing, if it failed.
abbrev pub after : {A B : Type 0} → Result A × World → (A → Action B) → Result B × World
after (ok a, w) f = f a w
after (err e, w) f = (err e, w)

infixl 5 ◌>>=◌ ◌>>◌
unfoldable pub ◌>>=◌ : {A B : Type 0} → Action A → (A → Action B) → Action B
◌>>=◌ m f w = after (m w) f

abbrev pub ◌>>◌ : {A B : Type 0} → Action A → Action B → Action B
m >> k = m >>= λ _. k

-- `if !b { return e }`
unfoldable pub require : Bool → Error → Action (Unit {0})
require b e w = (if b then ok tt else err e, w)

unfoldable pub when : Bool → Action (Unit {0}) → Action (Unit {0})
when b m w = if b then m w else (ok tt, w)

unfoldable pub or_raise : {A : Type 0} → Option A → Error → Action A
or_raise none e w = (err e, w)
or_raise (some a) e w = (ok a, w)

abbrev pub replace_error : {A : Type 0} → Error → Result A × World → Result A × World
replace_error e (ok a, w) = (ok a, w)
replace_error e (err _, w) = (err e, w)

-- The error of a call replaced by another, as in `if err != nil { return ErrInternal }`.
unfoldable pub on_error : {A : Type 0} → Error → Action A → Action A
on_error e m w = replace_error e (m w)

-- The outcome of an action as a value, for a caller that looks at the error.
unfoldable pub attempt : {A : Type 0} → Action A → Action (Result A)
attempt m w = let (r, w') = m w in (ok r, w')

abbrev pub tick : World → World
tick w = record w { calls = w.calls + 1 }

abbrev pub visible : Querier → World → Db
visible plain w = w.db
visible in_tx w = w.tx

abbrev pub write : Querier → Db → World → World
write plain d w = record w { db = d }
write in_tx d w = record w { tx = d }

-- A query: a failing call, or a value of the tables.
unfoldable pub query : {A : Type 0} → Querier → (Db → A) → Action A
query q f w = if w.fails w.calls then (err db_error, tick w) else (ok (f (visible q w)), tick w)

-- A statement that writes: a failing call writes nothing.
unfoldable pub exec : Querier → (Db → Db) → Action (Unit {0})
exec q f w =
    if w.fails w.calls then (err db_error, tick w) else (ok tt, write q (f (visible q w)) (tick w))

-- A statement that also tells the number of rows that it changed.
unfoldable pub exec_count : Querier → (Db → Db) → (Db → ℕ) → Action ℕ
exec_count q f n w =
    if w.fails w.calls
    then (err db_error, tick w)
    else (ok (n (visible q w)), write q (f (visible q w)) (tick w))

unfoldable pub begin : Action (Unit {0})
begin w =
    if w.fails w.calls
    then (err db_error, tick w)
    else (ok tt, record w { tx = w.db; calls = w.calls + 1 })

unfoldable pub commit : Action (Unit {0})
commit w =
    if w.fails w.calls
    then (err db_error, tick w)
    else (ok tt, record w { db = w.tx; calls = w.calls + 1 })

-- A database that answers every call.
abbrev pub answering : Db → World
answering d = record { db = d; tx = d; fails = λ _. false; calls = 0; sent = [] }

-- Named on an `unfolding` line, it opens the calls and the ways to chain them.
unfoldable pub monad : Unit {0}
unfolding ◌>>=◌ pure raise require when or_raise on_error attempt query exec exec_count begin commit
monad = tt
