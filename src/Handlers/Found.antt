-- ===== src/Handlers/Found.antt =====
-- What the lookups of a handler find, and that they send nothing.
use dappctrl.Base.{◌≡◌, refl, sym, ◌∙◌, Option, none, some, arith, subst, ℕ, List}
use dappctrl.Data.{
  Uuid, HexString, Account, Channel, Job, JobType, RelatedType, WorkerError, TxMethod, Payload,
}
use dappctrl.Store.{Db, World, plain, Action, ◌>>◌, pure, raise}
use dappctrl.Store.Frames.{Keeps, >>=-Keeps, frames}
use dappctrl.Store.Ensures.{
  Ensures, Same, >>=-Ensures, weaken, query-Ensures, or_raise-Ensures, require-Ensures,
  on_error-Ensures,
}
use dappctrl.Handlers.Env.{Worker, refuse, Transaction}
use dappctrl.Handlers.Select.{
  find_or, check_job, related_channel, related_offering, related_account, select_offering,
  select_account, account_by_pk, channel_by, offering_by, account_by, account_of, log_of,
}
use dappctrl.Handlers.Events.{three_topics}
use dappctrl.Handlers.Misc.{key_of, publish_data, balance_data, save_record, save_eth_tx}
use dappctrl.Handlers.Client.{gas_price_or_suggested}
use dappctrl.Handlers.Sends.{IsQuiet, >>=-IsQuiet, quiet}

pub refuse-Ensures :
    {A : Type 0} (o : Option A) (e : WorkerError) (w : World)
    → Ensures (refuse o e) w (λ a w'. (o ≡ some a) × Same w w')
refuse-Ensures none e w = record { holds = λ a h. cc }
refuse-Ensures (some b) e w = record { holds = λ a h. ground arith }

pub find_or-Ensures :
    {A : Type 0} (e : WorkerError) (f : Db → Option A) (w : World)
    → Ensures (find_or e f) w (λ a w'. (f w.db ≡ some a) × Same w w')
unfolding find_or
find_or-Ensures e f w =
    >>=-Ensures (λ o w1. (o ≡ f w.db) × Same w w1) _ _ w
      (on_error-Ensures _ _ w (query-Ensures plain _ w))
      λ o w1 q.
        weaken (or_raise-Ensures o _ w1)
          λ a w2 r. (sym q.0 ∙ r.0, record { db = r.1.db ∙ q.1.db; tx = r.1.tx ∙ q.1.tx })

pub find_or-IsQuiet : {A : Type 0} (e : WorkerError) (f : Db → Option A) → IsQuiet (find_or e f)
unfolding find_or
find_or-IsQuiet e f = >>=-IsQuiet _ _ (search quiet) λ _. search quiet

-- A row that a job is for: the job has the type and is for a row of its kind, which is found.
module _ {A : Type 0} (j : Job) (ty : JobType) (rel : RelatedType) (e : WorkerError)
    (f : Db → Option A) where
  checked-Ensures :
      (w : World)
      → Ensures (do check_job j ty rel; find_or e f) w (λ a w'. (f w.db ≡ some a) × Same w w')
  unfolding check_job
  checked-Ensures w =
      >>=-Ensures (λ _ w1. Same w w1) _ _ w (weaken (require-Ensures _ _ w) λ _ _ q. q.1)
        λ _ w1 q. weaken (find_or-Ensures e f w1) λ a w2 r.
          (subst (λ d. f d ≡ some a) q.db r.0, record { db = r.1.db ∙ q.db; tx = r.1.tx ∙ q.tx })

  checked-IsQuiet : IsQuiet (do check_job j ty rel; find_or e f)
  unfolding check_job
  checked-IsQuiet = >>=-IsQuiet _ _ (search quiet) λ _. find_or-IsQuiet e f

module _ (j : Job) (ty : JobType) where
  pub related_channel-Ensures :
      (w : World)
      → Ensures
          (related_channel j ty)
          w
          (λ ch w'. (channel_by j.related_id w.db ≡ some ch) × Same w w')
  unfolding related_channel
  related_channel-Ensures = checked-Ensures j ty _ _ _

  pub related_channel-IsQuiet : IsQuiet (related_channel j ty)
  unfolding related_channel
  related_channel-IsQuiet = checked-IsQuiet j ty _ _ _

  pub related_offering-Ensures :
      (w : World)
      → Ensures
          (related_offering j ty)
          w
          (λ o w'. (offering_by j.related_id w.db ≡ some o) × Same w w')
  unfolding related_offering
  related_offering-Ensures = checked-Ensures j ty _ _ _

  pub related_offering-IsQuiet : IsQuiet (related_offering j ty)
  unfolding related_offering
  related_offering-IsQuiet = checked-IsQuiet j ty _ _ _

  pub related_account-Ensures :
      (w : World)
      → Ensures
          (related_account j ty)
          w
          (λ acc w'. (account_by j.related_id w.db ≡ some acc) × Same w w')
  unfolding related_account
  related_account-Ensures = checked-Ensures j ty _ _ _

  pub related_account-IsQuiet : IsQuiet (related_account j ty)
  unfolding related_account
  related_account-IsQuiet = checked-IsQuiet j ty _ _ _

pub select_offering-Ensures :
    (id : Uuid) (w : World)
    → Ensures (select_offering id) w (λ o w'. (offering_by id w.db ≡ some o) × Same w w')
unfolding select_offering
select_offering-Ensures id w = find_or-Ensures _ _ w

pub select_offering-IsQuiet : (id : Uuid) → IsQuiet (select_offering id)
unfolding select_offering
select_offering-IsQuiet id = find_or-IsQuiet _ _

pub select_account-Ensures :
    (addr : HexString) (w : World)
    → Ensures (select_account addr) w (λ a w'. (account_of addr w.db ≡ some a) × Same w w')
unfolding select_account
select_account-Ensures addr w = find_or-Ensures _ _ w

pub select_account-IsQuiet : (addr : HexString) → IsQuiet (select_account addr)
unfolding select_account
select_account-IsQuiet addr = find_or-IsQuiet _ _

pub account_by_pk-Ensures :
    (id : Uuid) (w : World)
    → Ensures (account_by_pk id) w (λ a w'. (account_by id w.db ≡ some a) × Same w w')
unfolding account_by_pk
account_by_pk-Ensures id w = find_or-Ensures _ _ w

pub account_by_pk-IsQuiet : (id : Uuid) → IsQuiet (account_by_pk id)
unfolding account_by_pk
account_by_pk-IsQuiet id = find_or-IsQuiet _ _

pub key_of-IsQuiet : (h : Worker) (acc : Account) → IsQuiet (key_of h acc)
unfolding key_of
key_of-IsQuiet h acc = search quiet

pub publish_data-Ensures : (j : Job) (w : World) → Ensures (publish_data j) w (λ _ w'. Same w w')
unfolding publish_data
publish_data-Ensures j w = weaken (refuse-Ensures _ _ w) λ _ _ q. q.1

pub publish_data-IsQuiet : (j : Job) → IsQuiet (publish_data j)
unfolding publish_data
publish_data-IsQuiet j = search quiet

pub balance_data-IsQuiet : (j : Job) → IsQuiet (balance_data j)
unfolding balance_data
balance_data-IsQuiet j = >>=-IsQuiet _ _ (search quiet) λ _. search quiet

pub save_record-IsQuiet : (ch : Channel) → IsQuiet (save_record ch)
unfolding save_record
save_record-IsQuiet ch = search quiet

pub save_eth_tx-IsQuiet :
    (h : Worker) (j : Job) (tx : Transaction) (method : TxMethod) (rel : RelatedType) (id : Uuid)
    (from to : HexString)
    → IsQuiet (save_eth_tx h j tx method rel id from to)
unfolding save_eth_tx
save_eth_tx-IsQuiet h j tx method rel id from to = >>=-IsQuiet _ _ (search quiet) λ _. search quiet

pub gas_price_or_suggested-IsQuiet : (h : Worker) (gas : ℕ) → IsQuiet (gas_price_or_suggested h gas)
unfolding gas_price_or_suggested
gas_price_or_suggested-IsQuiet h gas = search quiet

-- Of an action of which nothing else is known.
pub any-Ensures : {A : Type 0} (m : Action A) (w : World) → Ensures m w (λ _ _. Unit {0})
any-Ensures m w = record { holds = λ _ _. tt }

pub refuse-Keeps : {A : Type 0} (o : Option A) (e : WorkerError) → Keeps (refuse o e)
refuse-Keeps none e = record { keeps = λ w. refl }
refuse-Keeps (some a) e = record { keeps = λ w. refl }

pub related_offering-Keeps : (j : Job) (ty : JobType) → Keeps (related_offering j ty)
unfolding related_offering check_job find_or
related_offering-Keeps j ty =
    >>=-Keeps _ _ (search frames) λ _. >>=-Keeps _ _ (search frames) λ _. search frames

pub three_topics-Keeps : (l : List ℕ) → Keeps (three_topics l)
unfolding three_topics pure raise
three_topics-Keeps l = record { keeps = λ w. ground arith }

pub log_of-Keeps : (p : Payload) → Keeps (log_of p)
unfolding pure raise
log_of-Keeps p = record { keeps = λ w. ground arith }
