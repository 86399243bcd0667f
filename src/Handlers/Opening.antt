-- ===== src/Handlers/Opening.antt =====
-- When the client opens a channel or tops one up.
use dappctrl.Base.{
  ℕ, ◌≤◌, ◌≡◌, ◌≢◌, refl, ◌∙◌, true, not, ◌||◌, ◌==◌, Option, some, none, arith, leb→le, subst,
}
use dappctrl.Data.{
  Uuid, User, Account, Offering, Address, Hash, Sending, create_channel, Job, compute_price,
  payload_deposit,
}
use dappctrl.Store.{Db, World, Result, ok, err}
use dappctrl.Store.Ensures.{Ensures, Same, >>=-Ensures, weaken, require-Ensures}
use dappctrl.Handlers.Select.{account_by, offering_by}
use dappctrl.Handlers.Env.{Worker, OfferingInfo}
use dappctrl.Handlers.Misc.{key_of}
use dappctrl.Handlers.Client.{
  check_deposit, check_supply, create_and_save, remember_agent, add_user_unless, open_channel,
  wanted_deposit, client_pre_channel_create_job, create_data,
}
use dappctrl.Handlers.Sends.{IsQuiet, Sends, SentBy, >>=-IsQuiet, >>=-Sends, transact-Sends, quiet}
use dappctrl.Handlers.Found.{
  refuse-Ensures, account_by_pk-Ensures, account_by_pk-IsQuiet, select_offering-Ensures,
  select_offering-IsQuiet, save_eth_tx-IsQuiet, gas_price_or_suggested-IsQuiet, any-Ensures,
}

-- The account's balance in the contract covers a deposit.
pub record IsCovered (h : Worker) (acc : Account) (deposit : ℕ) : Type 0 where
  pub addr : Address
  pub amount : ℕ
  pub addr_read : h.to_address acc.eth_addr ≡ some addr
  pub funds : h.backend.psc_balance_of addr ≡ some amount
  pub covered : deposit ≤ amount

check_deposit-Ensures :
    (h : Worker) (acc : Account) (deposit : ℕ) (w : World)
    → Ensures (check_deposit h acc deposit) w (λ _ w'. IsCovered h acc deposit × Same w w')
unfolding check_deposit
check_deposit-Ensures h acc deposit w = >>=-Ensures _ _ _ w (refuse-Ensures _ _ w) λ addr w1 q1.
    >>=-Ensures _ _ _ w1 (refuse-Ensures _ _ w1) λ amount w2 q2.
      weaken (require-Ensures _ _ w2) λ _ w3 q3. (
        record {
          addr = addr;
          amount = amount;
          addr_read = q1.0;
          funds = q2.0;
          covered = leb→le _ _ q3.0;
        },
        record { db = q3.1.db ∙ q2.1.db ∙ q1.1.db; tx = q3.1.tx ∙ q2.1.tx ∙ q1.1.tx },
      )

check_deposit-IsQuiet :
    (h : Worker) (acc : Account) (deposit : ℕ) → IsQuiet (check_deposit h acc deposit)
unfolding check_deposit
check_deposit-IsQuiet h acc deposit =
    >>=-IsQuiet _ _ (search quiet) λ _. >>=-IsQuiet _ _ (search quiet) λ _. search quiet

-- Both the contract and the table have a channel of the offering left.
pub record HasSupply (h : Worker) (offer : Offering) (hash : Hash) : Type 0 where
  pub info : OfferingInfo
  pub known : h.backend.psc_get_offering_info hash ≡ some info
  pub on_chain : info.current_supply ≢ 0
  pub in_table : offer.current_supply ≢ 0

check_supply-Ensures :
    (h : Worker) (offer : Offering) (hash : Hash) (w : World)
    → Ensures (check_supply h offer hash) w (λ _ _. HasSupply h offer hash)
unfolding check_supply
check_supply-Ensures h offer hash w = >>=-Ensures _ _ _ w (refuse-Ensures _ _ w) λ info w1 q1.
    weaken (require-Ensures _ _ w1) λ _ w2 q2. record {
      info = info;
      known = q1.0;
      on_chain = λ z. left info.current_supply offer.current_supply q2.0 z;
      in_table = λ z. right info.current_supply offer.current_supply q2.0 z;
    }
  where
    left : (a b : ℕ) → not (a == 0 || b == 0) ≡ true → a ≢ 0
    left a b e = ground arith

    right : (a b : ℕ) → not (a == 0 || b == 0) ≡ true → b ≢ 0
    right a b e = ground arith

check_supply-IsQuiet :
    (h : Worker) (offer : Offering) (hash : Hash) → IsQuiet (check_supply h offer hash)
unfolding check_supply
check_supply-IsQuiet h offer hash = >>=-IsQuiet _ _ (search quiet) λ _. search quiet

add_user-IsQuiet : (u : User) (r : Result (Option User)) → IsQuiet (add_user_unless u r)
add_user-IsQuiet u (ok none) = search quiet
add_user-IsQuiet u (ok (some _)) = search quiet
add_user-IsQuiet u (err _) = search quiet

remember_agent-IsQuiet : (h : Worker) (offer : Offering) → IsQuiet (remember_agent h offer)
unfolding remember_agent
remember_agent-IsQuiet h offer =
    >>=-IsQuiet _ _ (search quiet) λ _. >>=-IsQuiet _ _ (search quiet) λ r. add_user-IsQuiet _ r

-- A request to open a channel of an offering: with a deposit that is enough for the offering's
-- minimum and that the account covers, and while the offering has channels left.
pub record IsOpening (h : Worker) (j : Job) (d : Db) (s : Sending) : Type 0 where
  pub acc : Account
  pub offer : Offering
  pub agent : Address
  pub hash : Hash
  pub key : ℕ
  pub deposit : ℕ
  pub account_key : Uuid
  pub offering_key : Uuid
  pub asked : create_data j.payload ≡ some (account_key, offering_key)
  pub account_found : account_by account_key d ≡ some acc
  pub offering_found : offering_by offering_key d ≡ some offer
  pub chosen : deposit ≡ wanted_deposit offer (payload_deposit j.payload)
  pub enough : compute_price offer offer.min_units ≤ deposit
  pub covered : IsCovered h acc deposit
  pub supply : HasSupply h offer hash
  pub hash_read : h.to_hash offer.hash ≡ some hash
  pub agent_read : h.to_address offer.agent ≡ some agent
  pub signed : h.get_key acc ≡ some key
  pub from : s.from ≡ h.key_address key
  pub call : s.call ≡ create_channel agent hash deposit

open-Sends :
    (h : Worker) (j : Job) (acc : Account) (offer : Offering) (deposit gas : ℕ) (d : Db) (w : World)
    (account_key offering_key : Uuid)
    → create_data j.payload ≡ some (account_key, offering_key)
    → account_by account_key d ≡ some acc
    → offering_by offering_key d ≡ some offer
    → deposit ≡ wanted_deposit offer (payload_deposit j.payload)
    → Sends (open_channel h j acc offer deposit gas) w (IsOpening h j d)
unfolding open_channel create_and_save key_of
open-Sends h j acc offer deposit gas d w account_key offering_key a fa fo c =
    >>=-Sends _ _ _ w (check_deposit-IsQuiet h acc deposit) (check_deposit-Ensures h acc deposit w)
      λ _ w1 q1. >>=-Sends _ _ _ w1 (search quiet) (require-Ensures _ _ w1) λ _ w2 q2.
        >>=-Sends _ _ _ w2 (search quiet) (refuse-Ensures _ _ w2) λ hash w3 q3.
          >>=-Sends _ _ _ w3 (check_supply-IsQuiet h offer hash)
            (check_supply-Ensures h offer hash w3)
            λ _ w4 q4.
              >>=-Sends _ _ _ w4 (remember_agent-IsQuiet h offer) (any-Ensures _ w4) λ _ w5 q5.
                >>=-Sends _ _ _ w5 (gas_price_or_suggested-IsQuiet h gas) (any-Ensures _ w5)
                  λ price w6 q6.
                    >>=-Sends _ _ _ w6 (search quiet) (refuse-Ensures _ _ w6) λ agent w7 q7.
                      >>=-Sends _ _ _ w7 (search quiet) (refuse-Ensures _ _ w7) λ key w8 q8.
                        transact-Sends _ _ _ _ w8
                          (record {
                            acc = acc;
                            offer = offer;
                            agent = agent;
                            hash = hash;
                            key = key;
                            deposit = deposit;
                            account_key = account_key;
                            offering_key = offering_key;
                            asked = a;
                            account_found = fa;
                            offering_found = fo;
                            chosen = c;
                            enough = leb→le _ _ q2.0;
                            covered = q1.0;
                            supply = q4;
                            hash_read = q3.0;
                            agent_read = q7.0;
                            signed = q8.0;
                            from = refl;
                            call = refl;
                          })
                          λ tx.
                            >>=-IsQuiet _ _ (save_eth_tx-IsQuiet h j tx _ _ _ _ _) λ _. search quiet

create-Sends :
    (h : Worker) (j : Job) (w : World)
    → Sends (client_pre_channel_create_job h j) w (IsOpening h j w.db)
unfolding client_pre_channel_create_job
create-Sends h j w = >>=-Sends _ _ _ w (search quiet) (refuse-Ensures _ _ w) λ gas w1 q1.
    >>=-Sends _ _ _ w1 (search quiet) (refuse-Ensures _ _ w1) λ ids w2 q2.
      >>=-Sends _ _ _ w2 (account_by_pk-IsQuiet _) (account_by_pk-Ensures _ w2) λ acc w3 q3.
        >>=-Sends _ _ _ w3 (select_offering-IsQuiet _) (select_offering-Ensures _ w3) λ offer w4 q4.
          let t2 : w2.db ≡ w.db = q2.1.db ∙ q1.1.db in
          let t3 : w3.db ≡ w.db = q3.1.db ∙ t2 in
          open-Sends h j acc offer _ gas w.db w4 ids.0 ids.1 q2.0
            (subst (λ d. account_by ids.0 d ≡ some acc) t2 q3.0)
            (subst (λ d. offering_by ids.1 d ≡ some offer) t3 q4.0) refl

-- A job to open a channel sends at most one transaction: to the agent of the offering that the job
-- names, signed by the account that it names, with a deposit that is enough for the offering's
-- minimum, that the account's balance in the contract covers, and that is the job's own unless that
-- is zero; and only while both the contract and the table have a channel of the offering left.
pub client_pre_channel_create_job-opens :
    (h : Worker) (j : Job) (w : World)
    → SentBy w (client_pre_channel_create_job h j w).1 (IsOpening h j w.db)
client_pre_channel_create_job-opens h j w = (create-Sends h j w).sends
