-- ===== src/Handlers/Closing.antt =====
-- When the client asks for an uncooperative close, and when it settles one.
use dappctrl.Base.{ℕ, ◌≤◌, ◌≡◌, refl, ◌∙◌, true, false, ◌||◌, some, subst, leb→le}
use dappctrl.Data.{
  Account, Offering, Channel, ChannelStatus, closed_coop, channel_status_eq, ServiceStatus,
  terminated, service_status_eq, Address, Hash, Sending, uncooperative_close, settle, Job,
}
use dappctrl.Store.{Db, World}
use dappctrl.Store.Ensures.{Ensures, Same, >>=-Ensures, weaken, require-Ensures}
use dappctrl.Handlers.Env.{Worker}
use dappctrl.Handlers.Select.{channel_by, offering_by, account_of}
use dappctrl.Handlers.Misc.{key_of}
use dappctrl.Handlers.Client.{
  validate_channel_for_close, request_close_and_save, client_pre_uncooperative_close_request_job,
}
use dappctrl.Handlers.Sends.{IsQuiet, Sends, SentBy, >>=-IsQuiet, >>=-Sends, transact-Sends, quiet}
use dappctrl.Handlers.Found.{
  refuse-Ensures, related_channel-Ensures, related_channel-IsQuiet, select_offering-Ensures,
  select_offering-IsQuiet, select_account-Ensures, select_account-IsQuiet, publish_data-IsQuiet,
  save_record-IsQuiet, publish_data-Ensures, gas_price_or_suggested-IsQuiet, any-Ensures,
  save_eth_tx-IsQuiet,
}

-- A channel that may be closed: active or still waiting to be opened, its service over or never begun,
-- and its receipt covered by the deposit.
pub record IsClosable (ch : Channel) : Type 0 where
  pub opened :
      (channel_status_eq ch.channel_status ChannelStatus.active
        || channel_status_eq ch.channel_status ChannelStatus.pending)
      ≡ true
  pub over :
      (service_status_eq ch.service_status terminated
        || service_status_eq ch.service_status ServiceStatus.pending)
      ≡ true
  pub covered : ch.receipt_balance ≤ ch.total_deposit

validate-Ensures :
    (ch : Channel) (w : World)
    → Ensures (validate_channel_for_close ch) w (λ _ w'. IsClosable ch × Same w w')
unfolding validate_channel_for_close
validate-Ensures ch w = >>=-Ensures _ _ _ w (require-Ensures _ _ w) λ _ w1 q1.
    >>=-Ensures _ _ _ w1 (require-Ensures _ _ w1) λ _ w2 q2.
      weaken (require-Ensures _ _ w2) λ _ w3 q3. (
        record { opened = q1.0; over = q2.0; covered = leb→le _ _ q3.0 },
        record { db = q3.1.db ∙ q2.1.db ∙ q1.1.db; tx = q3.1.tx ∙ q2.1.tx ∙ q1.1.tx },
      )

validate-IsQuiet : (ch : Channel) → IsQuiet (validate_channel_for_close ch)
unfolding validate_channel_for_close
validate-IsQuiet ch =
    >>=-IsQuiet _ _ (search quiet) λ _. >>=-IsQuiet _ _ (search quiet) λ _. search quiet

-- A request that closes the job's channel with what its receipt says, signed by the client.
pub record IsCloseRequest (h : Worker) (j : Job) (d : Db) (s : Sending) : Type 0 where
  pub ch : Channel
  pub offer : Offering
  pub acc : Account
  pub key : ℕ
  pub agent : Address
  pub hash : Hash
  pub found : channel_by j.related_id d ≡ some ch
  pub offered : offering_by ch.offering d ≡ some offer
  pub owner : account_of ch.client d ≡ some acc
  pub closable : IsClosable ch
  pub signed : h.get_key acc ≡ some key
  pub from : s.from ≡ h.key_address key
  pub agent_read : h.to_address ch.agent ≡ some agent
  pub hash_read : h.to_hash offer.hash ≡ some hash
  pub call : s.call ≡ uncooperative_close agent ch.block hash ch.receipt_balance

request_close-Sends :
    (h : Worker) (j : Job) (ch : Channel) (acc : Account) (offer : Offering) (gas : ℕ) (d : Db)
    (w : World)
    → channel_by j.related_id d ≡ some ch
    → offering_by ch.offering d ≡ some offer
    → account_of ch.client d ≡ some acc
    → IsClosable ch
    → Sends (request_close_and_save h j ch acc offer gas) w (IsCloseRequest h j d)
unfolding request_close_and_save key_of
request_close-Sends h j ch acc offer gas d w f o a c =
    >>=-Sends _ _ _ w (search quiet) (refuse-Ensures _ _ w) λ agent w1 q1.
      >>=-Sends _ _ _ w1 (search quiet) (refuse-Ensures _ _ w1) λ key w2 q2.
        >>=-Sends _ _ _ w2 (gas_price_or_suggested-IsQuiet h gas) (any-Ensures _ w2) λ price w3 q3.
          >>=-Sends _ _ _ w3 (search quiet) (refuse-Ensures _ _ w3) λ hash w4 q4.
            transact-Sends _ _ _ _ w4
              (record {
                ch = ch;
                offer = offer;
                acc = acc;
                key = key;
                agent = agent;
                hash = hash;
                found = f;
                offered = o;
                owner = a;
                closable = c;
                signed = q2.0;
                from = refl;
                agent_read = q1.0;
                hash_read = q4.0;
                call = refl;
              })
              λ tx.
                >>=-IsQuiet _ _ (save_eth_tx-IsQuiet h j tx _ _ _ _ _) λ _. save_record-IsQuiet _

request-Sends :
    (h : Worker) (j : Job) (w : World)
    → Sends (client_pre_uncooperative_close_request_job h j) w (IsCloseRequest h j w.db)
unfolding client_pre_uncooperative_close_request_job
request-Sends h j w =
    >>=-Sends _ _ _ w (related_channel-IsQuiet j _) (related_channel-Ensures j _ w) λ ch w1 q1.
      >>=-Sends (λ _ w2. Same w1 w2) _ _ w1 (publish_data-IsQuiet j) (publish_data-Ensures j w1)
        λ gas w2 q2.
          >>=-Sends _ _ _ w2 (select_offering-IsQuiet _) (select_offering-Ensures _ w2)
            λ offer w3 q3.
              >>=-Sends _ _ _ w3 (select_account-IsQuiet _) (select_account-Ensures _ w3)
                λ acc w4 q4.
                  let t2 : w2.db ≡ w.db = q2.db ∙ q1.1.db in
                  let t3 : w3.db ≡ w.db = q3.1.db ∙ t2 in
                  >>=-Sends _ _ _ w4 (validate-IsQuiet ch) (validate-Ensures ch w4) λ _ w5 q5.
                    request_close-Sends h j ch acc offer gas w.db w5 q1.0
                      (subst (λ d. offering_by ch.offering d ≡ some offer) t2 q3.0)
                      (subst (λ d. account_of ch.client d ≡ some acc) t3 q4.0) q5.0

-- The client asks for the close of a channel at most once in a job, and only for a channel whose
-- row is active or pending, that is, still waiting to be opened on the chain, whose service is
-- over or never began, and whose receipt the deposit covers; the request names the channel and its
-- receipt's balance and is signed by the client's key.
pub client_pre_uncooperative_close_request_job-requests :
    (h : Worker) (j : Job) (w : World)
    → SentBy w (client_pre_uncooperative_close_request_job h j w).1 (IsCloseRequest h j w.db)
client_pre_uncooperative_close_request_job-requests h j w = (request-Sends h j w).sends

-- A settlement of the job's channel, whose challenge period is over by what the node says.
pub record IsSettlement (h : Worker) (j : Job) (d : Db) (s : Sending) : Type 0 where
  pub ch : Channel
  pub offer : Offering
  pub agent : Address
  pub client : Address
  pub hash : Hash
  pub settle_block : ℕ
  pub last : ℕ
  pub found : channel_by j.related_id d ≡ some ch
  pub not_closed : channel_status_eq ch.channel_status closed_coop ≡ false
  pub agent_read : h.to_address ch.agent ≡ some agent
  pub client_read : h.to_address ch.client ≡ some client
  pub offered : offering_by ch.offering d ≡ some offer
  pub hash_read : h.to_hash offer.hash ≡ some hash
  pub settled_from : h.backend.psc_get_channel_info client agent ch.block hash ≡ some settle_block
  pub latest : h.backend.latest_block_number ≡ some last
  pub challenge_over : settle_block ≤ last
  pub call : s.call ≡ settle agent ch.block hash
