-- ===== src/Pay/Outcome.antt =====
-- When a payment is accepted, and that a refused one changes nothing.
use dappctrl.Base.{
  ◌≡◌, ◌≢◌, ap, true, some, ◌==◌, arith, find?, count_where, update_where-count_zero, ◌<◌, ◌≤◌,
}
use dappctrl.Data.{Channel, ChannelStatus, terminated, User, Error}
use dappctrl.Data.Codec.{Bytes}
use dappctrl.Store.{Db, World, err, ◌>>=◌, require, exec_count, on_error}
use dappctrl.Store.Frames.{Keeps, IsAtomic, >>=-Keeps, >>=-IsAtomic, pure_after-IsAtomic, frames}
use dappctrl.Store.Ensures.{Ensures}
use dappctrl.Eth.{Crypto}
use dappctrl.Pay.Server.{
  PaymentPayload, joined_channel, find_channel, without_last, checked_hash, verify_signature,
  is_credited, credit, update_channel_with_payment, handle_pay,
}

find_channel-Keeps : (p : PaymentPayload) → Keeps (find_channel p)
unfolding find_channel
find_channel-Keeps p = >>=-Keeps _ _ (search frames) λ _. search frames

verify_signature-Keeps :
    (c : Crypto) (ch : Channel) (p : PaymentPayload) → Keeps (verify_signature c ch p)
unfolding verify_signature
verify_signature-Keeps c ch p = >>=-Keeps _ _ (search frames) λ _.
    >>=-Keeps _ _ (search frames) λ _. >>=-Keeps _ _ (search frames) λ _.
      >>=-Keeps _ _ (search frames) λ _. >>=-Keeps _ _ (search frames) λ _.
        >>=-Keeps _ _ (search frames)
          λ _. >>=-Keeps _ _ (search frames) λ _. >>=-Keeps _ _ (search frames) λ _. search frames

credit-count_zero :
    (ch : Channel) (p : PaymentPayload) (d : Db)
    → count_where (is_credited ch.id p.balance) d.channels ≡ 0
    → credit ch.id p.balance p.balance_msg_sig d ≡ d
unfolding credit
credit-count_zero ch p d h =
    ap (λ cs. record d { channels = cs }) (update_where-count_zero _ _ d.channels h)

update_channel-IsAtomic :
    (ch : Channel) (p : PaymentPayload) → IsAtomic (update_channel_with_payment ch p)
unfolding update_channel_with_payment
update_channel-IsAtomic ch p = >>=-IsAtomic _ _ (search frames) λ _. record {
  atomic = λ w e h.
      unfold ◌>>=◌ on_error exec_count require in ground (arith, credit-count_zero ch p w.db);
}

handle_pay-IsAtomic : (c : Crypto) (p : PaymentPayload) → IsAtomic (handle_pay c p)
unfolding handle_pay
handle_pay-IsAtomic c p = >>=-IsAtomic _ _ (find_channel-Keeps p) λ ch.
    >>=-IsAtomic _ _ (search frames) λ _. >>=-IsAtomic _ _ (search frames) λ _.
      >>=-IsAtomic _ _ (verify_signature-Keeps c ch p)
        λ _. pure_after-IsAtomic _ ch (update_channel-IsAtomic ch p)

-- The client's signature of the payment, with the decoded values that it was checked for.
pub record Signed (c : Crypto) (ch : Channel) (p : PaymentPayload) (d : Db) : Type 0 where
  pub client : User
  pub key : Bytes
  pub sig : Bytes
  pub psc : Bytes
  pub agent : Bytes
  pub hash : Bytes
  pub cut : Bytes
  pub client_found : find? (λ u. u.eth_addr == ch.client) d.users ≡ some client
  pub key_decoded : c.base64_decode client.public_key ≡ some key
  pub sig_decoded : c.base64_decode p.balance_msg_sig ≡ some sig
  pub psc_decoded : c.hex_decode p.contract_address ≡ some psc
  pub agent_decoded : c.hex_decode ch.agent ≡ some agent
  pub hash_decoded : c.hex_decode p.offering_hash ≡ some hash
  pub sig_cut : without_last sig ≡ some cut
  pub verified : c.verify_signature key (checked_hash c p psc agent hash) cut ≡ true

-- An accepted payment: the channel that was found for it, the row that was written, and the tables
-- that it left.
pub record IsPaid (c : Crypto) (p : PaymentPayload) (d : Db) (ch : Channel) (d' : Db) : Type 0 where
  pub found : joined_channel p.offering_hash p.agent_address p.open_block_number d ≡ some ch
  pub served : ch.service_status ≢ terminated
  pub open_channel : ch.channel_status ≡ ChannelStatus.active
  pub signed : Signed c ch p d
  pub row : Channel
  pub row_found : find? (is_credited ch.id p.balance) d.channels ≡ some row
  pub row_id : row.id ≡ ch.id
  pub more : row.receipt_balance < p.balance
  pub covered : p.balance ≤ row.total_deposit
  pub tables : d' ≡ credit ch.id p.balance p.balance_msg_sig d

module _ (c : Crypto) (p : PaymentPayload) (w : World) where
  -- A payment that is refused, for whatever reason, leaves the tables as they were.
  pub handle_pay-atomic :
      (e : Error) → (handle_pay c p w).0 ≡ err e → (handle_pay c p w).1.db ≡ w.db
  handle_pay-atomic e h = (handle_pay-IsAtomic c p).atomic w e h
