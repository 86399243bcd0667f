-- ===== src/Pay/Server.antt =====
-- pay/pay.go and pay/misc.go: handling a client's balance proof.
use dappctrl.Base.{
  ℕ, Bool, not, ◌&&◌, Option, none, some, [], ◌∷◌, ltb, leb, ◌==◌, if◌then◌else◌, find?, any,
  update_where, count_where,
}
use dappctrl.Data.{
  Uuid, HexString, Base64String, Channel, ChannelStatus, terminated, channel_status_eq,
  service_status_eq, Error,
}
use dappctrl.Data.Error.{
  pay_no_channel, pay_closed_channel, pay_terminated_service, pay_unexpected, pay_invalid_signature,
  pay_equal_balance, pay_invalid_balance, panic,
}
use dappctrl.Data.Codec.{Bytes}
use dappctrl.Store.{
  Db, plain, Action, ◌>>=◌, ◌>>◌, pure, require, or_raise, on_error, query, exec_count,
}
use dappctrl.Eth.{Crypto, balance_proof_hash}

pub record PaymentPayload : Type 0 where
  pub agent_address : HexString
  pub open_block_number : ℕ
  pub offering_hash : HexString
  pub balance : ℕ
  pub balance_msg_sig : Base64String
  pub contract_address : HexString

-- The codes of the replies; the constants of 401 and those of 400 are counted separately.
unfoldable pub reply_code : Error → ℕ
reply_code pay_no_channel = 1
reply_code pay_closed_channel = 2
reply_code pay_terminated_service = 3
reply_code pay_invalid_balance = 2
reply_code pay_unexpected = 3
reply_code pay_invalid_signature = 3
reply_code pay_equal_balance = 4
reply_code _ = 0

-- The join asks for an offering with the hash, and for a channel of the agent opened in the block.
unfoldable pub joined_channel : HexString → HexString → ℕ → Db → Option Channel
joined_channel hash agent block d =
    if any (λ o. o.hash == hash) d.offerings
    then find? (λ c. c.agent == agent && c.block == block) d.channels
    else none

unfoldable pub find_channel : PaymentPayload → Action Channel
find_channel p = do
  found ←
      on_error pay_no_channel
        (query plain (joined_channel p.offering_hash p.agent_address p.open_block_number))
  or_raise found pay_no_channel

-- `sig[:len(sig)-1]`, which panics on an empty slice.
unfoldable pub without_last : Bytes → Option Bytes
without_last [] = none
without_last (b ∷ []) = some []
without_last (b ∷ c ∷ bs) = elim (without_last (c ∷ bs)) [ none ↦ none | some r ↦ some (b ∷ r) ]

module _ (c : Crypto) where
  -- The hash that the signature is checked against, from the payload but for the agent's address.
  unfoldable pub checked_hash : PaymentPayload → Bytes → Bytes → Bytes → Bytes
  checked_hash p psc agent hash =
      balance_proof_hash c (c.bytes_to_address psc) (c.bytes_to_address agent) p.open_block_number
        (c.bytes_to_hash hash) p.balance

  unfoldable pub verify_signature : Channel → PaymentPayload → Action (Unit {0})
  verify_signature ch p = do
    found ←
        on_error pay_unexpected (query plain (λ d. find? (λ u. u.eth_addr == ch.client) d.users))
    client ← or_raise found pay_unexpected
    key ← or_raise (c.base64_decode client.public_key) pay_unexpected
    sig ← or_raise (c.base64_decode p.balance_msg_sig) pay_unexpected
    psc ← or_raise (c.hex_decode p.contract_address) pay_unexpected
    agent ← or_raise (c.hex_decode ch.agent) pay_unexpected
    hash ← or_raise (c.hex_decode p.offering_hash) pay_unexpected
    cut ← or_raise (without_last sig) panic
    require (c.verify_signature key (checked_hash p psc agent hash) cut) pay_invalid_signature

-- The UPDATE's condition and assignment.
unfoldable pub is_credited : Uuid → ℕ → Channel → Bool
is_credited id balance ch =
    (ltb ch.receipt_balance balance && leb balance ch.total_deposit) && ch.id == id

unfoldable pub credited : ℕ → Base64String → Channel → Channel
credited balance sig ch = record ch { receipt_balance = balance; receipt_signature = some sig }

unfoldable pub credit : Uuid → ℕ → Base64String → Db → Db
credit id balance sig d = record d {
  channels = update_where (is_credited id balance) (credited balance sig) d.channels;
}

-- `ch` is the channel as it was read before; the statement checks the balance anew.
unfoldable pub update_channel_with_payment : Channel → PaymentPayload → Action (Unit {0})
update_channel_with_payment ch p = do
  require (not (ch.receipt_balance == p.balance)) pay_equal_balance
  affected ← on_error pay_unexpected (
      exec_count plain (credit ch.id p.balance p.balance_msg_sig)
        (λ d. count_where (is_credited ch.id p.balance) d.channels))
  require (not (affected == 0)) pay_invalid_balance

-- The error is the reply; the channel that was credited is returned.
unfoldable pub handle_pay : Crypto → PaymentPayload → Action Channel
handle_pay c p = do
  ch ← find_channel p
  require (not (service_status_eq ch.service_status terminated)) pay_terminated_service
  require (channel_status_eq ch.channel_status ChannelStatus.active) pay_closed_channel
  verify_signature c ch p
  update_channel_with_payment ch p
  pure ch
