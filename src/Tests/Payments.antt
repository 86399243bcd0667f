-- ===== src/Tests/Payments.antt =====
-- Payments on samples, with a stand-in for the cryptography.
use dappctrl.Base.{ℕ, ◌<◌, ◌≡◌, refl, arith, some, [], ◌∷◌, leb, length, All}
use dappctrl.Data.{ServiceStatus}
use dappctrl.Data.Codec.{Bytes, bytes_to_uint32}
use dappctrl.Store.{Db}
use dappctrl.Eth.{Crypto}
use dappctrl.Eth.Proof.{balance_proof_message-injective}
use dappctrl.Pay.Server.{PaymentPayload, verify_signature, credit}
use dappctrl.Pay.Monotone.{AreRaised, Payments, none_yet, then_credit, Payments-AreRaised}
use dappctrl.Tests.Samples.{sample_db}

-- A text decodes to two bytes, and the signature must be the public key less its last byte.
abbrev sample_crypto : Crypto
sample_crypto = record {
  base64_decode = λ t. some (t ∷ 0 ∷ []);
  hex_decode = λ t. some (t ∷ []);
  bytes_to_address = λ b. b;
  bytes_to_hash = λ b. b;
  keccak256 = λ b. b;
  verify_signature = λ key hash sig. leb (length sig) (length key);
}

abbrev sample_payment : PaymentPayload
sample_payment = record {
  agent_address = 11;
  open_block_number = 7;
  offering_hash = 51;
  balance = 30;
  balance_msg_sig = 13;
  contract_address = 99;
}

abbrev open_db : Db
open_db = sample_db ServiceStatus.active 20 []

-- Two payments, the later one written first.
abbrev two_payments : Payments open_db (credit 40 30 13 (credit 40 60 14 open_db))
two_payments = then_credit 40 30 13 (then_credit 40 60 14 none_yet)

Payments-AreRaised_example :
    AreRaised open_db.channels (credit 40 30 13 (credit 40 60 14 open_db)).channels
Payments-AreRaised_example = Payments-AreRaised two_payments

decoded : bytes_to_uint32 (0 ∷ 1 ∷ 17 ∷ 112 ∷ []) ≡ some 70000
unfolding bytes_to_uint32
decoded = refl

small_bytes : All (λ b. b < 256) (0 ∷ 1 ∷ 17 ∷ 112 ∷ [])
small_bytes = (omega arith, (omega arith, (omega arith, (omega arith, tt))))

abbrev party : Bytes
party = 1 ∷ 2 ∷ []

abbrev hash : Bytes
hash = 5 ∷ []

abbrev contract : Bytes
contract = 9 ∷ []

balance_proof_message-injective_example :
    (party ≡ party)
    × (◌≡◌ {A = ℕ} 7 7)
    × (hash ≡ hash)
    × (◌≡◌ {A = ℕ} 30 30)
    × (contract ≡ contract)
balance_proof_message-injective_example =
    balance_proof_message-injective contract contract party party hash hash 7 7 30 30 refl refl
      (omega arith) (omega arith) (omega arith) (omega arith) refl
