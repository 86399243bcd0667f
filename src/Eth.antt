-- ===== src/Eth.antt =====
-- eth/common.go: the messages that the two parties of a channel sign.
pub mod Proof
use dappctrl.Base.{ℕ, Bool, Option, List, [], ◌∷◌, ◌++◌, codes}
use dappctrl.Data.{Base64String, HexString}
use dappctrl.Data.Codec.{Bytes, uint32_to_bytes, uint64_to_bytes}

-- The libraries for texts and cryptography: base64 and hexadecimal decoding, go-ethereum's
-- conversions to 20 and 32 bytes, Keccak-256 and the check of a signature (public key, hash,
-- signature without its last byte).
pub record Crypto : Type 0 where
  pub base64_decode : Base64String → Option Bytes
  pub hex_decode : HexString → Option Bytes
  pub bytes_to_address : Bytes → Bytes
  pub bytes_to_hash : Bytes → Bytes
  pub keccak256 : Bytes → Bytes
  pub verify_signature : Bytes → Bytes → Bytes → Bool

-- "\x19Ethereum Signed Message:\n32"
abbrev signed_message_prefix : Bytes
signed_message_prefix = 25 ∷ (codes "Ethereum Signed Message:" ++ 10 ∷ codes "32")

abbrev balance_proof_prefix : Bytes
balance_proof_prefix = codes "Privatix: sender balance proof signature"

abbrev closing_prefix : Bytes
closing_prefix = codes "Privatix: receiver closing signature"

-- What `BalanceProofHash` hashes first. `keccak256` of several slices is that of their
-- concatenation.
unfoldable pub balance_proof_message : Bytes → Bytes → ℕ → Bytes → ℕ → Bytes
balance_proof_message psc agent block hash balance =
    balance_proof_prefix
    ++ (agent ++ (uint32_to_bytes block ++ (hash ++ (uint64_to_bytes balance ++ psc))))

unfoldable pub balance_proof_hash : Crypto → Bytes → Bytes → ℕ → Bytes → ℕ → Bytes
balance_proof_hash c psc agent block hash balance =
    c.keccak256
      (signed_message_prefix ++ c.keccak256 (balance_proof_message psc agent block hash balance))

unfoldable pub balance_closing_message : Bytes → Bytes → ℕ → Bytes → ℕ → Bytes
balance_closing_message client psc block hash balance =
    closing_prefix
    ++ (client ++ (uint32_to_bytes block ++ (hash ++ (uint64_to_bytes balance ++ psc))))

unfoldable pub balance_closing_hash : Crypto → Bytes → Bytes → ℕ → Bytes → ℕ → Bytes
balance_closing_hash c client psc block hash balance =
    c.keccak256
      (signed_message_prefix ++ c.keccak256 (balance_closing_message client psc block hash balance))
