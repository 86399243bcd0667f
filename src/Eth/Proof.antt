-- ===== src/Eth/Proof.antt =====
-- A signed balance proof stands for one payment: its message determines every part of it.
use dappctrl.Base.{ℕ, ◌<◌, ◌^◌, ◌≡◌, refl, [], ◌∷◌, ◌++◌, length, arith}
use dappctrl.Data.Codec.{Bytes, uint32_to_bytes, uint64_to_bytes}
use dappctrl.Data.Codec.Laws.{uint64_to_bytes-injective, uint32_to_bytes-injective}
use dappctrl.Eth.{
  balance_proof_prefix, balance_proof_message, closing_prefix, balance_closing_message,
}

-- Concatenations that begin with lists of one length are equal only part by part.
append-injective :
    (xs ys us vs : Bytes) → length xs ≡ length ys → xs ++ us ≡ ys ++ vs → (xs ≡ ys) × (us ≡ vs)
append-injective [] [] us vs h e = (refl, e)
append-injective [] (y ∷ ys) us vs h e = absurd (omega arith)
append-injective (x ∷ xs) [] us vs h e = absurd (omega arith)
append-injective (x ∷ xs) (y ∷ ys) us vs h e = ground (arith, append-injective xs ys us vs)

-- The parts that both messages have in the same order.
body-injective :
    (a a' h h' p p' : Bytes) (k k' b b' : ℕ)
    → length a ≡ length a'
    → length h ≡ length h'
    → k < 2 ^ 32
    → k' < 2 ^ 32
    → b < 2 ^ 64
    → b' < 2 ^ 64
    → a ++ (uint32_to_bytes k ++ (h ++ (uint64_to_bytes b ++ p)))
      ≡ a' ++ (uint32_to_bytes k' ++ (h' ++ (uint64_to_bytes b' ++ p')))
    → (a ≡ a') × (k ≡ k') × (h ≡ h') × (b ≡ b') × (p ≡ p')
body-injective a a' h h' p p' k k' b b' la lh hk hk' hb hb' e =
    let (ea, e1) = append-injective a a' _ _ la e in
    let (ek, e2) = append-injective (uint32_to_bytes k) (uint32_to_bytes k') _ _ (four k k') e1 in
    let (eh, e3) = append-injective h h' _ _ lh e2 in
    let (eb, ep) = append-injective (uint64_to_bytes b) (uint64_to_bytes b') _ _ (eight b b') e3 in
    (ea, uint32_to_bytes-injective k k' hk hk' ek, eh, uint64_to_bytes-injective b b' hb hb' eb, ep)
  where
    four : (x y : ℕ) → length (uint32_to_bytes x) ≡ length (uint32_to_bytes y)
    four x y = unfold uint32_to_bytes in refl

    eight : (x y : ℕ) → length (uint64_to_bytes x) ≡ length (uint64_to_bytes y)
    eight x y = unfold uint64_to_bytes in refl

-- Two balance proofs with the same message are of one agent, block, offering, balance and contract:
-- addresses of one length, hashes of one length, a 32-bit block and a 64-bit balance.
pub balance_proof_message-injective :
    (psc psc' agent agent' hash hash' : Bytes) (block block' balance balance' : ℕ)
    → length agent ≡ length agent'
    → length hash ≡ length hash'
    → block < 2 ^ 32
    → block' < 2 ^ 32
    → balance < 2 ^ 64
    → balance' < 2 ^ 64
    → balance_proof_message psc agent block hash balance
      ≡ balance_proof_message psc' agent' block' hash' balance'
    → (agent ≡ agent') × (block ≡ block') × (hash ≡ hash') × (balance ≡ balance') × (psc ≡ psc')
unfolding balance_proof_message
balance_proof_message-injective psc psc' agent agent' hash hash' k k' b b' la lh hk hk' hb hb' e =
    body-injective agent agent' hash hash' psc psc' k k' b b' la lh hk hk' hb hb'
      (append-injective balance_proof_prefix balance_proof_prefix _ _ refl e).1

-- Likewise for the agent's closing signature, of the client, block, offering, balance and contract.
pub balance_closing_message-injective :
    (client client' psc psc' hash hash' : Bytes) (block block' balance balance' : ℕ)
    → length client ≡ length client'
    → length hash ≡ length hash'
    → block < 2 ^ 32
    → block' < 2 ^ 32
    → balance < 2 ^ 64
    → balance' < 2 ^ 64
    → balance_closing_message client psc block hash balance
      ≡ balance_closing_message client' psc' block' hash' balance'
    → (client ≡ client') × (block ≡ block') × (hash ≡ hash') × (balance ≡ balance') × (psc ≡ psc')
unfolding balance_closing_message
balance_closing_message-injective a a' psc psc' hash hash' k k' b b' la lh hk hk' hb hb' e =
    body-injective a a' hash hash' psc psc' k k' b b' la lh hk hk' hb hb'
      (append-injective closing_prefix closing_prefix _ _ refl e).1
