-- ===== src/Data/Codec/Laws.antt =====
-- The encodings lose nothing of a number that fits them.
use dappctrl.Base.{ℕ, ◌<◌, ◌^◌, ◌≡◌, some, [], ◌∷◌, All, arith, ap}
use dappctrl.Data.Codec.{Bytes, uint32_to_bytes, bytes_to_uint32, uint64_to_bytes}

-- Decoding the four bytes of a 32-bit number gives the number.
pub bytes_to_uint32-uint32_to_bytes :
    (x : ℕ) → x < 2 ^ 32 → bytes_to_uint32 (uint32_to_bytes x) ≡ some x
unfolding bytes_to_uint32 uint32_to_bytes
bytes_to_uint32-uint32_to_bytes x h = ap some (omega arith)

-- Whatever decodes consists of four bytes, and encoding the number that it decodes to gives them
-- back.
pub uint32_to_bytes-bytes_to_uint32 :
    (b : Bytes) (x : ℕ)
    → All (λ c. c < 256) b
    → bytes_to_uint32 b ≡ some x
    → (uint32_to_bytes x ≡ b) × (x < 2 ^ 32)
unfolding bytes_to_uint32 uint32_to_bytes
uint32_to_bytes-bytes_to_uint32 (a ∷ b ∷ c ∷ d ∷ []) x h e = ground arith
uint32_to_bytes-bytes_to_uint32 _ x h e = cc

pub uint64_to_bytes-injective :
    (x y : ℕ) → x < 2 ^ 64 → y < 2 ^ 64 → uint64_to_bytes x ≡ uint64_to_bytes y → x ≡ y
unfolding uint64_to_bytes
uint64_to_bytes-injective x y hx hy e = ground arith

pub uint32_to_bytes-injective :
    (x y : ℕ) → x < 2 ^ 32 → y < 2 ^ 32 → uint32_to_bytes x ≡ uint32_to_bytes y → x ≡ y
unfolding uint32_to_bytes
uint32_to_bytes-injective x y hx hy e = ground arith
