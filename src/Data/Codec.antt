-- ===== src/Data/Codec.antt =====
-- data/misc.go: big-endian encodings of fixed width. A byte is a natural number below 256.
pub mod Laws
use dappctrl.Base.{ℕ, ◌+◌, ◌*◌, ◌/◌, ◌%◌, ◌^◌, Option, none, some, List, [], ◌∷◌}

abbrev pub Bytes : Type 0
Bytes = List ℕ

-- `binary.BigEndian.PutUint32`
unfoldable pub uint32_to_bytes : ℕ → Bytes
uint32_to_bytes x = x / 2 ^ 24 % 256 ∷ x / 2 ^ 16 % 256 ∷ x / 2 ^ 8 % 256 ∷ x % 256 ∷ []

-- An error for any other length than four.
unfoldable pub bytes_to_uint32 : Bytes → Option ℕ
bytes_to_uint32 (a ∷ b ∷ c ∷ d ∷ []) = some (a * 2 ^ 24 + b * 2 ^ 16 + c * 2 ^ 8 + d)
bytes_to_uint32 _ = none

unfoldable pub uint64_to_bytes : ℕ → Bytes
uint64_to_bytes x =
    x / 2 ^ 56 % 256
    ∷ x / 2 ^ 48 % 256
    ∷ x / 2 ^ 40 % 256
    ∷ x / 2 ^ 32 % 256
    ∷ x / 2 ^ 24 % 256
    ∷ x / 2 ^ 16 % 256
    ∷ x / 2 ^ 8 % 256
    ∷ x % 256
    ∷ []
