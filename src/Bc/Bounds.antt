-- ===== src/Bc/Bounds.antt =====
-- The monitor reads no unconfirmed block, skips none, and reads none twice.
use dappctrl.Base.{
  ℕ, ◌+◌, ◌-◌, ◌^◌, ◌≤◌, ◌<◌, ◌≡◌, refl, true, arith, leb, ◌==◌, ◌||◌, List, All, some, ◌∷◌, Option,
  [], ◌∷◌, none, some,
}
use dappctrl.Store.{Result, ok, err}
use dappctrl.Bc.Range.{
  Settings, safe_sub, first_block, last_block, range_of_interest, offerings_range,
  offerings_range_of_interest, agent_range, agent_rounds, settings_at, read_next,
}

last_block_bounds :
    (latest unreliable limit first : ℕ)
    → latest < 2 ^ 64
    → (last_block latest unreliable limit first ≤ latest - unreliable)
      × ((limit == 0 || leb (last_block latest unreliable limit first) (first + limit)) ≡ true)
unfolding last_block safe_sub
last_block_bounds latest unreliable limit first h = ground arith

-- With settings that can be read, the last block of a round has the confirmations that are asked
-- for, and where a limit is set the round ends at most that many blocks after its first one.
pub range_of_interest_bounds :
    (s : Settings) (latest unreliable limit processed first last : ℕ)
    → s.min_confirmations ≡ ok unreliable
    → s.block_limit ≡ ok limit
    → s.last_processed_block ≡ ok processed
    → latest < 2 ^ 64
    → range_of_interest s latest ≡ ok (first, last)
    → (last ≤ latest - unreliable) × ((limit == 0 || leb last (first + limit)) ≡ true)
unfolding range_of_interest
range_of_interest_bounds s latest unreliable limit processed first last u l p h e = ground (
  arith,
  last_block_bounds latest unreliable limit (first_block latest unreliable limit processed) h,
)

-- Ranges that follow each other without a gap, the first of them right after the block `p`.
abbrev pub AreConsecutive : ℕ → List (ℕ × ℕ) → Type 0
AreConsecutive p [] = Unit {0}
AreConsecutive p ((a, b) ∷ l) = (a ≡ p + 1) × (a < b) × AreConsecutive b l

agent_range_lem :
    (unreliable limit processed latest first last : ℕ)
    → 0 < processed
    → processed < 2 ^ 64 - 1
    → latest < 2 ^ 64 - 1
    → agent_range (settings_at unreliable limit processed) latest ≡ ok (some (first, last))
    → (first ≡ processed + 1) × (first < last) × (last < 2 ^ 64 - 1)
unfolding agent_range range_of_interest first_block
agent_range_lem unreliable limit processed latest first last z p l e =
    ground (arith, last_block_bounds latest unreliable limit (processed + 1) (omega arith))

consecutive_next :
    (unreliable limit processed latest : ℕ) (l : List ℕ)
    → 0 < processed
    → processed < 2 ^ 64 - 1
    → latest < 2 ^ 64 - 1
    → ((b : ℕ) → 0 < b → b < 2 ^ 64 - 1 → AreConsecutive b (agent_rounds unreliable limit l b))
    → (r : Result (Option (ℕ × ℕ)))
    → agent_range (settings_at unreliable limit processed) latest ≡ r
    → AreConsecutive processed (read_next (agent_rounds unreliable limit l) processed r)
consecutive_next unreliable limit processed latest l z p h k (ok (some (a, b))) e =
    let (x, y, w) = agent_range_lem unreliable limit processed latest a b z p h e in
    (x, y, k b (omega arith) w)
consecutive_next unreliable limit processed latest l z p h k (ok none) e = k processed z p
consecutive_next unreliable limit processed latest l z p h k (err x) e = k processed z p

-- However the chain grows from round to round, the ranges that an agent's rounds read follow each
-- other, from the block after the last one processed: no block is skipped, and none is read twice.
-- Blocks are below the last number of 64 bits.
pub agent_rounds-AreConsecutive :
    (unreliable limit : ℕ) (latest : List ℕ) (processed : ℕ)
    → 0 < processed
    → processed < 2 ^ 64 - 1
    → All (λ n. n < 2 ^ 64 - 1) latest
    → AreConsecutive processed (agent_rounds unreliable limit latest processed)
unfolding agent_rounds
agent_rounds-AreConsecutive unreliable limit [] processed z p h = tt
agent_rounds-AreConsecutive unreliable limit (n ∷ l) processed z p h =
    consecutive_next unreliable limit processed n l z p h.0
      (λ b z' p'. agent_rounds-AreConsecutive unreliable limit l b z' p' h.1) _ refl

safe_sub_lem : (a b : ℕ) → safe_sub a b ≡ a - b
unfolding safe_sub
safe_sub_lem a b = ground arith

offerings_range_bounds :
    (up unreliable limit fresh searched : ℕ)
    → 0 < searched
    → 0 < (offerings_range up unreliable limit fresh searched).1
    → let (from, last) = offerings_range up unreliable limit fresh searched in
      (from < last) × (last < searched) × (up < last + fresh)
unfolding offerings_range
offerings_range_bounds up unreliable limit fresh searched n m =
    ground (arith, safe_sub_lem up fresh, safe_sub_lem searched 1)

-- A range of older offerings that is not empty lies before the last block searched and reaches
-- into the fresh blocks.
pub offerings_range_of_interest_bounds :
    (s : Settings) (up unreliable limit fresh searched from last : ℕ)
    → s.min_confirmations ≡ ok unreliable
    → s.block_limit ≡ ok limit
    → s.offerings_fresh_blocks ≡ ok fresh
    → s.last_back_search_block ≡ ok searched
    → 0 < searched
    → up < 2 ^ 64
    → 0 < last
    → offerings_range_of_interest s up ≡ ok (from, last)
    → (from < last) × (last < searched) × (up < last + fresh)
unfolding offerings_range_of_interest
offerings_range_of_interest_bounds s up unreliable limit fresh searched from last u l f k n h m e =
    ground (arith, offerings_range_bounds up unreliable limit fresh searched n)
