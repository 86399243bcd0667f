-- ===== src/Bc/Range.antt =====
-- bc/range_of_interest.go: the blocks that a round of the monitor looks at, in uint64.
use dappctrl.Base.{
  ℕ, ◌+◌, ◌-◌, ◌%◌, ◌^◌, not, ◌&&◌, ltb, leb, ◌==◌, if◌then◌else◌, Option, none, some, List, [],
  ◌∷◌,
}
use dappctrl.Store.{Result, ok, err}

-- What reading each setting returns.
pub record Settings : Type 0 where
  pub min_confirmations : Result ℕ
  pub block_limit : Result ℕ
  pub last_processed_block : Result ℕ
  pub offerings_fresh_blocks : Result ℕ
  pub last_back_search_block : Result ℕ

-- `if err != nil { return ..., err }`
abbrev or_fail : {A B : Type 0} → Result A → (A → Result B) → Result B
or_fail (ok a) f = f a
or_fail (err e) f = err e

-- The error of this reading is not returned: the range is then from 0 to 0.
abbrev or_zero : Result ℕ → (ℕ → Result (ℕ × ℕ)) → Result (ℕ × ℕ)
or_zero (ok a) f = f a
or_zero (err e) f = ok (0, 0)

unfoldable pub safe_sub : ℕ → ℕ → ℕ
safe_sub a b = if ltb b a then a - b else 0

unfoldable pub first_block : ℕ → ℕ → ℕ → ℕ → ℕ
first_block latest unreliable limit processed =
    let start = if processed == 0 then safe_sub (safe_sub latest unreliable) limit else processed in
    (start + 1) % 2 ^ 64

unfoldable pub last_block : ℕ → ℕ → ℕ → ℕ → ℕ
last_block latest unreliable limit first =
    let last = safe_sub latest unreliable in
    if not (limit == 0) && (ltb first last && ltb limit (last - first))
    then (first + limit) % 2 ^ 64
    else last

unfoldable pub range_of_interest : Settings → ℕ → Result (ℕ × ℕ)
range_of_interest s latest = or_fail s.min_confirmations λ unreliable.
    or_zero s.block_limit λ limit. or_fail s.last_processed_block λ processed.
      let first = first_block latest unreliable limit processed in
      ok (first, last_block latest unreliable limit first)

-- The search for older offerings, backwards from the last block searched.
unfoldable pub offerings_range : ℕ → ℕ → ℕ → ℕ → ℕ → ℕ × ℕ
offerings_range up unreliable limit fresh searched =
    let start = if searched == 0 then (safe_sub up unreliable + 1) % 2 ^ 64 else searched in
    let last = safe_sub start 1 in
    let wide = safe_sub (safe_sub start limit) 1 in
    let from =
      if ltb wide (safe_sub up fresh) then safe_sub (safe_sub up fresh) unreliable else wide in
    if leb last (safe_sub up fresh)
    then (0, 0)
    else (if leb last from then (0, 0) else (from, last))

unfoldable pub offerings_range_of_interest : Settings → ℕ → Result (ℕ × ℕ)
offerings_range_of_interest s up = or_fail s.min_confirmations λ unreliable.
    or_fail s.block_limit λ limit. or_fail s.offerings_fresh_blocks λ fresh.
      or_fail s.last_back_search_block
        λ searched. ok (offerings_range up unreliable limit fresh searched)

-- `getAgentFilterQueries` of bc/bc.go: the range that an agent with accounts in use reads, if any.
unfoldable pub agent_range : Settings → ℕ → Result (Option (ℕ × ℕ))
agent_range s latest =
    or_fail (range_of_interest s latest) λ r. ok (if leb r.1 r.0 then none else some r)

abbrev pub settings_at : ℕ → ℕ → ℕ → Settings
settings_at unreliable limit processed = record {
  min_confirmations = ok unreliable;
  block_limit = ok limit;
  last_processed_block = ok processed;
  offerings_fresh_blocks = ok 0;
  last_back_search_block = ok 0;
}

abbrev pub read_next : (ℕ → List (ℕ × ℕ)) → ℕ → Result (Option (ℕ × ℕ)) → List (ℕ × ℕ)
read_next k processed (ok (some r)) = r ∷ k r.1
read_next k processed (ok none) = k processed
read_next k processed (err e) = k processed

-- What rounds that end well read, given the latest block of each: a round that reads a range makes
-- its end the last block processed.
unfoldable pub agent_rounds : ℕ → ℕ → List ℕ → ℕ → List (ℕ × ℕ)
agent_rounds unreliable limit [] processed = []
agent_rounds unreliable limit (latest ∷ l) processed =
    read_next (agent_rounds unreliable limit l) processed
      (agent_range (settings_at unreliable limit processed) latest)
