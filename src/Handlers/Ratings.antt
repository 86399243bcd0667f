-- ===== src/Handlers/Ratings.antt =====
-- proc/worker/client.go: the closings that the client records, and the ratings that it computes from
-- them.
use dappctrl.Base.{
  ℕ, zero, suc, ◌+◌, ◌-◌, ◌*◌, ◌/◌, ◌%◌, ◌^◌, Bool, not, ◌&&◌, Option, none, some, List, [], ◌∷◌,
  ◌++◌, map, any, find?, select, length, ◌==◌, ltb, leb, if◌then◌else◌,
}
use dappctrl.Data.{
  HexString, Closing, closing_type_eq, Rating, rating_ranking_steps, offerings_fresh_blocks,
  Payload, record_closing, service_status, opaque, Job,
}
use dappctrl.Data.Error.{worker, panic}
use dappctrl.Data.WorkerError.{internal, parse_job_data}
use dappctrl.Store.{
  Db, plain, in_tx, Action, ◌>>=◌, ◌>>◌, pure, raise, when, on_error, query, exec, begin, commit,
}
use dappctrl.Handlers.Env.{Worker, ClosingEvent, refuse}
use dappctrl.Handlers.Misc.{read_uint_setting}

-- A row of `GROUP BY agent, client, type`.
unfoldable pub is_grouped : Closing → ClosingEvent → Bool
is_grouped c e = c.agent == e.agent && (c.client == e.client && closing_type_eq c.type e.type)

unfoldable pub add_closing : ℕ → Closing → List ClosingEvent → List ClosingEvent
add_closing latest c [] =
    record {
      agent = c.agent;
      client = c.client;
      type = c.type;
      cost = c.balance * c.block / latest;
    }
    ∷ []
add_closing latest c (e ∷ es) =
    let rest = add_closing latest c es in
    if is_grouped c e
    then record e { cost = e.cost + c.balance * c.block / latest } ∷ es
    else e ∷ rest

unfoldable pub group_closings : ℕ → List Closing → List ClosingEvent
group_closings latest [] = []
group_closings latest (c ∷ cs) = add_closing latest c (group_closings latest cs)

-- The rows of the query; none where it divides by zero. A product beyond bigint is not modelled.
unfoldable pub closing_rows : ℕ → ℕ → Db → Option (List ClosingEvent)
closing_rows latest fresh d =
    let recent = select (λ c. leb (latest - fresh) c.block) d.closings in
    if latest == 0 && ltb 0 (length recent) then none else some (group_closings latest recent)

-- `closingEvents`
unfoldable pub closing_events : Worker → Action (List ClosingEvent)
closing_events h = do
  latest ← refuse h.backend.latest_block_number internal
  fresh ← on_error (worker internal) (read_uint_setting h offerings_fresh_blocks)
  rows ← on_error (worker internal) (query plain (closing_rows latest fresh))
  refuse rows internal

-- `eventsByAddress[addr]`: an event between an address and itself is there twice.
unfoldable pub events_of : HexString → List ClosingEvent → List ClosingEvent
events_of addr [] = []
events_of addr (e ∷ es) =
    let rest = events_of addr es in
    (if e.agent == addr then e ∷ [] else []) ++ ((if e.client == addr then e ∷ [] else []) ++ rest)

abbrev add_address : HexString → List HexString → List HexString
add_address a l = if any (λ b. b == a) l then l else a ∷ l

-- The keys of `eventsByAddress`.
unfoldable pub addresses : List ClosingEvent → List HexString
addresses [] = []
addresses (e ∷ es) = add_address e.agent (add_address e.client (addresses es))

abbrev rating_in : List Rating → HexString → ℕ
rating_in l addr = val_of (find? (λ r. r.eth_addr == addr) l)
  where
    val_of : Option Rating → ℕ
    val_of none = 0
    val_of (some r) = r.val

-- The other end of a link.
abbrev other_end : HexString → ClosingEvent → HexString
other_end addr e = if addr == e.agent then e.client else e.agent

-- What the links of an address bring it, in uint64.
unfoldable pub rate_links : List ClosingEvent → List Rating → HexString → List ClosingEvent → ℕ
rate_links events from addr [] = 0
rate_links events from addr (e ∷ es) =
    let other = other_end addr e in
    (rate_links events from addr es + rating_in from other / length (events_of other events))
    % 2 ^ 64

unfoldable pub rate_step : List ClosingEvent → List Rating → List Rating
rate_step events from =
    map (λ a. record { eth_addr = a; val = rate_links events from a (events_of a events) })
      (addresses events)

unfoldable pub rate_steps : ℕ → List ClosingEvent → List Rating → List Rating
rate_steps zero events rating = rating
rate_steps (suc n) events rating = rate_steps n events (rate_step events rating)

-- An address with one event only is left out at first.
unfoldable pub initial_ratings : Worker → List ClosingEvent → List Rating
initial_ratings h events =
    map (λ a. record { eth_addr = a; val = h.initial_rate (events_of a events) })
      (select (λ a. ltb 1 (length (events_of a events))) (addresses events))

unfoldable pub insert_ratings : List Rating → Action (Unit {0})
insert_ratings [] = pure tt
insert_ratings (r ∷ rs) = do
  on_error (worker internal) (exec in_tx (λ d. record d { ratings = r ∷ d.ratings }))
  insert_ratings rs

-- `updateRatings`
unfoldable pub update_ratings : Worker → Action (Unit {0})
update_ratings h = do
  steps ← on_error (worker internal) (read_uint_setting h rating_ranking_steps)
  events ← closing_events h
  begin
  on_error (worker internal) (exec in_tx (λ d. record d { ratings = [] }))
  insert_ratings (rate_steps steps events (initial_ratings h events))
  commit

-- A document without a record of a closing leaves a nil pointer, which is dereferenced next.
abbrev closing_of : Payload → Action (Closing × Bool)
closing_of (record_closing c b) = pure (c, b)
closing_of (service_status _) = raise (worker parse_job_data)
closing_of (opaque _) = raise (worker parse_job_data)
closing_of _ = raise panic

unfoldable pub is_same_closing : Closing → Closing → Bool
is_same_closing c r =
    r.agent == c.agent
    && (r.client == c.client && (r.block == c.block && closing_type_eq r.type c.type))

-- `ClientRecordClosing`
unfoldable pub client_record_closing_job : Worker → Job → Action (Unit {0})
client_record_closing_job h j = do
  asked ← closing_of j.payload
  known ← on_error (worker internal) (query plain (λ d. any (is_same_closing asked.0) d.closings))
  when (not known) (exec plain (λ d. record d { closings = asked.0 ∷ d.closings }))
  when asked.1 (update_ratings h)
