-- ===== src/Loop/PopUp.antt =====
-- proc/looper/offering.go and an iteration of loop in proc/looper/loop.go.
use dappctrl.Base.{
  ℕ, ◌+◌, ◌-◌, ◌*◌, ◌%◌, ◌^◌, Bool, true, false, ◌&&◌, Option, none, some, List, [], ◌∷◌, any,
  find?, select, length, ◌==◌, ltb, leb, if◌then◌else◌,
}
use dappctrl.Data.{
  HexString, Text, Instant, Address, Hash, Account, Offering, OfferStatus, registered, popped_up,
  Job, JobStatus, JobCreator, RelatedType, publish, agent_pre_offering_pop_up, job_type_eq,
  job_status_eq, offering_auto_pop_up, setting_key_eq,
}
use dappctrl.Data.Error.{no_rows, failure}
use dappctrl.Store.{
  Db, Result, ok, err, plain, Action, ◌>>=◌, ◌>>◌, pure, require, or_raise, attempt, query,
}
use dappctrl.Job.Config.{Config}
use dappctrl.Job.Add.{Stamp, add, new_job}
use dappctrl.Handlers.Env.{Backend, OfferingInfo}

-- What the looper works with: the node, the gas that it estimates for a pop up, the decoders, the
-- clock, and the queue. The clock stands still during one iteration.
pub record Looper : Type 0 where
  pub queue : Config
  pub stamp : ℕ → Stamp
  pub now : Instant
  pub backend : Backend
  pub popup_gas : Option ℕ
  pub to_address : HexString → Option Address
  pub to_hash : HexString → Option Hash
  pub parse_bool : Text → Option Bool

-- `time.Now().Add(delay)`, where the delay is an int64 of nanoseconds.
abbrev pub after_delay : Instant → ℕ → Instant
after_delay now d =
    let wrapped = d % 2 ^ 64 in
    if ltb wrapped (2 ^ 63) then now + wrapped else now - (2 ^ 64 - wrapped)

-- `calcDelayToOfferingPopUp`: the blocks that are left until an offering may be popped up, at
-- fifteen seconds each.
unfoldable pub calc_delay_to_offering_pop_up : ℕ → ℕ → OfferingInfo → ℕ
calc_delay_to_offering_pop_up period last info =
    let block = (info.update_block + period) % 2 ^ 64 in
    if ltb (last % 2 ^ 64) block then (block - last % 2 ^ 64) * 15000000000 else 0

abbrev is_active_offer : OfferStatus → Bool
is_active_offer registered = true
is_active_offer popped_up = true
is_active_offer _ = false

abbrev is_in_use : Option Account → Bool
is_in_use none = false
is_in_use (some a) = a.in_use

abbrev is_automatic : Option Bool → Bool
is_automatic none = false
is_automatic (some b) = b

-- The condition of the query of `findOfferingsToPopUp`.
unfoldable pub is_to_pop_up : Db → Offering → Bool
is_to_pop_up d o =
    is_active_offer o.status
    && (is_in_use (find? (λ a. a.eth_addr == o.agent) d.accounts) && is_automatic o.auto_pop_up)

unfoldable pub pop_up_job : Looper → ℕ → ℕ → ℕ → Offering → OfferingInfo → Job
pop_up_job l period price last o info =
    new_job agent_pre_offering_pop_up RelatedType.offering o.id JobCreator.user
      (publish (price % 2 ^ 64))
      (after_delay l.now (calc_delay_to_offering_pop_up period last info))

abbrev pub info_of : Looper → Offering → Option OfferingInfo
info_of l o = elim (l.to_hash o.hash) [
  | none ↦ none
  | some hash ↦ l.backend.psc_get_offering_info hash
]

abbrev pub and_job : Option Job → Option (List Job) → Option (List Job)
and_job (some j) (some js) = some (j ∷ js)
and_job _ _ = none

abbrev pub map_job : (OfferingInfo → Job) → Option OfferingInfo → Option Job
map_job f none = none
map_job f (some i) = some (f i)

-- The jobs for all offerings, or none.
unfoldable pub jobs_of : Looper → ℕ → ℕ → ℕ → List Offering → Option (List Job)
jobs_of l period price last [] = some []
jobs_of l period price last (o ∷ os) =
    and_job (map_job (pop_up_job l period price last o) (info_of l o))
      (jobs_of l period price last os)

abbrev pub first_of : List Offering → Option Offering
first_of [] = none
first_of (o ∷ _) = some o

-- `autoOfferingPopUp`, which returns nil where this fails. The price of all pop ups is compared with
-- the balance of the first offering's agent.
unfoldable pub find_jobs : Looper → ℕ → Action (List Job)
find_jobs l period = do
  offers ← query plain (λ d. select (is_to_pop_up d) d.offerings)
  first ← or_raise (first_of offers) failure
  price ← or_raise l.backend.suggest_gas_price failure
  gas ← or_raise l.popup_gas failure
  agent ← or_raise (l.to_address first.agent) failure
  balance ← or_raise (l.backend.eth_balance_at agent) failure
  require (leb (gas * price * length offers) balance) failure
  last ← or_raise l.backend.latest_block_number failure
  or_raise (jobs_of l period price last offers) failure

abbrev pub or_nil : Result (List Job) → List Job
or_nil (ok js) = js
or_nil (err _) = []

unfoldable pub auto_pop_up_jobs : Looper → ℕ → Action (List Job)
auto_pop_up_jobs l period = do found ← attempt (find_jobs l period); pure (or_nil found)

-- `ReadBoolSetting`
unfoldable pub is_enabled : Looper → Action Bool
is_enabled l = do
  found ← query plain (λ d. find? (λ s. setting_key_eq s.key offering_auto_pop_up) d.settings)
  s ← or_raise found no_rows
  or_raise (l.parse_bool s.value) failure

abbrev pub when_enabled : Looper → ℕ → Result Bool → Action (List Job)
when_enabled l period (ok true) = auto_pop_up_jobs l period
when_enabled l period _ = pure []

-- `AutoOfferingPopUp`
unfoldable pub auto_offering_pop_up : Looper → ℕ → Action (List Job)
auto_offering_pop_up l period = do enabled ← attempt (is_enabled l); when_enabled l period enabled

-- An active job of the same type for the same record.
unfoldable pub is_similar : Job → Job → Bool
is_similar j row =
    row.related_id == j.related_id
    && (job_type_eq row.type j.type && job_status_eq row.status JobStatus.active)

-- A job is passed over if there is a similar one; the first error ends the iteration.
abbrev pub continue_with : Action (Unit {0}) → Result Job → Action (Unit {0})
continue_with rest (ok _) = rest
continue_with rest (err _) = pure tt

abbrev pub add_unless : Looper → ℕ → Job → Action (Unit {0}) → Result Bool → Action (Unit {0})
add_unless l k j rest (ok true) = rest
add_unless l k j rest (ok false) = attempt (add l.queue plain (l.stamp k) j) >>= continue_with rest
add_unless l k j rest (err _) = pure tt

unfoldable pub add_all : Looper → ℕ → List Job → Action (Unit {0})
add_all l k [] = pure tt
add_all l k (j ∷ js) = do
  found ← attempt (query plain (λ d. any (is_similar j) d.jobs))
  add_unless l k j (add_all l (k + 1) js) found

-- An iteration of `loop`.
unfoldable pub iteration : Looper → ℕ → Action (Unit {0})
iteration l period = do js ← auto_offering_pop_up l period; add_all l 0 js
