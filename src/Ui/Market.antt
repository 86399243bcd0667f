-- ===== src/Ui/Market.antt =====
-- ui/offering.go: the offerings that a client is shown, and the acceptance of one.
use dappctrl.Base.{
  ℕ, Bool, true, false, not, ◌&&◌, ◌||◌, Option, none, some, List, [], ◌∷◌, any, find?, select,
  length, count_where, min, max, ◌==◌, ltb, leb, if◌then◌else◌, update_where,
}
use dappctrl.Data.{
  Uuid, HexString, Text, Offering, IpType, residential, datacenter, mobile, Rating, RelatedType,
  create, compute_price, client_pre_channel_create, client_min_deposit,
}
use dappctrl.Data.Error.{ui}
use dappctrl.Data.UiError.{
  internal, account_not_found, deposit_too_small, somc_is_not_available, bad_unit_price_range,
}
use dappctrl.Store.{
  Db, Result, ok, err, plain, Action, ◌>>=◌, ◌>>◌, pure, require, when, on_error, attempt, query,
  exec,
}
use dappctrl.Ui.Env.{Handler}
use dappctrl.Ui.Access.{
  check_token, find_row, select_rows, page, is_active_offering, find_active_offering, setting_value,
}
use dappctrl.Ui.Channels.{add_user_job}

-- `computeDeposit`
abbrev pub larger : ℕ → ℕ → ℕ
larger a b = if ltb b a then a else b

abbrev pub at_most : Option ℕ → ℕ → ℕ
at_most none deposit = deposit
at_most (some limit) deposit = if ltb limit deposit then limit else deposit

abbrev pub price_of : Offering → Option ℕ → Option ℕ
price_of o none = none
price_of o (some n) = some (compute_price o n)

unfoldable pub compute_deposit : Offering → ℕ → ℕ
compute_deposit o configured =
    at_most (price_of o o.max_unit) (larger configured (compute_price o o.min_units))

-- `data.GetUint64Setting`: none where it is absent or does not parse; the error is not looked at.
abbrev pub number_of : Handler → Result Text → ℕ
number_of h (err _) = 0
number_of h (ok value) = or_nought (h.parse_uint value)
  where
    or_nought : Option ℕ → ℕ
    or_nought none = 0
    or_nought (some n) = n

-- `pingOffering`
unfoldable pub ping_offering : Handler → Offering → Action (Unit {0})
ping_offering h o = require (h.ping o.somc_type o.somc_data) (ui somc_is_not_available)

-- A deposit of zero stands for the least.
abbrev pub deposit_or_least : ℕ → ℕ → Action ℕ
deposit_or_least least deposit =
    if deposit == 0
    then pure least
    else require (not (ltb deposit least)) (ui deposit_too_small) >> pure deposit

-- `AcceptOffering`
unfoldable pub accept_offering : Handler → Text → HexString → Uuid → ℕ → ℕ → Action Uuid
accept_offering h tkn account id deposit gas = do
  check_token h tkn
  acc ← find_row account_not_found (λ d. find? (λ a. a.eth_addr == account) d.accounts)
  offer ← find_active_offering id
  configured ← attempt (setting_value client_min_deposit)
  chosen ← deposit_or_least (compute_deposit offer (number_of h configured)) deposit
  ping_offering h offer
  on_error (ui internal) (
      add_user_job h client_pre_channel_create RelatedType.channel h.new_id
        (create acc.id id gas chosen))
  pure h.new_id

abbrev ip_type_eq : IpType → IpType → Bool
ip_type_eq residential residential = true
ip_type_eq datacenter datacenter = true
ip_type_eq mobile mobile = true
ip_type_eq _ _ = false

-- What a client looks for; the empty address, a price of zero and an empty list are no condition.
pub record Wanted : Type 0 where
  pub agent : HexString
  pub min_unit_price : ℕ
  pub max_unit_price : ℕ
  pub countries : List Text
  pub ip_types : List IpType

-- `getClientOfferingsConditions`
unfoldable pub is_wanted : Wanted → Db → Offering → Bool
is_wanted q d o =
    (q.agent == 0 || o.agent == q.agent)
    && ((q.min_unit_price == 0 || leb q.min_unit_price o.unit_price)
        && ((q.max_unit_price == 0 || leb o.unit_price q.max_unit_price)
            && ((length q.countries == 0 || any (λ c. c == o.country) q.countries)
                && ((length q.ip_types == 0 || any (λ t. ip_type_eq t o.ip_type) q.ip_types)
                    && is_active_offering d o))))

-- The rating of an offering's agent; the map of ratings in the code is never filled.
unfoldable pub with_ratings : List Offering → Action (List (Offering × ℕ))
with_ratings [] = pure []
with_ratings (o ∷ l) = do
  found ←
      on_error (ui internal)
        (query plain (λ d. find? (λ (r : Rating). r.eth_addr == o.agent) d.ratings))
  rest ← with_ratings l
  pure ((o, val_of found) ∷ rest)
  where
    val_of : Option Rating → ℕ
    val_of none = 0
    val_of (some r) = r.val

unfoldable pub wanted_rows : Handler → Wanted → Db → List Offering
wanted_rows h q d = h.newest (select (is_wanted q d) d.offerings)

-- `GetClientOfferings`
unfoldable pub get_client_offerings :
    Handler → Text → Wanted → ℕ → ℕ → Action (List (Offering × ℕ) × ℕ)
get_client_offerings h tkn q offset limit = do
  check_token h tkn
  require
      (q.min_unit_price == 0 || (q.max_unit_price == 0 || leb q.min_unit_price q.max_unit_price))
      (ui bad_unit_price_range)
  total ← select_rows (λ d. length (select (is_wanted q d) d.offerings))
  rows ← select_rows (λ d. page offset limit (wanted_rows h q d))
  items ← with_ratings rows
  pure (items, total)

-- The active offerings with a country, `offeringCountriesCondition`.
unfoldable pub with_country : Db → List Offering
with_country d = select (λ o. is_active_offering d o && not (o.country == 0)) d.offerings

abbrev in_country : List Offering → Text → ℕ
in_country l c = count_where (λ o. o.country == c) l

unfoldable pub insert_country : List Offering → Text → List Text → List Text
insert_country l c [] = c ∷ []
insert_country l c (x ∷ xs) =
    let rest = insert_country l c xs in
    if ltb (in_country l x) (in_country l c) then c ∷ x ∷ xs else x ∷ rest

-- `offeringCountries`: each country of a list once, those with more offerings first.
unfoldable pub countries_of : List Offering → List Offering → List Text
countries_of l [] = []
countries_of l (o ∷ os) =
    let rest = countries_of l os in
    if any (λ c. c == o.country) rest then rest else insert_country l o.country rest

-- `offeringsMinMaxPrice`: the least and the greatest, or zero of none.
unfoldable pub min_price : List Offering → ℕ
min_price [] = 0
min_price (o ∷ []) = o.unit_price
min_price (o ∷ os) = min o.unit_price (min_price os)

unfoldable pub max_price : List Offering → ℕ
max_price [] = 0
max_price (o ∷ os) = max o.unit_price (max_price os)

abbrev price_range : Db → ℕ × ℕ
price_range d = (min_price (with_country d), max_price (with_country d))

-- `maxRating`
unfoldable pub max_rating : List Rating → ℕ
max_rating [] = 0
max_rating (r ∷ rs) = max r.val (max_rating rs)

pub record FilterParams : Type 0 where
  pub countries : List Text
  pub min_price : ℕ
  pub max_price : ℕ
  pub max_rating : ℕ

-- `GetClientOfferingsFilterParams`; the error of the rating is the driver's own.
unfoldable pub get_client_offerings_filter_params : Handler → Text → Action FilterParams
get_client_offerings_filter_params h tkn = do
  check_token h tkn
  countries ← select_rows (λ d. countries_of (with_country d) (with_country d))
  prices ← select_rows price_range
  rating ← query plain (λ d. max_rating d.ratings)
  pure (record {
    countries = countries;
    min_price = prices.0;
    max_price = prices.1;
    max_rating = rating;
  })

-- A ping that is answered is written to the offering's row; a failing write is only logged.
unfoldable pub save_ping : Handler → Offering → Action (Unit {0})
save_ping h o = do
  attempt (
      exec plain (λ d. record d {
        offerings =
            update_where (λ x. x.id == o.id) (λ _. record o { somc_success_ping = some h.now })
              d.offerings;
      }))
  pure tt

-- `PingOfferings`, with the pings one after the other: they run at the same time as the search for
-- the offerings that follow, and share the map of the results without a lock.
unfoldable pub ping_all : Handler → List Uuid → Action (List (Uuid × Bool))
ping_all h [] = pure []
ping_all h (id ∷ ids) = do
  o ← find_active_offering id
  let up = h.ping o.somc_type o.somc_data
  when up (save_ping h o)
  rest ← ping_all h ids
  pure ((o.id, up) ∷ rest)

unfoldable pub ping_offerings : Handler → Text → List Uuid → Action (List (Uuid × Bool))
ping_offerings h tkn ids = do check_token h tkn; ping_all h ids
