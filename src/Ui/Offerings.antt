-- ===== src/Ui/Offerings.antt =====
-- ui/offering.go: an agent's offerings.
use dappctrl.Base.{
  ℕ, Bool, false, not, ◌&&◌, ◌||◌, Option, none, some, List, ◌∷◌, any, find?, select, length, ◌==◌,
  update_where,
}
use dappctrl.Data.{
  Uuid, Text, Account, Template, Offering, OfferStatus, postpaid, JobType, RelatedType, publish,
  agent_pre_offering_msg_bc_publish, agent_pre_offering_pop_up, agent_pre_offering_delete,
}
use dappctrl.Data.Error.{ui}
use dappctrl.Data.UiError.{
  internal, bad_offering_status_action, offering_not_found, account_not_found, template_not_found,
}
use dappctrl.Store.{
  Db, Querier, plain, Action, ◌>>=◌, ◌>>◌, pure, require, or_raise, on_error, exec, exec_count,
}
use dappctrl.Ui.Env.{Handler}
use dappctrl.Ui.Access.{check_token, find_row, select_rows, page}
use dappctrl.Ui.Channels.{add_user_job}

pub data OfferingAction : Type 0 where
  publish_offering popup_offering deactivate_offering other_action : OfferingAction

-- `OfferingChangeActions`
unfoldable pub offering_change_actions : OfferingAction → Option JobType
offering_change_actions publish_offering = some agent_pre_offering_msg_bc_publish
offering_change_actions popup_offering = some agent_pre_offering_pop_up
offering_change_actions deactivate_offering = some agent_pre_offering_delete
offering_change_actions other_action = none

abbrev pub offering_of : Uuid → Db → Option Offering
offering_of id d = find? (λ o. o.id == id) d.offerings

-- `ChangeOfferingStatus`
unfoldable pub change_offering_status :
    Handler → Text → Uuid → OfferingAction → ℕ → Action (Unit {0})
change_offering_status h tkn id action gas = do
  check_token h tkn
  ty ← or_raise (offering_change_actions action) (ui bad_offering_status_action)
  find_row offering_not_found (offering_of id)
  on_error (ui internal) (add_user_job h ty RelatedType.offering id (publish gas))

abbrev pub offer_status_code : OfferStatus → ℕ
offer_status_code OfferStatus.empty = 0
offer_status_code OfferStatus.registering = 1
offer_status_code OfferStatus.registered = 2
offer_status_code OfferStatus.popping_up = 3
offer_status_code OfferStatus.popped_up = 4
offer_status_code OfferStatus.removing = 5
offer_status_code OfferStatus.removed = 6

abbrev is_used : Option Account → Bool
is_used none = false
is_used (some a) = a.in_use

-- `getAgentOfferingsConditions`; the empty product and an empty list are no condition.
unfoldable pub is_agents_offering : Uuid → List OfferStatus → Db → Offering → Bool
is_agents_offering product ss d o =
    (product == 0 || o.product == product)
    && ((length ss == 0 || any (λ s. offer_status_code s == offer_status_code o.status) ss)
        && is_used (find? (λ a. a.eth_addr == o.agent) d.accounts))

-- `GetAgentOfferings`
unfoldable pub get_agent_offerings :
    Handler → Text → Uuid → List OfferStatus → ℕ → ℕ → Action (List Offering × ℕ)
get_agent_offerings h tkn product ss offset limit = do
  check_token h tkn
  total ← select_rows (λ d. length (select (is_agents_offering product ss d) d.offerings))
  rows ←
      select_rows
        (λ d. page offset limit (h.newest (select (is_agents_offering product ss d) d.offerings)))
  pure (rows, total)

-- `setOfferingHash`
unfoldable pub set_offering_hash : Handler → Offering → Template → Account → Action Offering
set_offering_hash h o t agent = do
  key ← or_raise (h.get_key h.memory.password agent) (ui internal)
  packed ← or_raise (h.packed_offering agent t o key) (ui internal)
  pure (record o { raw_msg = h.of_bytes packed; hash = h.keccak packed })

-- `fillOffering`: the agent of what is asked for is the key of its account.
unfoldable pub fill_offering : Handler → Offering → Action Offering
fill_offering h o = do
  agent ← find_row account_not_found (λ d. find? (λ a. a.id == o.agent) d.accounts)
  t ← find_row template_not_found (λ d. find? (λ t. t.id == o.template) d.templates)
  set_offering_hash h
      (record o {
        id = h.new_id;
        status = OfferStatus.empty;
        agent = agent.eth_addr;
        block_number_updated = 1;
        current_supply = o.supply;
        billing_type = postpaid;
      })
      t agent

-- `update` of a row: none with the key is an error like any other.
unfoldable pub update_rows : Querier → (Db → Db) → (Db → ℕ) → Action (Unit {0})
update_rows q f n = do
  changed ← on_error (ui internal) (exec_count q f n)
  require (not (changed == 0)) (ui internal)

-- `UpdateOffering`
unfoldable pub update_offering_row : Handler → Text → Offering → Action (Unit {0})
update_offering_row h tkn o = do
  check_token h tkn
  find_row offering_not_found (offering_of o.id)
  update_rows plain
      (λ d. record d { offerings = update_where (λ x. x.id == o.id) (λ _. o) d.offerings })
      (λ d. length (select (λ x. x.id == o.id) d.offerings))

-- `CreateOffering`. Every unit type and billing type of the model is one that `prepareOffering`
-- accepts.
unfoldable pub create_offering : Handler → Text → Offering → Action Uuid
create_offering h tkn asked = do
  check_token h tkn
  o ← fill_offering h asked
  on_error (ui internal) (exec plain (λ d. record d { offerings = o ∷ d.offerings }))
  pure o.id
