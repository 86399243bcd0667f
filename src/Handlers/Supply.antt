-- ===== src/Handlers/Supply.antt =====
-- proc/worker/client.go: the current supply of an offering, as the client counts it.
use dappctrl.Base.{◌+◌, ◌%◌, ◌^◌, ◌==◌, ltb, if◌then◌else◌}
use dappctrl.Data.{Offering, Job, decrement_current_supply, increment_current_supply}
use dappctrl.Data.Error.{worker}
use dappctrl.Data.WorkerError.{parse_offering_hash, psc_offering_supply, offering_not_found}
use dappctrl.Store.{Result, ok, err, Action, ◌>>=◌, pure, raise, attempt}
use dappctrl.Handlers.Env.{Worker, refuse}
use dappctrl.Handlers.Select.{related_offering}
use dappctrl.Handlers.Misc.{save_offering_record}
use dappctrl.Handlers.Channels.{supply_down, supply_up}

-- `updateOfferingSupplyFromChain`
unfoldable pub supply_from_chain : Worker → Offering → Action (Unit {0})
supply_from_chain h o = do
  hash ← refuse (h.to_hash o.hash) parse_offering_hash
  info ← refuse (h.backend.psc_get_offering_info hash) psc_offering_supply
  save_offering_record (record o { current_supply = info.current_supply })

unfoldable pub decrement : Worker → Offering → Action (Unit {0})
decrement h o =
    if o.current_supply == 0 then supply_from_chain h o else save_offering_record (supply_down o)

-- The sum is taken in uint16.
unfoldable pub increment : Worker → Offering → Action (Unit {0})
increment h o =
    if ltb o.supply ((o.current_supply + 1) % 2 ^ 16)
    then supply_from_chain h o
    else save_offering_record (supply_up o)

-- An offering that is not found is skipped.
abbrev pub skip_unknown : (Offering → Action (Unit {0})) → Result Offering → Action (Unit {0})
skip_unknown f (ok o) = f o
skip_unknown f (err (worker offering_not_found)) = pure tt
skip_unknown f (err e) = raise e

-- `DecrementCurrentSupply`
unfoldable pub decrement_current_supply_job : Worker → Job → Action (Unit {0})
decrement_current_supply_job h j = do
  found ← attempt (related_offering j decrement_current_supply)
  skip_unknown (decrement h) found

-- `IncrementCurrentSupply`
unfoldable pub increment_current_supply_job : Worker → Job → Action (Unit {0})
increment_current_supply_job h j = do
  found ← attempt (related_offering j increment_current_supply)
  skip_unknown (increment h) found
