-- ===== src/Data/Price.antt =====
-- data/misc.go: the price of consumed units.
use dappctrl.Base.{ℕ, ◌+◌, ◌*◌, ◌%◌, ◌^◌}
use dappctrl.Data.Schema.{Offering}

-- `ComputePrice`, in uint64.
unfoldable pub compute_price : Offering → ℕ → ℕ
compute_price offering units =
    (units * offering.unit_price % 2 ^ 64 + offering.setup_price) % 2 ^ 64
