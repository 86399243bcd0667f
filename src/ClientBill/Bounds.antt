-- ===== src/ClientBill/Bounds.antt =====
-- What a cheque may be for, and when one is due.
use dappctrl.Base.{
  ℕ, ◌+◌, ◌-◌, ◌/◌, ◌≤◌, ◌<◌, max, ◌≡◌, ◌↔◌, refl, true, List, [], ◌∷◌, map, arith, ◌==◌,
  if◌then◌else◌, update_where,
}
use dappctrl.Base.Int.{pos, ◌-ℤ◌, quot, leb_ℤ}
use native.Mathlib.Nat.{zero-div, le-div_iff_mul-le}
use dappctrl.Data.{Uuid, Channel, Offering}
use dappctrl.Store.{Db}
use dappctrl.ClientBill.Monitor.{lag, is_overdue}
use dappctrl.ClientBill.Cheque.{is_behind, receipted, record_receipt}

pub quot_of_pos : (n d : ℕ) → quot (pos n) d ≡ pos (n / d)
unfolding quot
quot_of_pos n d = ground (arith, zero-div d)

pub sub_of_le : (a b : ℕ) → b ≤ a → (pos a -ℤ pos b) ≡ pos (a - b)
unfolding ◌-ℤ◌
sub_of_le a b h = ground arith

at_least_interval :
    (q consumed interval : ℕ)
    → 0 < interval
    → (leb_ℤ (pos 1) (quot (pos consumed -ℤ pos q) interval) ≡ true) ↔ (q + interval ≤ consumed)
unfolding quot ◌-ℤ◌
at_least_interval q consumed interval h = (
  λ t. ground (arith, zero-div interval, (le-div_iff_mul-le {x = 1} {y = consumed - q} h).0),
  λ t. ground (arith, zero-div interval, (le-div_iff_mul-le {x = 1} {y = consumed - q} h).1),
)

-- A cheque is due exactly when the units consumed exceed those paid for, beyond the setup fee, by a
-- billing interval.
pub is_overdue_iff :
    (ch : Channel) (offer : Offering) (consumed : ℕ)
    → 0 < offer.unit_price
    → 0 < offer.billing_interval
    → offer.setup_price ≤ ch.receipt_balance
    → (is_overdue ch offer consumed ≡ true) ↔ (
        (ch.receipt_balance - offer.setup_price) / offer.unit_price + offer.billing_interval
        ≤ consumed)
unfolding is_overdue lag
is_overdue_iff ch offer consumed p i s =
    rw
      (
        sub_of_le ch.receipt_balance offer.setup_price s,
        quot_of_pos (ch.receipt_balance - offer.setup_price) offer.unit_price,
      )
      (at_least_interval _ consumed offer.billing_interval i)

-- The statement that records a receipt sets the larger of the two balances in the channel's row.
pub record_receipt-max :
    (id : Uuid) (amount : ℕ) (d : Db)
    → (record_receipt id amount d).channels
      ≡ map
          (λ c.
            if c.id == id then record c { receipt_balance = max c.receipt_balance amount } else c)
          d.channels
unfolding record_receipt update_where is_behind receipted
record_receipt-max id amount d = rows d.channels
  where
    rows :
        (cs : List Channel)
        → update_where (is_behind id amount) (receipted amount) cs
          ≡ map
              (λ c.
                if c.id == id
                then record c { receipt_balance = max c.receipt_balance amount }
                else c)
              cs
    rows [] = refl
    rows (c ∷ cs) = ground (arith, rows cs)
