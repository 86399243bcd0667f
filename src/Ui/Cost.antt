-- ===== src/Ui/Cost.antt =====
-- The two ways in which the user is told a channel's usage agree but for the setup price.
use dappctrl.Base.{
  ◌≡◌, refl, ap, ◌∙◌, ◌≤◌, ◌<◌, ℕ, ◌+◌, ◌-◌, ◌*◌, ◌/◌, ◌%◌, ◌^◌, false, Option, some, none, List,
  [], ◌∷◌, arith, ltb, ◌==◌, if◌then◌else◌, ◌&&◌, subst,
}
use dappctrl.Data.{Uuid, UnitType, units, seconds, Offering, Channel, Session, compute_price}
use dappctrl.Store.{Db, World, ok, pure, require, ◌>>=◌}
use dappctrl.Ui.Usage.{
  Usage, accumulated, sum_of, sql_quotient, sessions_in, usage_row, new_usage, scanned, usage_with,
}

accumulated_lem : (ty : UnitType) (l : List Session) → accumulated ty l ≡ sum_of ty l % 2 ^ 64
unfolding accumulated sum_of
accumulated_lem ty [] = refl
accumulated_lem ty (s ∷ l) = omega (arith, accumulated_lem ty l)

wrapped_lem : (a b : ℕ) → a < 2 ^ 64 → b ≤ a → (a + 2 ^ 64 - b) % 2 ^ 64 ≡ a - b
wrapped_lem a b h k = omega arith

quotient_lem :
    (a b c q : ℕ)
    → a < 2 ^ 64
    → b ≤ a
    → sql_quotient a b c ≡ some q
    → ((c == 0) ≡ false) × ((a + 2 ^ 64 - b) % 2 ^ 64 / c ≡ q)
unfolding sql_quotient
quotient_lem a b c q h k e = (ground arith, ap (λ x. x / c) (wrapped_lem a b h k) ∙ ground arith)

cost_lem : (s x p : ℕ) → (s + x * p % 2 ^ 64) % 2 ^ 64 ≡ (x * p % 2 ^ 64 + s) % 2 ^ 64
cost_lem s x p = ap (λ n. n % 2 ^ 64) (omega arith)

-- The usage of the list of channels, from that of the query for many channels.
abbrev pub with_setup : Offering → Usage → Usage
with_setup o u = record u { cost = (u.cost + o.setup_price) % 2 ^ 64 }

-- A row that is read has sums that fit and a quotient.
fits_lem :
    (a b : ℕ) (r : Option (Uuid × Usage)) (x : Uuid × Usage)
    → (if ltb a (2 ^ 64) && ltb b (2 ^ 64) then r else none) ≡ some x
    → (a < 2 ^ 64) × ((b < 2 ^ 64) × (r ≡ some x))
fits_lem a b r x e = ground arith

scanned_lem :
    (id' : Uuid) (o : Offering) (used : ℕ) (limit : Option ℕ) (id : Uuid) (u : Usage)
    → scanned id' o used limit ≡ some (id, u)
    → (n : ℕ) × ((limit ≡ some n) × (usage_with o used n ≡ u))
unfolding scanned
scanned_lem id' o used none id u e = cc
scanned_lem id' o used (some n) id u e = (n, (refl, cc))

fits_type :
    (ty : UnitType) (l : List Session)
    → sum_of seconds l < 2 ^ 64
    → sum_of units l < 2 ^ 64
    → sum_of ty l < 2 ^ 64
fits_type units l h k = k
fits_type seconds l h k = h

mod_lem : (n : ℕ) → n < 2 ^ 64 → n % 2 ^ 64 ≡ n
mod_lem n h = omega arith

new_usage-made :
    (c : Channel) (o : Offering) (l : List Session) (used n : ℕ) (w : World)
    → accumulated o.unit_type l ≡ used
    → (o.unit_price == 0) ≡ false
    → (c.total_deposit + 2 ^ 64 - o.setup_price) % 2 ^ 64 / o.unit_price ≡ n
    → new_usage c o l w ≡ (ok (with_setup o (usage_with o used n)), w)
unfolding new_usage ◌>>=◌ pure require
new_usage-made c o l used n w a z q =
    rw z (rw a (rw q (rw (cost_lem o.setup_price used o.unit_price) refl)))

-- For a deposit that covers the setup price, what a client's list of channels says of a channel's
-- usage is what the query for many channels says of it, but for the setup price, which is added to
-- the cost; and then the cost is what `compute_price` takes for the units.
pub new_usage-usage_row :
    (d : Db) (c : Channel) (o : Offering) (id : Uuid) (u : Usage) (w : World)
    → c.total_deposit < 2 ^ 64
    → o.setup_price ≤ c.total_deposit
    → usage_row d c (some o) ≡ some (id, u)
    → (new_usage c o (sessions_in d c.id) w ≡ (ok (with_setup o u), w))
      × ((with_setup o u).cost ≡ compute_price o u.current)
unfolding usage_row compute_price
new_usage-usage_row d c o id u w h k e =
    let f = fits_lem _ _ _ _ e in
    let r = scanned_lem c.id o _ _ id u f.1.1 in
    let q = quotient_lem c.total_deposit o.setup_price o.unit_price r.0 h k r.1.0 in
    let a =
      accumulated_lem o.unit_type (sessions_in d c.id)
      ∙ mod_lem _ (fits_type o.unit_type _ f.0 f.1.0) in
    subst
      (λ v.
        (new_usage c o (sessions_in d c.id) w ≡ (ok (with_setup o v), w))
        × ((with_setup o v).cost ≡ compute_price o v.current))
      r.1.1 (new_usage-made c o (sessions_in d c.id) _ r.0 w a q.0 q.1, refl)
