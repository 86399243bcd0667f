-- ===== src/Sess/Units.antt =====
-- Which session a report is for, and what a sequence of reports adds up to.
use dappctrl.Base.{
  ℕ, ◌+◌, ◌-◌, ◌*◌, ◌^◌, ◌≤◌, ◌<◌, ◌≡◌, refl, none, some, List, [], ◌∷◌, All, length, arith,
  Option-cases, inl, inr,
}
use dappctrl.Data.{Session, incremental}
use dappctrl.Sess.Access.{latest}
use dappctrl.Sess.Session.{reported}

All-weaken :
    {A : Type 0} {P Q : A → Type 0} (l : List A) → ((a : A) → P a → Q a) → All P l → All Q l
All-weaken [] f h = tt
All-weaken (a ∷ l) f h = (f a h.0, All-weaken l f h.1)

none_later : (l : List Session) → latest l ≡ none → l ≡ []
unfolding latest
none_later [] e = refl
none_later (s ∷ l) e = cc

pub latest_is_last :
    (l : List Session) (s : Session) → latest l ≡ some s → All (λ t. t.started ≤ s.started) l
unfolding latest
latest_is_last [] s e = tt
latest_is_last (t ∷ l) s e = elim (Option-cases (latest l)) [
  | inl n ↦ rw (none_later l n) (ground arith, tt)
  | inr (r, f) ↦ (ground arith, All-weaken l (λ a h. ground (arith, h)) (latest_is_last l r f))
]

-- The units of a session after reports of so many bytes each.
unfoldable pub after_reports : List ℕ → ℕ → ℕ
after_reports [] used = used
after_reports (n ∷ l) used = after_reports l (reported incremental n used)

unfoldable pub sum : List ℕ → ℕ
sum [] = 0
sum (n ∷ l) = n + sum l

reported_bounds :
    (n used : ℕ)
    → used * 2 ^ 20 + n < 2 ^ 84
    → (reported incremental n used * 2 ^ 20 ≤ used * 2 ^ 20 + n)
      × (used * 2 ^ 20 + n ≤ reported incremental n used * 2 ^ 20 + (2 ^ 20 - 1))
unfolding reported
reported_bounds n used h = ground arith

-- Reports to a product that reports increments never count more than their bytes, and lose less
-- than a mebibyte each, where the count stays within 64 bits.
pub after_reports-sum :
    (l : List ℕ) (used : ℕ)
    → used * 2 ^ 20 + sum l < 2 ^ 84
    → (after_reports l used * 2 ^ 20 ≤ used * 2 ^ 20 + sum l)
      × (used * 2 ^ 20 + sum l ≤ after_reports l used * 2 ^ 20 + length l * (2 ^ 20 - 1))
unfolding after_reports sum
after_reports-sum [] used h = (omega arith, omega arith)
after_reports-sum (n ∷ l) used h =
    let (lo, hi) = reported_bounds n used (omega arith) in
    let (below, above) = after_reports-sum l (reported incremental n used) (omega arith) in
    (omega arith, omega arith)
