-- ===== src/Job/Subscribe.antt =====
-- job/queue.go: subscriptions to job results.
pub mod Laws
use dappctrl.Base.{
  ℕ, Bool, true, false, Option, none, some, List, [], ◌∷◌, ◌++◌, ◌==◌, if◌then◌else◌, any,
}
use dappctrl.Data.{Error}
use dappctrl.Data.Error.{subscription_exists, subscription_not_found}

-- A key is a job type or a related object's id; the model numbers both.
abbrev pub Key : Type 0
Key = ℕ

abbrev pub SubId : Type 0
SubId = ℕ

-- A callback is known by a number.
pub record SubEntry : Type 0 where
  pub sub_id : SubId
  pub sub_func : ℕ

-- `map[string][]subEntry`: a missing key is `none`.
abbrev pub Subs : Type 0
Subs = Key → Option (List SubEntry)

abbrev pub put : Key → List SubEntry → Subs → Subs
put k l m j = if k == j then some l else m j

-- Ranging over a missing key's slice, or appending to it, is as for an empty one.
abbrev pub or_empty : Option (List SubEntry) → List SubEntry
or_empty none = []
or_empty (some l) = l

abbrev pub entries : Subs → Key → List SubEntry
entries m k = or_empty (m k)

abbrev pub has_id : SubId → List SubEntry → Bool
has_id id l = any (λ e. e.sub_id == id) l

-- `none` is the nil error.
unfoldable pub subscribe : Key → SubEntry → Subs → Option Error × Subs
subscribe k e m =
    if has_id e.sub_id (entries m k)
    then (some subscription_exists, m)
    else (none, put k (entries m k ++ e ∷ []) m)

-- `append(subs[:i], subs[i+1:]...)` at the first entry of the subscriber.
unfoldable pub remove_id : SubId → List SubEntry → List SubEntry
remove_id id [] = []
remove_id id (e ∷ l) = if e.sub_id == id then l else e ∷ remove_id id l

-- The slice that is left is never nil, so the key stays.
unfoldable pub unsubscribe : Key → SubId → Subs → Option Error × Subs
unsubscribe k id m =
    if has_id id (entries m k)
    then (none, put k (remove_id id (entries m k)) m)
    else (some subscription_not_found, m)

-- Taking back the subscriptions made so far, whatever comes of it.
unfoldable pub rollback : List Key → SubId → Subs → Subs
rollback [] id m = m
rollback (k ∷ ks) id m = rollback ks id (unsubscribe k id m).1

-- The loop of `Subscribe`; `made` are the keys before the current one.
unfoldable pub subscribe_loop : List Key → List Key → SubEntry → Subs → Option Error × Subs
subscribe_loop made [] e m = (none, m)
subscribe_loop made (k ∷ ks) e m =
    let rest = subscribe_loop (made ++ k ∷ []) ks e (subscribe k e m).1 in
    elim (subscribe k e m).0 [ none ↦ rest | some x ↦ (some x, rollback made e.sub_id m) ]

unfoldable pub subscribe_all : List Key → SubEntry → Subs → Option Error × Subs
unfolding subscribe_loop
subscribe_all ks e m = subscribe_loop [] ks e m

abbrev first_error : Option Error → Option Error → Option Error
first_error none y = y
first_error (some x) y = some x

unfoldable pub unsubscribe_loop : Option Error → List Key → SubId → Subs → Option Error × Subs
unsubscribe_loop x [] id m = (x, m)
unsubscribe_loop x (k ∷ ks) id m =
    let (y, m') = unsubscribe k id m in unsubscribe_loop (first_error x y) ks id m'

unfoldable pub unsubscribe_all : List Key → SubId → Subs → Option Error × Subs
unfolding unsubscribe_loop
unsubscribe_all ks id m = unsubscribe_loop none ks id m

-- The callbacks that a finished job calls: those of its object, then those of its type.
unfoldable pub notified : Key → Key → Subs → List SubEntry
notified related ty m = entries m related ++ entries m ty
