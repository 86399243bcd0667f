-- ===== src/Handlers/Counted.antt =====
-- The client's count of an offering's current supply stays within the supply.
use dappctrl.Base.{
  ◌+◌, ◌%◌, ◌^◌, ◌≤◌, ◌<◌, ◌≡◌, refl, sym, subst, Bool, Bool-cases, inl, inr, some, List, [], ◌∷◌,
  All, any, find?, update_where, ◌==◌, ltb, arith,
}
use dappctrl.Data.{Offering, Job, Hash, JobType}
use dappctrl.Store.{Db, World, Result, ok, err, Action, ◌>>=◌, attempt, exec, on_error, pure, raise}
use dappctrl.Store.Frames.{Keeps}
use dappctrl.Store.Ensures.{Ends, >>=-Ends}
use dappctrl.Handlers.Env.{Worker, OfferingInfo}
use dappctrl.Handlers.Select.{related_offering}
use dappctrl.Handlers.Misc.{save_offering, save_offering_record}
use dappctrl.Handlers.Channels.{supply_down, supply_up}
use dappctrl.Handlers.Supply.{
  supply_from_chain, decrement, increment, skip_unknown, decrement_current_supply_job,
  increment_current_supply_job,
}
use dappctrl.Handlers.Found.{
  refuse-Keeps, refuse-Ensures, related_offering-Ensures, related_offering-Keeps,
}

-- The columns are of 16 bits.
abbrev pub IsWithin : Offering → Type 0
IsWithin o = (o.current_supply ≤ o.supply) × (o.supply < 2 ^ 16)

-- The contract never has more of an offering left than its supply.
abbrev pub IsHonest : Worker → Offering → Type 0
IsHonest h o =
    (hash : Hash) (info : OfferingInfo)
    → h.to_hash o.hash ≡ some hash
    → h.backend.psc_get_offering_info hash ≡ some info
    → info.current_supply ≤ o.supply

module _ (P : Offering → Type 0) where
  find?-All :
      (p : Offering → Bool) (l : List Offering) (o : Offering) → All P l → find? p l ≡ some o → P o
  unfolding find?
  find?-All p [] o a e = absurd cc
  find?-All p (x ∷ l) o a e = elim (Bool-cases (p x)) [
    | inl t ↦ subst P (ground arith) a.0
    | inr f ↦ find?-All p l o a.1 (ground arith)
  ]

  update_where-All :
      (p : Offering → Bool) (o : Offering) (l : List Offering)
      → All P l
      → P o
      → All P (update_where p (λ _. o) l)
  unfolding update_where
  update_where-All p o [] a q = tt
  update_where-All p o (x ∷ l) a q = elim (Bool-cases (p x)) [
    | inl t ↦ (rw t q, update_where-All p o l a.1 q)
    | inr f ↦ (rw f a.0, update_where-All p o l a.1 q)
  ]

  save_offering-All :
      (o : Offering) (d : Db) → All P d.offerings → P o → All P (save_offering o d).offerings
  save_offering-All o d a q = elim (Bool-cases (any (λ x. x.id == o.id) d.offerings)) [
    | inl t ↦ rw t (update_where-All _ o d.offerings a q)
    | inr f ↦ rw f (q, a)
  ]

-- Whatever the outcome, the offerings are as `P` says.
abbrev Leaves : {A : Type 0} → Action A → World → (Offering → Type 0) → Type 0
Leaves m w P = Ends m w (λ d. All P d.offerings)

module _ {P : Offering → Type 0} where
  save-Leaves :
      (o : Offering) (w : World) → All P w.db.offerings → P o → Leaves (save_offering_record o) w P
  unfolding save_offering_record on_error exec
  save-Leaves o w a q = elim (Bool-cases (w.fails w.calls)) [
    | inl t ↦ record { ends = rw t a }
    | inr f ↦ record { ends = rw f (save_offering-All P o w.db a q) }
  ]

from_chain-Leaves :
    (h : Worker) (o : Offering) (w : World)
    → All IsWithin w.db.offerings
    → IsWithin o
    → IsHonest h o
    → Leaves (supply_from_chain h o) w IsWithin
unfolding supply_from_chain
from_chain-Leaves h o w a q k =
    >>=-Ends _ _ _ w a (refuse-Keeps _ _) (refuse-Ensures _ _ w) λ hash w1 e1 q1.
      let a1 = subst (λ d. All IsWithin d.offerings) (sym e1) a in
      >>=-Ends _ _ _ w1 a1 (refuse-Keeps _ _) (refuse-Ensures _ _ w1) λ info w2 e2 q2.
        save-Leaves _ w2 (subst (λ d. All IsWithin d.offerings) (sym e2) a1)
          (k hash info q1.0 q2.0, q.1)

decrement-Leaves :
    (h : Worker) (o : Offering) (w : World)
    → All IsWithin w.db.offerings
    → IsWithin o
    → IsHonest h o
    → Leaves (decrement h o) w IsWithin
unfolding decrement supply_down
decrement-Leaves h o w a q k = elim (Bool-cases (o.current_supply == 0)) [
  | inl t ↦ rw t (from_chain-Leaves h o w a q k)
  | inr f ↦ rw f (save-Leaves _ w a (ground arith, q.1))
]

increment-Leaves :
    (h : Worker) (o : Offering) (w : World)
    → All IsWithin w.db.offerings
    → IsWithin o
    → IsHonest h o
    → Leaves (increment h o) w IsWithin
unfolding increment supply_up
increment-Leaves h o w a q k = elim (Bool-cases (ltb o.supply ((o.current_supply + 1) % 2 ^ 16))) [
  | inl t ↦ rw t (from_chain-Leaves h o w a q k)
  | inr f ↦ rw f (save-Leaves _ w a (ground arith, q.1))
]

skip-Leaves :
    (h : Worker) (f : Offering → Action (Unit {0})) (j : Job) (r : Result Offering) (w : World)
    → All IsWithin w.db.offerings
    → ((o : Offering) → r ≡ ok o → Leaves (f o) w IsWithin)
    → Leaves (skip_unknown f r) w IsWithin
unfolding pure raise
skip-Leaves h f j (ok o) w a k = k o refl
skip-Leaves h f j (err e) w a k = record { ends = ground (arith, a) }

module _ (h : Worker) (j : Job) (ty : JobType) (f : Offering → Action (Unit {0}))
    (step : (o : Offering) (w : World)
      → All IsWithin w.db.offerings
      → IsWithin o
      → IsHonest h o
      → Leaves (f o) w IsWithin) where
  related-Leaves :
      (w : World)
      → All IsWithin w.db.offerings
      → All (IsHonest h) w.db.offerings
      → Leaves (attempt (related_offering j ty) >>= skip_unknown f) w IsWithin
  unfolding ◌>>=◌ attempt
  related-Leaves w a k = record {
    ends =
        (skip-Leaves h f j (related_offering j ty w).0 (related_offering j ty w).1
          (subst (λ d. All IsWithin d.offerings) (sym ((related-Keeps).keeps w)) a)
          λ o e.
            let (found, same) = (related_offering-Ensures j ty w).holds o e in
            step o _ (subst (λ d. All IsWithin d.offerings) (sym ((related-Keeps).keeps w)) a)
              (find?-All IsWithin _ w.db.offerings o a found)
              (find?-All (IsHonest h) _ w.db.offerings o k found)).ends;
  }
    where
      related-Keeps : Keeps (related_offering j ty)
      related-Keeps = related_offering-Keeps j ty

-- Where no offering counts more than its supply, and by the node's word the contract never has more
-- left of one, a job that counts an offering's supply down leaves none that does, whatever fails.
decrement_current_supply_job-IsWithin :
    (h : Worker) (j : Job) (w : World)
    → All IsWithin w.db.offerings
    → All (IsHonest h) w.db.offerings
    → All IsWithin (decrement_current_supply_job h j w).1.db.offerings
unfolding decrement_current_supply_job
decrement_current_supply_job-IsWithin h j w a k =
    (related-Leaves h j _ (decrement h) (decrement-Leaves h) w a k).ends

-- Likewise a job that counts it up.
increment_current_supply_job-IsWithin :
    (h : Worker) (j : Job) (w : World)
    → All IsWithin w.db.offerings
    → All (IsHonest h) w.db.offerings
    → All IsWithin (increment_current_supply_job h j w).1.db.offerings
unfolding increment_current_supply_job
increment_current_supply_job-IsWithin h j w a k =
    (related-Leaves h j _ (increment h) (increment-Leaves h) w a k).ends

-- Where no offering counts more than its supply, and by the node's word the contract never has more
-- left of one, neither the job that counts an offering's supply down nor the one that counts it up
-- leaves an offering that does, whatever fails.
pub supply_jobs-IsWithin :
    (h : Worker) (j : Job) (w : World)
    → All IsWithin w.db.offerings
    → All (IsHonest h) w.db.offerings
    → All IsWithin (decrement_current_supply_job h j w).1.db.offerings
      × All IsWithin (increment_current_supply_job h j w).1.db.offerings
supply_jobs-IsWithin h j w a k = (
  decrement_current_supply_job-IsWithin h j w a k,
  increment_current_supply_job-IsWithin h j w a k,
)
