-- ===== src/Pay/Monotone.antt =====
-- Receipts only grow, and never beyond the deposit, in whatever order payments are written.
use dappctrl.Base.{ℕ, ◌≤◌, max, ◌≡◌, refl, ap, List, [], ◌∷◌, arith, update_where}
use dappctrl.Data.{Uuid, Base64String, Channel}
use dappctrl.Store.{Db}
use dappctrl.Pay.Server.{is_credited, credited, credit}

-- `c` became `c'` by payments: its receipt grew within the deposit, and nothing else changed but
-- the receipt's signature.
pub record IsRaised (c c' : Channel) : Type 0 where
  pub grown : c.receipt_balance ≤ c'.receipt_balance
  pub covered : c'.receipt_balance ≤ max c.receipt_balance c.total_deposit
  pub rest :
      c'
      ≡ record c { receipt_balance = c'.receipt_balance; receipt_signature = c'.receipt_signature }

abbrev pub AreRaised : List Channel → List Channel → Type 0
AreRaised [] [] = Unit {0}
AreRaised [] (c ∷ cs) = ⊥
AreRaised (c ∷ cs) [] = ⊥
AreRaised (c ∷ cs) (c' ∷ cs') = IsRaised c c' × AreRaised cs cs'

IsRaised-trans : {a b c : Channel} → IsRaised a b → IsRaised b c → IsRaised a c
IsRaised-trans {a} {b} {c} p q = record {
  grown = omega (arith, p.grown, q.grown);
  covered = ground (arith, p.rest, p.covered, q.covered);
  rest = ground (arith, p.rest, q.rest);
}

AreRaised-refl : (cs : List Channel) → AreRaised cs cs
AreRaised-refl [] = tt
AreRaised-refl (c ∷ cs) =
    (record { grown = omega arith; covered = omega arith; rest = refl }, AreRaised-refl cs)

AreRaised-trans : (xs ys zs : List Channel) → AreRaised xs ys → AreRaised ys zs → AreRaised xs zs
AreRaised-trans [] [] [] p q = tt
AreRaised-trans (a ∷ xs) (b ∷ ys) (c ∷ zs) p q =
    (IsRaised-trans p.0 q.0, AreRaised-trans xs ys zs p.1 q.1)
AreRaised-trans [] [] (c ∷ cs) p q = q
AreRaised-trans [] (b ∷ ys) zs p q = absurd p
AreRaised-trans (a ∷ xs) [] zs p q = absurd p
AreRaised-trans (a ∷ xs) (b ∷ ys) [] p q = q

credit-AreRaised :
    (id : Uuid) (balance : ℕ) (sig : Base64String) (cs : List Channel)
    → AreRaised cs (update_where (is_credited id balance) (credited balance sig) cs)
unfolding update_where is_credited credited
credit-AreRaised id balance sig [] = tt
credit-AreRaised id balance sig (c ∷ cs) = (
  record { grown = ground arith; covered = ground arith; rest = ground arith },
  credit-AreRaised id balance sig cs,
)

-- The statements that handlers have sent to the database, in the order in which it ran them: the
-- reads of different payments may stand between them in any way.
pub data Payments (d : Db) : Db → Type 0 where
  none_yet : Payments d d
  then_credit :
      {e : Db} (id : Uuid) (balance : ℕ) (sig : Base64String)
      → Payments d e
      → Payments d (credit id balance sig e)

-- However payments interleave, every channel's receipt only grows, stays within the deposit if it
-- was, and no other column than the receipt's signature changes.
pub Payments-AreRaised : {d e : Db} → Payments d e → AreRaised d.channels e.channels
unfolding credit
Payments-AreRaised none_yet = AreRaised-refl _
Payments-AreRaised (then_credit {e = e} id balance sig p) =
    AreRaised-trans _ e.channels _ (Payments-AreRaised p)
      (credit-AreRaised id balance sig e.channels)

-- A payment that was credited is not credited again.
pub credit_twice :
    (id : Uuid) (balance : ℕ) (sig sig' : Base64String) (d : Db)
    → credit id balance sig' (credit id balance sig d) ≡ credit id balance sig d
unfolding credit update_where is_credited credited
credit_twice id balance sig sig' d = ap (λ cs. record d { channels = cs }) (twice d.channels)
  where
    twice :
        (cs : List Channel)
        → update_where
            (is_credited id balance)
            (credited balance sig')
            (update_where (is_credited id balance) (credited balance sig) cs)
          ≡ update_where (is_credited id balance) (credited balance sig) cs
    twice [] = refl
    twice (c ∷ cs) = ground (arith, twice cs)
