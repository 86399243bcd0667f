-- ===== src/ClientBill/Round.antt =====
-- What a round of the client's monitor does with a channel.
use dappctrl.Base.{
  ℕ, min, ◌≡◌, refl, ◌∙◌, true, false, Option, none, some, arith, ◌==◌, find?, ==_iff, find?-sound,
}
use dappctrl.Data.{Channel, Offering, compute_price, JobCreator, client_pre_service_terminate}
use dappctrl.Store.{Db, ok, answering, monad}
use dappctrl.Store.Ensures.{Ensures}
use dappctrl.Proc.Outcome.{conflicting}
use dappctrl.Proc.Verdict.{verdict, alter_service_status-verdict}
use dappctrl.Proc.Exclusive.{Only, terminate_channel-Only}
use dappctrl.Proc.Channel.{terminate_channel, terminate_transitions}
use dappctrl.ClientBill.Queries.{max_deposit_reached, consumed_units}
use dappctrl.ClientBill.Monitor.{Round, is_to_be_terminated, process_channel}

-- A cheque's amount: the price of what was consumed, up to the deposit, for a channel whose deposit
-- is not used up.
pub record IsCheque (ch : Channel) (d : Db) (amount : ℕ) : Type 0 where
  pub offer : Offering
  pub found : find? (λ o. o.id == ch.offering) d.offerings ≡ some offer
  pub bounded : amount ≡ min (compute_price offer (consumed_units ch.id d)) ch.total_deposit
  pub unpaid : max_deposit_reached ch ≡ false

abbrev pub Cheques : Channel → Db → Option ℕ → Type 0
Cheques ch d none = Unit {0}
Cheques ch d (some amount) = IsCheque ch d amount

terminate_accepted :
    (r : Round) (ch row : Channel) (d : Db)
    → find? (λ c. c.id == ch.id) d.channels ≡ some row
    → terminate_transitions row.service_status ≡ true
    → conflicting ch.id (some client_pre_service_terminate) d.jobs ≡ false
    → (terminate_channel r.queue r.stamp ch.id JobCreator.billing_checker false
        (record (answering d) { calls = 1 })).0
      ≡ ok r.stamp.uuid
unfolding terminate_channel
terminate_accepted r ch row d f t n =
    alter_service_status-verdict r.queue r.stamp ch.id JobCreator.billing_checker
      client_pre_service_terminate (some client_pre_service_terminate) terminate_transitions true d
      1 refl
    ∙ allowed
  where
    same : row.id ≡ ch.id
    same = (==_iff _ _).0 (find?-sound _ d.channels row f)

    allowed :
        verdict r.stamp ch.id (some client_pre_service_terminate) terminate_transitions d
        ≡ ok r.stamp.uuid
    allowed = unfold verdict in ground (arith, f, t, same, n)

-- Where the offering is found, the deposit is used up, the service may be terminated and no
-- termination is under way, a round whose database calls are answered posts no cheque and leaves
-- the client's termination as the only active job of the channel.
pub process_channel-terminates :
    (r : Round) (ch row : Channel) (offer : Offering) (d : Db)
    → find? (λ o. o.id == ch.offering) d.offerings ≡ some offer
    → max_deposit_reached ch ≡ true
    → find? (λ c. c.id == ch.id) d.channels ≡ some row
    → terminate_transitions row.service_status ≡ true
    → conflicting ch.id (some client_pre_service_terminate) d.jobs ≡ false
    → ((process_channel r ch (answering d)).0 ≡ ok none)
      × Only ch.id client_pre_service_terminate r.stamp.uuid
          (process_channel r ch (answering d)).1.db.jobs
unfolding process_channel is_to_be_terminated monad
process_channel-terminates r ch row offer d o m f t n =
    let accepted = terminate_accepted r ch row d f t n in
    let only =
      terminate_channel-Only r.queue r.stamp ch.id JobCreator.billing_checker
        (record (answering d) { calls = 1 }) r.stamp.uuid false accepted in
    rw o (rw m (rw accepted (refl, only)))
