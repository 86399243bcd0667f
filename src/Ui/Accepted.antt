-- ===== src/Ui/Accepted.antt =====
-- What an accepted offering asks of the client's handler.
use dappctrl.Base.{
  ◌≡◌, refl, sym, ◌∙◌, ap, subst, ◌⊎◌, inl, inr, ◌≤◌, ℕ, true, not, Option, none, some, ◌∷◌, ltb,
  ◌==◌, arith, min, max, Option-cases, false, Bool-cases, find?, ◌&&◌, ◌+◌,
}
use dappctrl.Data.{
  client_pre_channel_create, JobCreator, RelatedType, Uuid, HexString, Text, Account, Offering, Job,
  Payload, create, compute_price, payload_deposit, client_min_deposit, setting_key_eq, Setting,
  UiError,
}
use dappctrl.Data.Error.{ui}
use dappctrl.Data.UiError.{deposit_too_small}
use dappctrl.Store.{plain, Db, World, ok, Action, require, attempt, monad}
use dappctrl.Store.Ensures.{
  Keeps-Ensures, exec_plain-Ensures, Ensures, Same, >>=-Ensures, require-Ensures, pure-Ensures,
  on_error-Ensures,
}
use dappctrl.Store.Frames.{Keeps, frames}
use dappctrl.Job.Config.{Config, type_config}
use dappctrl.Job.Add.{
  Stamp, add, add_with_data, add_with_data_and_delay, new_job, stamped, insert_job,
}
use dappctrl.Job.Add.Outcome.{check_duplicated-Keeps}
use dappctrl.Handlers.Client.{wanted_deposit}
use dappctrl.Ui.Env.{Handler}
use dappctrl.Ui.Access.{
  find_active_offering, is_active_offering, setting_value, check_token, find_row,
}
use dappctrl.Ui.Channels.{add_user_job}
use dappctrl.Ui.Rules.{setting_value-Keeps, check_token-Ensures, find_row-Ensures}
use dappctrl.Ui.Market.{
  accept_offering, ping_offering, number_of, compute_deposit, deposit_or_least, at_most, price_of,
  larger,
}

-- An offering's greatest number of units costs no less than its least.
abbrev pub IsOrdered : Offering → Type 0
IsOrdered o = (n : ℕ) → o.max_unit ≡ some n → compute_price o o.min_units ≤ compute_price o n

at_most_lem :
    (o : Offering) (m : Option ℕ) (a b : ℕ)
    → b ≤ a
    → ((n : ℕ) → m ≡ some n → b ≤ compute_price o n)
    → b ≤ at_most (price_of o m) a
at_most_lem o none a b h k = h
at_most_lem o (some n) a b h k = elim (Bool-cases (ltb (compute_price o n) a)) [
  | inl t ↦ rw t (k n refl)
  | inr f ↦ rw f h
]

larger_lem : (a b : ℕ) → b ≤ larger a b
larger_lem a b = ground arith

le_trans : (a b c : ℕ) → a ≤ b → b ≤ c → a ≤ c
le_trans a b c h k = omega arith

compute_deposit-enough :
    (o : Offering) (configured : ℕ)
    → IsOrdered o
    → compute_price o o.min_units ≤ compute_deposit o configured
unfolding compute_deposit
compute_deposit-enough o configured k =
    at_most_lem o o.max_unit _ _ (larger_lem configured (compute_price o o.min_units)) k

wanted-enough :
    (o : Offering) (chosen : ℕ)
    → compute_price o o.min_units ≤ chosen
    → compute_price o o.min_units ≤ wanted_deposit o chosen
unfolding wanted_deposit
wanted-enough o chosen k = elim (Bool-cases (chosen == 0)) [
  | inl t ↦ rw t (omega arith)
  | inr f ↦ rw f k
]

-- The deposit that is chosen: the one that was asked for, or the least.
abbrev pub IsChosen : ℕ → ℕ → ℕ → Type 0
IsChosen least asked chosen = (least ≤ chosen) × ((chosen ≡ least) ⊎ (chosen ≡ asked))

deposit_or_least-Ensures :
    (least asked : ℕ) (w : World)
    → Ensures
        (deposit_or_least least asked)
        w
        (λ chosen w'. IsChosen least asked chosen × Same w w')
deposit_or_least-Ensures least asked w = elim (Bool-cases (asked == 0)) [
  | inl t ↦ rw t (pure-Ensures least w ((omega arith, inl refl), record { db = refl; tx = refl }))
  | inr f ↦ rw f (
      >>=-Ensures _ (require (not (ltb asked least)) (ui deposit_too_small)) _ w
        (require-Ensures _ _ w) λ _ w1 q1. pure-Ensures asked w1 ((not_less q1.0, inr refl), q1.1))
]
  where
    not_less : not (ltb asked least) ≡ true → least ≤ asked
    not_less e = ground arith

attempt-Ensures :
    {A : Type 0} (m : Action A) (w : World)
    → Keeps m
    → Ensures (attempt m) w (λ r w'. (r ≡ (m w).0) × (w'.db ≡ w.db))
unfolding attempt
attempt-Ensures m w k = record { holds = λ r e. (cc, k.keeps w) }

added-Ensures :
    (conf : Config) (s : Stamp) (j : Job) (w : World)
    → Ensures
        (add conf plain s j)
        w
        (λ _ w'. w'.db ≡ insert_job (stamped (type_config conf j) s j) w.db)
unfolding add
added-Ensures conf s j w =
    >>=-Ensures (λ _ w1. w1.db ≡ w.db) _ _ w
      (Keeps-Ensures _ w (search (frames, check_duplicated-Keeps j)))
      λ _ w1 q1.
        >>=-Ensures _ _ _ w1 (on_error-Ensures _ _ w1 (exec_plain-Ensures _ w1)) λ _ w2 q2.
          pure-Ensures _ w2 (q2.0 ∙ ap (insert_job (stamped (type_config conf j) s j)) q1)

-- The least deposit that the tables ask for: the greater of the setting and the price of the least
-- units, but no more than the price of the greatest number of units.
abbrev pub up_to : Offering → Option ℕ → ℕ → ℕ
up_to o none n = n
up_to o (some units) n = min (compute_price o units) n

abbrev pub least_deposit : Offering → ℕ → ℕ
least_deposit o configured = up_to o o.max_unit (max configured (compute_price o o.min_units))

-- The setting of the least deposit; zero where it is absent or is not a number.
abbrev pub number_in : Option ℕ → ℕ
number_in none = 0
number_in (some n) = n

abbrev pub setting_in : Handler → Option Setting → ℕ
setting_in h none = 0
setting_in h (some s) = number_in (h.parse_uint s.value)

abbrev pub stored_deposit : Handler → Db → ℕ
stored_deposit h d = setting_in h (find? (λ s. setting_key_eq s.key client_min_deposit) d.settings)

larger-max : (a b : ℕ) → larger a b ≡ max a b
larger-max a b = ground arith

at_most-up_to : (o : Offering) (m : Option ℕ) (n : ℕ) → at_most (price_of o m) n ≡ up_to o m n
at_most-up_to o none n = refl
at_most-up_to o (some units) n = ground arith

compute_deposit-least : (o : Offering) (n : ℕ) → compute_deposit o n ≡ least_deposit o n
unfolding compute_deposit
compute_deposit-least o n =
    at_most-up_to o o.max_unit _
    ∙ ap (up_to o o.max_unit) (larger-max n (compute_price o o.min_units))

number_of_lem : (h : Handler) (v : Text) → number_of h (ok v) ≡ number_in (h.parse_uint v)
number_of_lem h v = elim (Option-cases (h.parse_uint v)) [
  | inl n ↦ rw n refl
  | inr (x, e) ↦ rw e refl
]

-- Which calls fail does not change.
record IsSteady {A : Type 0} (m : Action A) : Type 0 where
  steady : (w : World) → (m w).1.fails ≡ w.fails

with_steady :
    {A : Type 0} {P : A → World → Type 0} (m : Action A) (w : World)
    → IsSteady m
    → Ensures m w P
    → Ensures m w (λ a w'. P a w' × (w'.fails ≡ w.fails))
with_steady m w k h = record { holds = λ a e. (h.holds a e, k.steady w) }

check_token-IsSteady : (h : Handler) (tkn : Text) → IsSteady (check_token h tkn)
unfolding check_token require
check_token-IsSteady h tkn = record { steady = λ w. ground arith }

find_row-IsSteady : {A : Type 0} (e : UiError) (f : Db → Option A) → IsSteady (find_row e f)
unfolding find_row monad
find_row-IsSteady e f = record { steady = λ w. ground arith }

-- The setting as it is read by a call that does not fail.
setting_read :
    (h : Handler) (w : World)
    → w.fails w.calls ≡ false
    → number_of h (setting_value client_min_deposit w).0 ≡ stored_deposit h w.db
unfolding setting_value monad
setting_read h w e =
    elim (Option-cases (find? (λ s. setting_key_eq s.key client_min_deposit) w.db.settings)) [
      | inl n ↦ rw e (rw n refl)
      | inr (s, f) ↦ rw e (rw f (number_of_lem h s.value))
    ]

-- An offering that was accepted: the account and the offering are found, the offering is active and
-- its agent answers, and a job to open a channel is in the queue.
pub record IsAccepted (h : Handler) (account : HexString) (id : Uuid) (deposit gas : ℕ) (d d' : Db)
    : Type 0 where
  pub acc : Account
  pub offer : Offering
  pub chosen : ℕ
  pub job : Job
  pub account_found : find? (λ a. a.eth_addr == account) d.accounts ≡ some acc
  pub offer_found : find? (λ o. o.id == id && is_active_offering d o) d.offerings ≡ some offer
  pub answers : h.ping offer.somc_type offer.somc_data ≡ true
  pub chosen_well : IsChosen (least_deposit offer (stored_deposit h d)) deposit chosen
  pub type : job.type ≡ client_pre_channel_create
  pub asks : job.payload ≡ create acc.id id gas chosen
  pub enough :
      IsOrdered offer
      → compute_price offer offer.min_units ≤ wanted_deposit offer (payload_deposit job.payload)
  pub queued : d'.jobs ≡ job ∷ d.jobs

queued-Ensures :
    (h : Handler) (id : Uuid) (p : Payload) (w : World)
    → Ensures (add_user_job h client_pre_channel_create RelatedType.channel id p) w (λ _ w'.
      (job : Job) × ((job.type ≡ client_pre_channel_create)
        × ((job.payload ≡ p) × (w'.db.jobs ≡ job ∷ w.db.jobs))))
unfolding add_user_job add_with_data add_with_data_and_delay stamped new_job
queued-Ensures h id p w =
    let j =
      new_job client_pre_channel_create RelatedType.channel id JobCreator.user p (h.now + 0) in
    >>=-Ensures _ _ _ w (added-Ensures h.queue h.stamp j w) λ _ w1 q1.
      pure-Ensures _ w1
        (stamped (type_config h.queue j) h.stamp j, (refl, (refl, ap (λ x. x.jobs) q1)))

accept-Ensures :
    (h : Handler) (tkn : Text) (account : HexString) (id : Uuid) (deposit gas : ℕ) (w : World)
    → ((n : ℕ) → w.fails n ≡ false)
    → Ensures
        (accept_offering h tkn account id deposit gas)
        w
        (λ _ w'. IsAccepted h account id deposit gas w.db w'.db)
unfolding accept_offering find_active_offering ping_offering
accept-Ensures h tkn account id deposit gas w up =
    >>=-Ensures _ _ _ w (with_steady _ w (check_token-IsSteady h tkn) (check_token-Ensures h tkn w))
      λ _ w1 (q1, s1).
        >>=-Ensures _ _ _ w1 (with_steady _ w1 (find_row-IsSteady _ _) (find_row-Ensures _ _ w1))
          λ acc w2 (q2, s2).
            >>=-Ensures _ _ _ w2
              (with_steady _ w2 (find_row-IsSteady _ _) (find_row-Ensures _ _ w2))
              λ offer w3 (q3, s3).
                >>=-Ensures _ _ _ w3 (attempt-Ensures _ w3 (setting_value-Keeps _)) λ r w4 q4.
                  >>=-Ensures _ _ _ w4 (deposit_or_least-Ensures _ deposit w4) λ chosen w5 q5.
                    >>=-Ensures _ _ _ w5 (require-Ensures _ _ w5) λ _ w6 q6.
                      >>=-Ensures _ _ _ w6 (on_error-Ensures _ _ w6 (queued-Ensures h _ _ w6))
                        λ _ w7 q7.
                          let e2 = q1.1.db in
                          let e3 = q2.1.db ∙ e2 in
                          let e6 = q6.1.db ∙ q5.1.db ∙ q4.1 ∙ q3.1.db ∙ e3 in
                          pure-Ensures _ w7 (record {
                            acc = acc;
                            offer = offer;
                            chosen = chosen;
                            job = q7.0;
                            account_found =
                                subst
                                  (λ d. find? (λ a. a.eth_addr == account) d.accounts ≡ some acc) e2
                                  q2.0;
                            offer_found =
                                subst
                                  (λ d.
                                    find? (λ o. o.id == id && is_active_offering d o) d.offerings
                                    ≡ some offer)
                                  e3 q3.0;
                            answers = q6.0;
                            chosen_well =
                                subst (λ x. IsChosen x deposit chosen)
                                  (compute_deposit-least offer (number_of h r)
                                    ∙ ap (λ n. least_deposit offer n)
                                        (ap (number_of h) q4.0
                                          ∙ setting_read h w3
                                              (ap (λ g. g w3.calls) (s3 ∙ s2 ∙ s1) ∙ up w3.calls)
                                          ∙ ap (stored_deposit h) (q3.1.db ∙ e3)))
                                  q5.0;
                            type = q7.1.0;
                            asks = q7.1.1.0;
                            enough = λ k.
                                subst
                                  (λ p.
                                    compute_price offer offer.min_units
                                    ≤ wanted_deposit offer (payload_deposit p))
                                  (sym q7.1.1.0)
                                  (wanted-enough offer chosen
                                    (le_trans _ _ _ (compute_deposit-enough offer _ k) q5.0.0));
                            queued = q7.1.1.1 ∙ ap (λ (x : Db). q7.0 ∷ x.jobs) e6;
                          })

-- While the database answers, an offering that is accepted is active and its agent answers; a job to
-- open a channel with it is put in the queue, with the deposit that was asked for, if that is not
-- below the least, or else the least: the greater of the stored setting and of the price of the
-- offering's least units, but no more than the price of its greatest number of units. If that number
-- costs no less than the least units, the deposit is enough for the client's handler of the job.
pub accept_offering-IsAccepted :
    (h : Handler) (tkn : Text) (account : HexString) (id : Uuid) (deposit gas : ℕ) (w : World)
    (rid : Uuid)
    → ((n : ℕ) → w.fails n ≡ false)
    → (accept_offering h tkn account id deposit gas w).0 ≡ ok rid
    → IsAccepted h account id deposit gas w.db (accept_offering h tkn account id deposit gas w).1.db
accept_offering-IsAccepted h tkn account id deposit gas w rid up e =
    (accept-Ensures h tkn account id deposit gas w up).holds rid e
