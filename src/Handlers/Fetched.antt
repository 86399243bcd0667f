-- ===== src/Handlers/Fetched.antt =====
-- What the client stores of an offering that it learns of from the blockchain.
use dappctrl.Base.{
  Option, any, ◌≡◌, refl, ◌∙◌, ap, subst, ◌⊎◌, inl, inr, ℕ, some, ◌∷◌, arith, List, ◌==◌, ==_iff,
  Bool-cases, Option,
}
use dappctrl.Data.{
  AbiValue, Offering, Base64String, Payload, eth_log, JobEthLog, Job, HexString, compute_price,
  Uuid,
}
use dappctrl.Store.{pure, raise, Db, World, Result, ok, err}
use dappctrl.Store.Frames.{attempt-Keeps, Keeps, >>=-Keeps, frames}
use dappctrl.Store.Ensures.{
  Ensures, Ends, >>=-Ends, Keeps-Ends, >>=-then-Ends, exec-Ends, on_error-Ends, attempt-Ends,
  attempted-Ensures, require-Ensures,
}
use dappctrl.Handlers.Env.{Worker, OfferingInfo, SomcClient, connected, unknown_type, broken}
use dappctrl.Handlers.Select.{log_of, event_log}
use dappctrl.Handlers.Events.{LogOffering, offering_data, extract_log_offering}
use dappctrl.Handlers.Client.{cancel_self, save_job}
use dappctrl.Handlers.Fetch.{
  store_offering, Refusal, cancels, retries, ignored, refusal, when_refused, after_filling,
  retrieve_from, retrieve_and_save_offering, client_after_offering_msg_bc_publish_job,
}
use dappctrl.Handlers.Found.{three_topics-Keeps, log_of-Keeps, refuse-Ensures, refuse-Keeps}
use dappctrl.Handlers.Filled.{IsFilled, fill-Ensures, fill-Keeps}

-- The offerings gained one, fetched over what the event names, and stored with the supplies that the
-- contract and the event tell, at the price of the contract's deposit.
pub record IsStored (h : Worker) (id : Uuid) (block : ℕ) (args : LogOffering) (d d' : Db)
    : Type 0 where
  pub endpoint : Base64String → Option Base64String
  pub answer : HexString → Option Base64String
  pub raw : Base64String
  pub bytes : ℕ
  pub offer : Offering
  pub contract : OfferingInfo
  pub reached : h.somc_client args.somc_type args.somc_data ≡ connected endpoint answer
  pub fetched : answer (h.of_hash args.offering_hash) ≡ some raw
  pub read : h.to_bytes raw ≡ some bytes
  pub filled : IsFilled h id block bytes args d offer
  pub registered : h.backend.psc_get_offering_info args.offering_hash ≡ some contract
  pub priced : contract.min_deposit ≡ compute_price offer offer.min_units
  pub stored :
      d'.offerings
      ≡ record offer { supply = contract.max_supply; current_supply = args.current_supply }
        ∷ d.offerings

-- Nothing new, or one offering that was fetched.
abbrev pub Gains : Worker → Uuid → ℕ → LogOffering → Db → Db → Type 0
Gains h id block args d d' = (d'.offerings ≡ d.offerings) ⊎ IsStored h id block args d d'

save_job-offerings : (j : Job) (d : Db) → (save_job j d).offerings ≡ d.offerings
save_job-offerings j d = elim (Bool-cases (any (λ r. r.id == j.id) d.jobs)) [
  | inl t ↦ rw t refl
  | inr f ↦ rw f refl
]

offering_data-Keeps : (l : List AbiValue) → Keeps (offering_data l)
unfolding offering_data pure raise
offering_data-Keeps l = record { keeps = λ w. ground arith }

extract-Keeps : (h : Worker) (l : JobEthLog) → Keeps (extract_log_offering h l)
unfolding extract_log_offering
extract-Keeps h l = >>=-Keeps _ _ (three_topics-Keeps l.topics) λ _.
    >>=-Keeps _ _ (refuse-Keeps _ _)
      λ values. >>=-Keeps _ _ (offering_data-Keeps values) λ _. search frames

log_of-Ensures : (p : Payload) (w : World) → Ensures (log_of p) w (λ l _. p ≡ eth_log l)
unfolding pure raise
log_of-Ensures p w = record { holds = λ l e. ground arith }

module _ (h : Worker) (j : Job) (block : ℕ) (args : LogOffering) where
  store-Ends :
      (d : Db) (w : World) (endpoint : Base64String → Option Base64String)
      (answer : HexString → Option Base64String) (raw : Base64String) (bytes : ℕ) (offer : Offering)
      → w.db ≡ d
      → h.somc_client args.somc_type args.somc_data ≡ connected endpoint answer
      → answer (h.of_hash args.offering_hash) ≡ some raw
      → h.to_bytes raw ≡ some bytes
      → IsFilled h j.related_id block bytes args d offer
      → Ends (store_offering h j args offer) w (Gains h j.related_id block args d)
  unfolding store_offering
  store-Ends d w endpoint answer raw bytes offer e c a r f =
      >>=-Ends _ _ _ w (inl (ap (λ x. x.offerings) e)) (refuse-Keeps _ _) (refuse-Ensures _ _ w)
        λ contract w1 e1 q1.
          >>=-Ends _ _ _ w1 (inl (ap (λ x. x.offerings) (e1 ∙ e))) (search frames)
            (require-Ensures _ _ w1)
            λ _ w2 e2 q2.
              let old = e2 ∙ e1 ∙ e in
              >>=-then-Ends _ _ w2
                (on_error-Ends _ _ w2 (
                  exec-Ends _ w2 (inl (ap (λ x. x.offerings) old)) (
                    inr (record {
                      endpoint = endpoint;
                      answer = answer;
                      raw = raw;
                      bytes = bytes;
                      offer = offer;
                      contract = contract;
                      reached = c;
                      fetched = a;
                      read = r;
                      filled = f;
                      registered = q1.0;
                      priced = (==_iff _ _).0 q2.0;
                      stored =
                          ap
                            (λ (x : Db).
                              record offer {
                                supply = contract.max_supply;
                                current_supply = args.current_supply;
                              }
                              ∷ x.offerings)
                            old;
                    }))))
                λ _. search frames

  refused-Ends :
      (d : Db) (w : World) (v : Refusal)
      → w.db ≡ d
      → Ends (when_refused j v) w (Gains h j.related_id block args d)
  unfolding cancel_self
  refused-Ends d w cancels e =
      >>=-then-Ends _ _ w
        (attempt-Ends _ w (
          exec-Ends _ w (inl (ap (λ x. x.offerings) e))
            (inl (save_job-offerings _ w.db ∙ ap (λ x. x.offerings) e))))
        λ _. search frames
  refused-Ends d w retries e = Keeps-Ends _ w (inl (ap (λ x. x.offerings) e)) (search frames)
  refused-Ends d w ignored e = Keeps-Ends _ w (inl (ap (λ x. x.offerings) e)) (search frames)

  filled-Ends :
      (d : Db) (w : World) (endpoint : Base64String → Option Base64String)
      (answer : HexString → Option Base64String) (raw : Base64String) (bytes : ℕ)
      (r : Result Offering)
      → w.db ≡ d
      → h.somc_client args.somc_type args.somc_data ≡ connected endpoint answer
      → answer (h.of_hash args.offering_hash) ≡ some raw
      → h.to_bytes raw ≡ some bytes
      → ((o : Offering) → r ≡ ok o → IsFilled h j.related_id block bytes args d o)
      → Ends (after_filling h j args r) w (Gains h j.related_id block args d)
  filled-Ends d w endpoint answer raw bytes (ok o) e c a r f =
      store-Ends d w endpoint answer raw bytes o e c a r (f o refl)
  filled-Ends d w endpoint answer raw bytes (err x) e c a r f = refused-Ends d w (refusal x) e

  retrieve-Ends :
      (d : Db) (w : World) (client : SomcClient)
      → w.db ≡ d
      → h.somc_client args.somc_type args.somc_data ≡ client
      → Ends (retrieve_from h j block args client) w (Gains h j.related_id block args d)
  retrieve-Ends d w unknown_type e c =
      Keeps-Ends _ w (inl (ap (λ x. x.offerings) e)) (search frames)
  retrieve-Ends d w broken e c = Keeps-Ends _ w (inl (ap (λ x. x.offerings) e)) (search frames)
  retrieve-Ends d w (connected endpoint answer) e c =
      >>=-Ends _ _ _ w (inl (ap (λ x. x.offerings) e)) (refuse-Keeps _ _) (refuse-Ensures _ _ w)
        λ raw w1 e1 q1.
          >>=-Ends _ _ _ w1 (inl (ap (λ x. x.offerings) (e1 ∙ e))) (refuse-Keeps _ _)
            (refuse-Ensures _ _ w1)
            λ bytes w2 e2 q2.
              >>=-Ends _ _ _ w2 (inl (ap (λ x. x.offerings) (e2 ∙ e1 ∙ e)))
                (attempt-Keeps _ (fill-Keeps h _ _ _ _))
                (attempted-Ensures _ w2 (fill-Ensures h j.related_id block bytes args w2))
                λ r w3 e3 q3.
                  filled-Ends d w3 endpoint answer raw bytes r (e3 ∙ e2 ∙ e1 ∙ e) c q1.0 q2.0 λ o p.
                    subst (λ x. IsFilled h j.related_id block bytes args x o) (e2 ∙ e1 ∙ e) (q3 o p)

-- What the event of a job said of an offering, which was fetched and stored.
pub record IsLearned (h : Worker) (j : Job) (d d' : Db) : Type 0 where
  pub log : JobEthLog
  pub args : LogOffering
  pub at : World
  pub event : j.payload ≡ eth_log log
  pub args_read : (extract_log_offering h log at).0 ≡ ok args
  pub stored : IsStored h j.related_id log.block args d d'

publish-Ends :
    (h : Worker) (j : Job) (w : World)
    → Ends
        (client_after_offering_msg_bc_publish_job h j)
        w
        (λ d'. (d'.offerings ≡ w.db.offerings) ⊎ IsLearned h j w.db d')
unfolding client_after_offering_msg_bc_publish_job event_log retrieve_and_save_offering
publish-Ends h j w =
    >>=-Ends _ _ _ w (inl refl) (log_of-Keeps j.payload) (log_of-Ensures j.payload w) λ l w1 e1 q1.
      >>=-Ends (λ args _. (extract_log_offering h l w1).0 ≡ ok args) _ _ w1
        (inl (ap (λ x. x.offerings) e1)) (extract-Keeps h l) (record { holds = λ args e. e })
        λ args w2 e2 q2. record {
          ends = elim (retrieve-Ends h j l.block args w.db w2 _ (e2 ∙ e1) refl).ends [
            | inl same ↦ inl same
            | inr new ↦
                inr (record {
                  log = l;
                  args = args;
                  at = w1;
                  event = q1;
                  args_read = q2;
                  stored = new;
                })
          ];
        }

-- However the client's handler of a published offering ends, the offerings are as they were, or
-- there is one more. That one was fetched in the way that the job's event names; the contract has
-- its message as an active offering and the deposit that is stored there is the price of its least
-- units; its signature is by the key that it carries; it fits a template for which the client has a
-- product; and its supplies are those that the contract and the event tell.
pub client_after_offering_msg_bc_publish_job-stores :
    (h : Worker) (j : Job) (w : World)
    → ((client_after_offering_msg_bc_publish_job h j w).1.db.offerings ≡ w.db.offerings)
      ⊎ IsLearned h j w.db (client_after_offering_msg_bc_publish_job h j w).1.db
client_after_offering_msg_bc_publish_job-stores h j w = (publish-Ends h j w).ends
