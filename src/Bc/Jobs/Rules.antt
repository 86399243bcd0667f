-- ===== src/Bc/Jobs/Rules.antt =====
-- bc/jobsmaker.go: what each step of a maker of jobs makes, for the event that it is taken for.
use dappctrl.Base.{
  ℕ, ◌≡◌, refl, ◌⊎◌, inl, inr, Bool, Option, none, some, List, [], ◌∷◌, ◌++◌, All, get_elem?,
  Bool-cases, ◌%◌, leb, ◌+◌, ◌^◌, ◌==◌, ==_iff, arith, ◌≢◌,
}
use dappctrl.Data.{
  Uuid, Job, JobType, RelatedType, JobEthLog, client_record_closing, closing_coop, AbiValue, Error,
  uint32_value, uint64_value,
}
use dappctrl.Job.Add.{new_job}
use dappctrl.Handlers.Table.{checked_kind}
use dappctrl.Store.{World, Action, raise}
use dappctrl.Store.Ensures.{Ensures, >>=-Ensures, pure-Ensures, or_raise-Ensures, weaken}
use dappctrl.Bc.Jobs.Asked.{Asks, IsMade, approval, returned, added}
use dappctrl.Bc.Jobs.Lookup.{
  JobsMaker, Event, token_approval, token_transfer, produce_common, job_for,
  on_existing_channel_event, on_offering_related_event, topic,
}
use dappctrl.Bc.Jobs.Producers.{
  rate_job, update_current_supply_jobs, on_token_approve, on_token_transfer, uncounted,
  closing_data, update_rating,
}

abbrev pub IsFor : JobType → RelatedType → Type 0
IsFor ty rel =
    (ty ≢ client_record_closing) × ((checked_kind ty ≡ none) ⊎ (checked_kind ty ≡ some rel))

module _ (m : JobsMaker) (agent : Bool) (count : ℕ) (l : JobEthLog) (e : Event) where
  pub common-IsMade :
      (id : Uuid) (rel : RelatedType) (ty : JobType)
      → Asks m l agent e ty
      → IsFor ty rel
      → IsMade m agent count l e (produce_common l id rel ty)
  unfolding produce_common new_job
  common-IsMade id rel ty a k = record { asked = a; kind = k.1; carried = inl (k.0, refl) }

  job_for-All :
      (rel : RelatedType) (ty : JobType) (id : Option Uuid)
      → Asks m l agent e ty
      → IsFor ty rel
      → All (IsMade m agent count l e) (job_for l rel ty id)
  job_for-All rel ty none a k = tt
  job_for-All rel ty (some id) a k = (common-IsMade id rel ty a k, tt)

  pub append-All :
      (xs ys : List Job)
      → All (IsMade m agent count l e) xs
      → All (IsMade m agent count l e) ys
      → All (IsMade m agent count l e) (xs ++ ys)
  append-All [] ys a b = b
  append-All (x ∷ xs) ys a b = (a.0, append-All xs ys a.1 b)

pub anything : {A : Type 0} (m : Action A) (w : World) → Ensures m w (λ _ _. Unit {0})
anything m w = record { holds = λ _ _. tt }

pub topic-Ensures :
    (l : JobEthLog) (n : ℕ) (w : World)
    → Ensures (topic l n) w (λ t _. get_elem? l.topics n ≡ some t)
unfolding topic
topic-Ensures l n w = weaken (or_raise-Ensures _ _ w) λ t w1 q. q.0

raise-Ensures :
    {A : Type 0} {P : A → World → Type 0} (e : Error) (w : World) → Ensures (raise e) w P
unfolding raise
raise-Ensures e w = record { holds = λ a h. cc }

-- The arguments that a closing's log decodes to.
closing_data-Ensures :
    (args : Option (List AbiValue)) (w : World)
    → Ensures (closing_data args) w (λ a _. args ≡ some (uint32_value a.0 ∷ uint64_value a.1 ∷ []))
closing_data-Ensures none w = raise-Ensures _ w
closing_data-Ensures (some []) w = raise-Ensures _ w
closing_data-Ensures (some (uint32_value b ∷ uint64_value v ∷ [])) w = pure-Ensures _ w refl
closing_data-Ensures (some _) w = raise-Ensures _ w

abbrev pub MadeBy : JobsMaker → Bool → ℕ → JobEthLog → Event → List Job → World → Type 0
MadeBy m agent count l e js w' = All (IsMade m agent count l e) js

module _ (m : JobsMaker) (l : JobEthLog) (agent : Bool) (count : ℕ) (w : World) where
  pub channel_event-Ensures :
      (e e' : Event) (ty : JobType)
      → Asks m l agent e' ty
      → IsFor ty RelatedType.channel
      → Ensures (on_existing_channel_event m e l ty) w (MadeBy m agent count l e')
  unfolding on_existing_channel_event
  channel_event-Ensures e e' ty a k =
      >>=-Ensures _ _ _ w (anything _ w)
        λ id w1 _. pure-Ensures _ w1 (job_for-All m agent count l e' _ ty id a k)

  pub offering_event-Ensures :
      (e : Event) (ty : JobType)
      → Asks m l agent e ty
      → IsFor ty RelatedType.offering
      → Ensures (on_offering_related_event m l ty) w (MadeBy m agent count l e)
  unfolding on_offering_related_event
  offering_event-Ensures e ty a k = >>=-Ensures _ _ _ w (anything _ w) λ t w1 _.
      >>=-Ensures _ _ _ w1 (anything _ w1)
        λ id w2 _. pure-Ensures _ w2 (job_for-All m agent count l e _ ty id a k)

  pub supply-Ensures :
      (e : Event) (ty : JobType)
      → Asks m l agent e ty
      → IsFor ty RelatedType.offering
      → Ensures (update_current_supply_jobs m l ty) w (MadeBy m agent count l e)
  unfolding update_current_supply_jobs
  supply-Ensures e ty a k = >>=-Ensures _ _ _ w (anything _ w) λ t w1 _.
      >>=-Ensures _ _ _ w1 (anything _ w1) λ known w2 _.
        >>=-Ensures _ _ _ w2 (anything _ w2)
          λ id w3 _. pure-Ensures _ w3 (job_for-All m agent count l e _ ty id a k)

  pub approve-Ensures : Ensures (on_token_approve m l) w (MadeBy m agent count l token_approval)
  unfolding on_token_approve
  approve-Ensures = >>=-Ensures _ _ _ w (anything _ w) λ t w1 _.
      >>=-Ensures _ _ _ w1 (anything _ w1) λ id w2 _.
        pure-Ensures _ w2
          (job_for-All m agent count l token_approval _ _ id (approval agent) (λ h. cc, inr refl))

  pub transfer-Ensures : Ensures (on_token_transfer m l) w (MadeBy m agent count l token_transfer)
  unfolding on_token_transfer
  transfer-Ensures = >>=-Ensures _ _ _ w (topic-Ensures l 1 w) λ from w1 q.
      >>=-Ensures _ _ _ w1 (anything _ w1) λ to w2 _.
        >>=-Ensures _ _ _ w2 (anything _ w2) λ id w3 _.
          pure-Ensures _ w3 (elim (Bool-cases (from % 2 ^ 160 == m.psc_addr)) [
            | inl t ↦ rw t (
                job_for-All m agent count l token_transfer _ _ id
                  (returned agent from q ((==_iff _ _).0 t)) (λ h. cc, inr refl))
            | inr f ↦ rw f (
                job_for-All m agent count l token_transfer _ _ id
                  (added agent from q (λ same. ground arith)) (λ h. cc, inr refl))
          ])

  -- Whether a closing is the one to ask for the ratings after.
  rating_due :
      (update_rating m.make_rating_job_after count).0 ≡ leb m.make_rating_job_after (count + 1)
  unfolding update_rating
  rating_due = elim (Bool-cases (leb m.make_rating_job_after (count + 1))) [
    | inl t ↦ rw t refl
    | inr f ↦ rw f refl
  ]

  pub rate-Ensures :
      (e : Event)
      → Asks m l agent e client_record_closing
      → Ensures (rate_job m count l closing_coop) w (λ r _. IsMade m agent count l e r.0)
  unfolding rate_job new_job
  rate-Ensures e k = >>=-Ensures _ _ _ w (closing_data-Ensures _ w) λ args w1 q1.
      >>=-Ensures _ _ _ w1 (topic-Ensures l 1 w1) λ a w2 q2.
        >>=-Ensures _ _ _ w2 (topic-Ensures l 2 w2) λ c w3 q3. pure-Ensures _ w3 (record {
          asked = k;
          kind = inl refl;
          carried = inr (record {
            type = refl;
            agent = a;
            client = c;
            block = args.0;
            balance = args.1;
            agent_topic = q2;
            client_topic = q3;
            arguments = q1;
            recorded = rw rating_due refl;
          });
        })

  pub uncounted-Ensures :
      (e : Event) (a : Action (List Job))
      → Ensures a w (MadeBy m agent count l e)
      → Ensures (uncounted count a) w (λ r. MadeBy m agent count l e r.0)
  unfolding uncounted
  uncounted-Ensures e a h = >>=-Ensures _ _ _ w h λ js w1 q. pure-Ensures _ w1 q
