-- ===== src/Bc/Jobs/Made.antt =====
-- Which jobs are made for the log of an event: each maker of jobs, call by call.
use dappctrl.Base.{
  ℕ, ◌≡◌, refl, inl, inr, Bool, true, false, Option, none, some, List, [], ◌∷◌, ◌++◌, All,
  if◌then◌else◌,
}
use dappctrl.Data.{
  Uuid, Job, JobType, RelatedType, JobEthLog, client_record_closing, increment_current_supply,
  closing_coop,
}
use dappctrl.Store.{World, ok, Action}
use dappctrl.Store.Ensures.{Ensures, >>=-Ensures, pure-Ensures, or_raise-Ensures, weaken}
use dappctrl.Bc.Jobs.Asked.{
  Asks, IsMade, AreMade, agents_channel, agents_top_up, agents_request, agents_offering,
  agents_deletion, agents_pop_up, agents_close, agents_forced, clients_channel, clients_place,
  clients_top_up, clients_request, clients_offering, clients_deletion, clients_pop_up,
  clients_close, close_recorded, close_counted, clients_forced, forced_recorded, forced_counted,
}
use dappctrl.Bc.Jobs.Lookup.{
  JobsMaker, Event, channel_created, channel_topped_up, channel_close_requested, offering_created,
  offering_deleted, offering_popped_up, cooperative_channel_close, uncooperative_channel_close,
  token_approval, token_transfer,
}
use dappctrl.Bc.Jobs.Producers.{
  agent_on_channel_created, client_on_channel_created, client_on_offering_popped_up, unless_counted,
  client_on_cooperative_channel_close, client_on_uncooperative_channel_close, uncounted, agent_jobs,
  client_jobs, make_jobs, closing_jobs, registering_jobs,
}
use dappctrl.Bc.Jobs.Rules.{
  IsFor, MadeBy, common-IsMade, append-All, anything, topic-Ensures, channel_event-Ensures,
  offering_event-Ensures, supply-Ensures, approve-Ensures, transfer-Ensures, rate-Ensures,
  uncounted-Ensures,
}

module _ (m : JobsMaker) (l : JobEthLog) (count : ℕ) (w : World) where
  closing-Ensures :
      (e : Event) (ty : JobType) (next : List Job → List Job → Action (List Job))
      → Asks m l false e ty
      → IsFor ty RelatedType.channel
      → Asks m l false e client_record_closing
      → Asks m l false e increment_current_supply
      → ((xs ys : List Job) (v : World)
          → All (IsMade m false count l e) xs
          → All (IsMade m false count l e) ys
          → Ensures (next xs ys) v (MadeBy m false count l e))
      → Ensures
          (closing_jobs m e l ty closing_coop count next)
          w
          (λ r. MadeBy m false count l e r.0)
  closing-Ensures e ty next a k a1 a2 h =
      >>=-Ensures _ _ _ w (channel_event-Ensures m l false count w e e ty a k) λ jobs w1 q1.
        >>=-Ensures _ _ _ w1 (rate-Ensures m l false count w1 e a1) λ rated w2 q2.
          >>=-Ensures _ _ _ w2 (supply-Ensures m l false count w2 e _ a2 (λ h. cc, inr refl))
            λ more w3 q3.
              >>=-Ensures _ _ _ w3
                (h (jobs ++ (rated.0 ∷ [])) more w3
                  (append-All m false count l e jobs _ q1 (q2, tt)) q3)
                λ all w4 q4. pure-Ensures _ w4 q4

  unless_counted-Ensures :
      (e : Event) (xs ys : List Job) (v : World)
      → All (IsMade m false count l e) xs
      → All (IsMade m false count l e) ys
      → Ensures (unless_counted m l xs ys) v (MadeBy m false count l e)
  unfolding unless_counted
  unless_counted-Ensures e xs [] v a b = pure-Ensures _ v a
  unless_counted-Ensures e xs (y ∷ ys) v a b =
      >>=-Ensures _ _ _ v (anything _ v) λ created v1 _. pure-Ensures _ v1 (either created)
    where
      either :
          (created : Bool) → All (IsMade m false count l e) (if created then xs else xs ++ (y ∷ ys))
      either true = a
      either false = append-All m false count l e xs (y ∷ ys) a b

  agent_jobs-Ensures : (e : Event) → Ensures (agent_jobs m e l) w (MadeBy m true count l e)
  unfolding agent_jobs agent_on_channel_created
  agent_jobs-Ensures channel_created = >>=-Ensures _ _ _ w (anything _ w) λ t w1 _.
      >>=-Ensures _ _ _ w1 (anything _ w1) λ known w2 _. pure-Ensures _ w2 (registering known)
    where
      registering :
          (known : Option Uuid)
          → All (IsMade m true count l channel_created) (registering_jobs m l known)
      registering none = tt
      registering (some _) = (
        common-IsMade m true count l channel_created _ _ _ agents_channel (λ h. cc, inr refl),
        tt,
      )
  agent_jobs-Ensures channel_topped_up =
      channel_event-Ensures m l true count w _ _ _ agents_top_up (λ h. cc, inr refl)
  agent_jobs-Ensures channel_close_requested =
      channel_event-Ensures m l true count w _ _ _ agents_request (λ h. cc, inr refl)
  agent_jobs-Ensures offering_created =
      offering_event-Ensures m l true count w _ _ agents_offering (λ h. cc, inr refl)
  agent_jobs-Ensures offering_deleted =
      offering_event-Ensures m l true count w _ _ agents_deletion (λ h. cc, inr refl)
  agent_jobs-Ensures offering_popped_up =
      offering_event-Ensures m l true count w _ _ agents_pop_up (λ h. cc, inl refl)
  agent_jobs-Ensures cooperative_channel_close =
      channel_event-Ensures m l true count w _ _ _ agents_close (λ h. cc, inr refl)
  agent_jobs-Ensures uncooperative_channel_close =
      channel_event-Ensures m l true count w _ _ _ agents_forced (λ h. cc, inr refl)
  agent_jobs-Ensures token_approval = approve-Ensures m l true count w
  agent_jobs-Ensures token_transfer = transfer-Ensures m l true count w

  client_jobs-Ensures :
      (e : Event) → Ensures (client_jobs m count e l) w (λ r. MadeBy m false count l e r.0)
  unfolding client_jobs client_on_channel_created client_on_offering_popped_up
      client_on_cooperative_channel_close client_on_uncooperative_channel_close
  client_jobs-Ensures channel_created = uncounted-Ensures m l false count w channel_created _ (
      >>=-Ensures _ _ _ w
        (channel_event-Ensures m l false count w _ channel_created _ clients_channel
          (λ h. cc, inr refl))
        λ jobs w1 q1.
          >>=-Ensures _ _ _ w1
            (supply-Ensures m l false count w1 channel_created _ clients_place (λ h. cc, inr refl))
            λ more w2 q2.
              pure-Ensures _ w2 (append-All m false count l channel_created jobs more q1 q2))
  client_jobs-Ensures channel_topped_up =
      uncounted-Ensures m l false count w _ _
        (channel_event-Ensures m l false count w _ _ _ clients_top_up (λ h. cc, inr refl))
  client_jobs-Ensures channel_close_requested =
      uncounted-Ensures m l false count w _ _
        (channel_event-Ensures m l false count w _ _ _ clients_request (λ h. cc, inr refl))
  client_jobs-Ensures offering_created = pure-Ensures _ w (
    common-IsMade m false count l offering_created _ _ _ clients_offering (λ h. cc, inl refl),
    tt,
  )
  client_jobs-Ensures offering_deleted =
      uncounted-Ensures m l false count w _ _
        (offering_event-Ensures m l false count w _ _ clients_deletion (λ h. cc, inr refl))
  client_jobs-Ensures offering_popped_up =
      uncounted-Ensures m l false count w offering_popped_up _ (
        >>=-Ensures _ _ _ w (anything _ w) λ t w1 _.
          >>=-Ensures _ _ _ w1 (anything _ w1) λ known w2 _. pure-Ensures _ w2 (
            common-IsMade m false count l offering_popped_up _ _ _ clients_pop_up
                (λ h. cc, inl refl),
            tt,
          ))
  client_jobs-Ensures cooperative_channel_close =
      closing-Ensures _ _ _ clients_close (λ h. cc, inr refl) close_recorded close_counted
        (unless_counted-Ensures cooperative_channel_close)
  client_jobs-Ensures uncooperative_channel_close =
      closing-Ensures _ _ _ clients_forced (λ h. cc, inr refl) forced_recorded forced_counted
        λ xs ys v a b.
          pure-Ensures _ v (append-All m false count l uncooperative_channel_close xs ys a b)
  client_jobs-Ensures token_approval =
      uncounted-Ensures m l false count w _ _ (approve-Ensures m l false count w)
  client_jobs-Ensures token_transfer =
      uncounted-Ensures m l false count w _ _ (transfer-Ensures m l false count w)

make-Ensures :
    (m : JobsMaker) (count : ℕ) (l : JobEthLog) (w : World)
    → Ensures (make_jobs m count l) w (λ r _. AreMade m count l r.0)
unfolding make_jobs
make-Ensures m count l w = >>=-Ensures _ _ _ w (topic-Ensures l 0 w) λ t w1 q.
    >>=-Ensures _ _ _ w1 (or_raise-Ensures _ _ w1)
      λ e w2 p. weaken (by_role m.is_agent e w2) λ r w3 x. (t, e, q, p.0, x)
  where
    by_role :
        (agent : Bool) (e : Event) (v : World)
        → Ensures
            (if agent then uncounted count (agent_jobs m e l) else client_jobs m count e l)
            v
            (λ r. MadeBy m agent count l e r.0)
    by_role true e v = uncounted-Ensures m l true count v e _ (agent_jobs-Ensures m l count v e)
    by_role false e v = client_jobs-Ensures m l count v e

-- Every job that is made for a log is of a type that the event of the log's first topic asks for,
-- which for a transfer of tokens depends on whether they come from the contract. It has the kind
-- that the handler of its type checks, if that handler checks one. It carries the log or, where it
-- records a closing, the parties, the block and the balance that the log tells of, and asks for the
-- ratings when enough closings were counted.
pub make_jobs-IsMade :
    (m : JobsMaker) (count : ℕ) (l : JobEthLog) (w : World) (js : List Job) (n : ℕ)
    → (make_jobs m count l w).0 ≡ ok (js, n)
    → AreMade m count l js
make_jobs-IsMade m count l w js n e = (make-Ensures m count l w).holds (js, n) e
