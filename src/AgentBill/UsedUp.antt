-- ===== src/AgentBill/UsedUp.antt =====
-- The service of every channel that is used up is being terminated after a check of the units.
use dappctrl.Base.{
  ℕ, ◌+◌, ◌≡◌, ◌∙◌, refl, sym, subst, Bool, true, false, ◌&&◌, some, List, [], ◌∷◌, arith, any,
  find?, find?-sound, update_where, ◌==◌, ==_iff, Bool-cases, Option-cases, inl, inr, select, map,
  ◌≤◌, ◌*◌, ◌⊎◌,
}
use dappctrl.Data.{
  Uuid, Channel, Job, billing_checker, agent_pre_service_terminate, job_type_eq, ServiceStatus,
  Offering,
}
use dappctrl.Store.{Db, World, answering, monad}
use dappctrl.Job.Config.{Config, type_config}
use dappctrl.Job.Add.{Stamp, add, check_duplicated, is_duplicate, stamped, new_job}
use dappctrl.Proc.Channel.{
  is_active_for, canceled_job, cancel_jobs, check_job_exists, select_channel, transition_job,
  enqueue_change, alter_service_status, terminate_transitions, terminate_channel,
}
use dappctrl.Proc.Outcome.{conflicting, altered}
use dappctrl.Proc.Verdict.{no_duplicate}
use dappctrl.AgentBill.Queries.{
  used_up_channels, is_pending_or_active, rows, is_monitored, is_scalar, is_used_up, used_by,
}
use dappctrl.AgentBill.Monitor.{
  Round, ignore_error, terminate_service, process_rows, process_each_channel,
  verify_units_based_channels,
}

-- The channel has an active job that terminates the agent's service.
abbrev pub is_terminating : Uuid → Db → Bool
is_terminating id d = conflicting id (some agent_pre_service_terminate) d.jobs

kept_jobs :
    (id x : Uuid) (js : List Job)
    → conflicting id (some agent_pre_service_terminate) js ≡ false
    → conflicting x (some agent_pre_service_terminate) js ≡ true
    → conflicting x
        (some agent_pre_service_terminate)
        (update_where (is_active_for id) canceled_job js)
      ≡ true
unfolding update_where any is_active_for canceled_job
kept_jobs id x [] f t = cc
kept_jobs id x (j ∷ js) f t = ground (arith, kept_jobs id x js)

new_terminates :
    (conf : Config) (s : Stamp) (id : Uuid)
    → let j = transition_job id billing_checker agent_pre_service_terminate in
      (is_active_for id (stamped (type_config conf j) s j)
        && job_type_eq (stamped (type_config conf j) s j).type agent_pre_service_terminate)
      ≡ true
unfolding is_active_for stamped transition_job new_job job_type_eq
new_terminates conf s id = ground arith

-- What became of the tables `d`: the world answers still, the channels are as they were, no channel
-- is terminating any less, and `id` is terminating if its service may be terminated.
record Ended (id : Uuid) (d : Db) (w : World) : Type 0 where
  after : Db
  count : ℕ
  world : w ≡ record (answering after) { calls = count }
  channels : after.channels ≡ d.channels
  kept : (x : Uuid) → is_terminating x d ≡ true → is_terminating x after ≡ true
  ended :
      (ch : Channel)
      → find? (λ c. c.id == id) d.channels ≡ some ch
      → terminate_transitions ch.service_status ≡ true
      → is_terminating id after ≡ true

enqueue_world :
    (conf : Config) (s : Stamp) (ch : Channel) (d : Db) (n : ℕ)
    → any (is_duplicate (transition_job ch.id billing_checker agent_pre_service_terminate)) d.jobs
      ≡ false
    → (k : ℕ) × ((enqueue_change conf s ch billing_checker agent_pre_service_terminate true
          (record (answering d) { calls = n })).1
        ≡ record (answering
            (altered conf s ch.id billing_checker agent_pre_service_terminate true d)) {
              calls = k;
            })
unfolding enqueue_change monad cancel_jobs add check_duplicated altered
enqueue_world conf s ch d n h =
    elim (Bool-cases
      (type_config conf
        (transition_job ch.id billing_checker agent_pre_service_terminate)).duplicated) [
          | inl t ↦ (n + 1 + 1 + 1, ground arith)
          | inr f ↦ (n + 1 + 1 + 1 + 1, ground arith)
        ]

altered_kept :
    (conf : Config) (s : Stamp) (id x : Uuid) (d : Db)
    → is_terminating id d ≡ false
    → is_terminating x d ≡ true
    → is_terminating x (altered conf s id billing_checker agent_pre_service_terminate true d) ≡ true
unfolding altered any
altered_kept conf s id x d f t = ground (arith, kept_jobs id x d.jobs f t)

altered_ended :
    (conf : Config) (s : Stamp) (id : Uuid) (d : Db)
    → is_terminating id (altered conf s id billing_checker agent_pre_service_terminate true d)
      ≡ true
unfolding altered any
altered_ended conf s id d = ground (arith, new_terminates conf s id)

-- Nothing happened but for some calls.
unchanged :
    (id : Uuid) (d : Db) (n : ℕ) (w : World)
    → w ≡ record (answering d) { calls = n }
    → ((ch : Channel)
        → find? (λ c. c.id == id) d.channels ≡ some ch
        → terminate_transitions ch.service_status ≡ true
        → is_terminating id d ≡ true)
    → Ended id d w
unchanged id d n w e k = record {
  after = d;
  count = n;
  world = e;
  channels = refl;
  kept = λ x t. t;
  ended = k;
}

terminate-Ended :
    (conf : Config) (s : Stamp) (id : Uuid) (d : Db) (n : ℕ)
    → Ended id d
        (terminate_channel conf s id billing_checker true (record (answering d) { calls = n })).1
unfolding terminate_channel alter_service_status select_channel check_job_exists monad
terminate-Ended conf s id d n = elim (Option-cases (find? (λ c. c.id == id) d.channels)) [
  | inl e ↦ unchanged id d (n + 1 + 1) _ (ground arith) (λ ch f t. cc)
  | inr (ch, e) ↦ elim (Bool-cases (terminate_transitions ch.service_status)) [
    | inr f ↦ unchanged id d (n + 1 + 1) _ (ground arith) (λ c g t. ground arith)
    | inl t ↦
        let same : ch.id ≡ id = (==_iff _ _).0 (find?-sound _ d.channels ch e) in
        elim (Bool-cases (is_terminating id d)) [
          | inl c ↦ unchanged id d (n + 1 + 1 + 1) _ (ground arith) (λ x g u. c)
          | inr f ↦
              let free : is_terminating ch.id d ≡ false =
                subst (λ i. is_terminating i d ≡ false) (sym same) f in
              let (k, w) = enqueue_world conf s ch d (n + 1 + 1 + 1) (
                no_duplicate ch.id billing_checker agent_pre_service_terminate
                  (some agent_pre_service_terminate) d.jobs refl free) in
              record {
                after = altered conf s ch.id billing_checker agent_pre_service_terminate true d;
                count = k;
                world = ground (arith, w);
                channels = unfold altered in refl;
                kept = λ x u. altered_kept conf s ch.id x d free u;
                ended = λ c g u.
                    subst
                      (λ i.
                        is_terminating i
                          (altered conf s ch.id billing_checker agent_pre_service_terminate true d)
                        ≡ true)
                      same (altered_ended conf s ch.id d);
              }
        ]
  ]
]

-- The rows of a check, one after the other.
record AllEnded (l : List Uuid) (d : Db) (w : World) : Type 0 where
  after : Db
  count : ℕ
  world : w ≡ record (answering after) { calls = count }
  channels : after.channels ≡ d.channels
  kept : (x : Uuid) → is_terminating x d ≡ true → is_terminating x after ≡ true
  ended :
      (id : Uuid) (ch : Channel)
      → any (λ x. x == id) l ≡ true
      → find? (λ c. c.id == id) d.channels ≡ some ch
      → terminate_transitions ch.service_status ≡ true
      → is_terminating id after ≡ true

process_rows-AllEnded :
    (r : Round) (stamp : ℕ → Stamp) (m : ℕ) (l : List Uuid) (d : Db) (n : ℕ)
    → AllEnded l d
        (process_rows stamp (terminate_service r) m l (record (answering d) { calls = n })).1
unfolding process_rows terminate_service ignore_error monad any
process_rows-AllEnded r stamp m [] d n = record {
  after = d;
  count = n;
  world = refl;
  channels = refl;
  kept = λ x t. t;
  ended = λ id ch t f u. cc;
}
process_rows-AllEnded r stamp m (id ∷ l) d n =
    let h = terminate-Ended r.queue (stamp m) id d n in
    let k = process_rows-AllEnded r stamp (m + 1) l h.after h.count in
    record {
      after = k.after;
      count = k.count;
      world = rw h.world k.world;
      channels = k.channels ∙ h.channels;
      kept = λ x t. k.kept x (h.kept x t);
      ended = λ x ch t f u. elim (Bool-cases (id == x)) [
        | inl e ↦
            let same : id ≡ x = (==_iff _ _).0 e in
            k.kept x (
              subst (λ i. is_terminating i h.after ≡ true) same
                (h.ended ch (subst (λ i. find? (λ c. c.id == i) d.channels ≡ some ch) (sym same) f)
                  u))
        | inr e ↦
            k.ended x ch (ground arith)
              (subst (λ cs. find? (λ c. c.id == x) cs ≡ some ch) (sym h.channels) f) u
      ];
    }

found-selected :
    (p : Channel → Bool) (id : Uuid) (ch : Channel) (cs : List Channel)
    → find? (λ c. c.id == id) cs ≡ some ch
    → p ch ≡ true
    → any (λ x. x == id) (map (λ c. c.id) (select p cs)) ≡ true
unfolding find? select any
found-selected p id ch [] f t = cc
found-selected p id ch (c ∷ cs) f t = ground (arith, found-selected p id ch cs)

may_terminate : (s : ServiceStatus) → is_pending_or_active s ≡ true → terminate_transitions s ≡ true
unfolding is_pending_or_active terminate_transitions
may_terminate s h = ground arith

used_up_lem :
    (ch : Channel) (offer : Offering) (used : ℕ)
    → (ch.total_deposit ≤ offer.setup_price + used * offer.unit_price)
      ⊎ ((n : ℕ) × (offer.max_unit ≡ some n) × (n ≤ used))
    → is_used_up ch offer used ≡ true
unfolding is_used_up
used_up_lem ch offer used (inl h) = ground arith
used_up_lem ch offer used (inr (n, e, h)) = ground arith

-- With a database that answers, after a check of the units every channel that is not pending, of an
-- account in use and an offering by units, whose service is pending or active and which has used up its deposit or its offering's limit of units,
-- has an active job that terminates the service.
pub verify_units_based_channels-is_terminating :
    (r : Round) (d : Db) (id : Uuid) (ch : Channel) (offer : Offering)
    → find? (λ c. c.id == id) d.channels ≡ some ch
    → is_pending_or_active ch.service_status ≡ true
    → is_monitored d ch ≡ true
    → find? (λ o. o.id == ch.offering) d.offerings ≡ some offer
    → is_scalar offer.unit_type ≡ true
    → (ch.total_deposit ≤ offer.setup_price + used_by d ch * offer.unit_price)
      ⊎ ((n : ℕ) × (offer.max_unit ≡ some n) × (n ≤ used_by d ch))
    → is_terminating id (verify_units_based_channels r (answering d)).1.db ≡ true
unfolding verify_units_based_channels process_each_channel monad used_up_channels rows
verify_units_based_channels-is_terminating r d id ch offer f a m o s u =
    let h = process_rows-AllEnded r (r.stamp 0) 0 _ d 1 in
    subst (λ w. is_terminating id w.db ≡ true) (sym h.world)
      (h.ended id ch
        (found-selected _ id ch d.channels f (rw a (rw m (rw o (rw s (used_up_lem ch offer _ u))))))
        f (may_terminate ch.service_status a))
