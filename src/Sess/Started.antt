-- ===== src/Sess/Started.antt =====
-- What the start of a session leaves behind.
use dappctrl.Base.{
  ℕ, ◌+◌, ◌≡◌, ◌∙◌, refl, sym, ap, subst, Bool, true, false, not, Option, some, List, ◌∷◌, arith,
  any, find?, ◌==◌, ◌⊎◌, inl, inr, none, [], ◌&&◌, Bool-cases,
}
use dappctrl.Data.{
  Uuid, Text, Product, Channel, Offering, ServiceStatus, activating, service_status_eq, Session,
  JobStatus, Job, JobCreator, RelatedType, service_status, complete_service_transition, job_type_eq,
}
use dappctrl.Store.{Db, World, ok, plain, in_tx, Action, ◌>>=◌, when, attempt, monad}
use dappctrl.Store.Ensures.{
  Ensures, Same, >>=-Ensures, weaken, pure-Ensures, query-Ensures, or_raise-Ensures,
  on_error-Ensures, begin-Ensures, commit-Ensures, exec_tx-Ensures,
}
use dappctrl.Job.Config.{type_config}
use dappctrl.Job.Add.{
  add, add_with_data, add_with_data_and_delay, check_duplicated, compared_tx, is_duplicate, new_job,
  stamped,
}
use dappctrl.Sess.Access.{Server, salt_rune}
use dappctrl.Sess.Session.{
  complete_transition, ignore_duplicate, insert_session, new_session, record_start, start_session,
}
use dappctrl.Sess.Effects.{check-Ensures, find_client_channel-Ensures}

-- A job that completes the transition of a channel's service to a status.
pub record IsCompletion (ch : Channel) (st : ServiceStatus) (j : Job) : Type 0 where
  pub active : j.status ≡ JobStatus.active
  pub type : j.type ≡ complete_service_transition
  pub kind : j.related_type ≡ RelatedType.channel
  pub related : j.related_id ≡ ch.id
  pub target : j.payload ≡ service_status st

-- The queue has a job of this type for the channel, whatever its status and its target.
abbrev pub has_completion : Uuid → List Job → Bool
has_completion id js =
    any (λ r. r.related_id == id && job_type_eq r.type complete_service_transition) js

-- A completion is asked for: one more job, or none where the queue had one of the type.
abbrev pub IsAsked : Channel → ServiceStatus → List Job → List Job → Type 0
IsAsked ch st js js' =
    ((js' ≡ js) × (has_completion ch.id js ≡ true))
    ⊎ ((j : Job) × (IsCompletion ch st j × (js' ≡ j ∷ js)))

any-weaken :
    {A : Type 0} (p q : A → Bool) (l : List A)
    → ((a : A) → p a ≡ true → q a ≡ true)
    → any p l ≡ true
    → any q l ≡ true
unfolding any
any-weaken p q [] h e = e
any-weaken p q (a ∷ l) h e = ground (arith, any-weaken p q l h, h a)

abbrev pub completion : Server → Channel → ServiceStatus → Job
completion h ch st =
    new_job complete_service_transition RelatedType.channel ch.id JobCreator.session_server
      (service_status st) (h.now + 0)

pub duplicate_lem :
    (h : Server) (ch : Channel) (st : ServiceStatus) (js : List Job)
    → any (is_duplicate (completion h ch st)) js ≡ true
    → has_completion ch.id js ≡ true
unfolding is_duplicate new_job compared_tx
duplicate_lem h ch st js = any-weaken _ _ js λ r e. ground arith

abbrev pub completion_row : Server → Channel → ServiceStatus → Job
completion_row h ch st = let j = completion h ch st in stamped (type_config h.queue j) h.stamp j

pub row-IsCompletion :
    (h : Server) (ch : Channel) (st : ServiceStatus) → IsCompletion ch st (completion_row h ch st)
unfolding stamped new_job
row-IsCompletion h ch st = record {
  active = refl;
  type = refl;
  kind = refl;
  related = refl;
  target = refl;
}

complete-Ensures :
    (h : Server) (ch : Channel) (w : World)
    → w.tx.jobs ≡ w.db.jobs
    → Ensures
        (attempt (complete_transition h in_tx ch ServiceStatus.active) >>= ignore_duplicate)
        w
        (λ _ w'.
          (w'.tx.sessions ≡ w.tx.sessions) × IsAsked ch ServiceStatus.active w.db.jobs w'.tx.jobs)
unfolding complete_transition add_with_data add_with_data_and_delay add check_duplicated monad
complete-Ensures h ch w e =
    let j = completion h ch ServiceStatus.active in
    record {
      holds = λ a q. (
        ground arith,
        elim (Bool-cases
            (not (type_config h.queue j).duplicated && any (is_duplicate j) w.db.jobs)) [
              | inl t ↦ inl (ground arith, duplicate_lem h ch ServiceStatus.active _ (ground arith))
              | inr f ↦ inr (
                completion_row h ch ServiceStatus.active,
                (row-IsCompletion h ch ServiceStatus.active, ground arith),
              )
            ],
      );
    }

when_decided :
    {P : Unit {0} → World → Type 0} (b : Bool) (m : Action (Unit {0})) (w : World)
    → (b ≡ true → Ensures m w P)
    → (b ≡ false → P tt w)
    → Ensures (when b m) w P
unfolding when
when_decided true m w f g = record { holds = (f refl).holds }
when_decided false m w f g = record { holds = λ a e. g refl }

-- A service that is being activated asks for the completion of that, another one for nothing.
abbrev pub IsActivated : Channel → List Job → List Job → Type 0
IsActivated ch js js' =
    ((service_status_eq ch.service_status activating ≡ true)
      × IsAsked ch ServiceStatus.active js js')
    ⊎ ((service_status_eq ch.service_status activating ≡ false) × (js' ≡ js))

record_start-Ensures :
    (h : Server) (ch : Channel) (ip : Option Text) (port : ℕ) (w : World)
    → Ensures (record_start h ch ip port) w (λ _ w'.
      (w'.db.sessions ≡ new_session h ch ip port ∷ w.db.sessions)
      × IsActivated ch w.db.jobs w'.db.jobs)
unfolding record_start insert_session
record_start-Ensures h ch ip port w = >>=-Ensures _ _ _ w (begin-Ensures w) λ _ w1 q1.
    >>=-Ensures _ _ _ w1 (exec_tx-Ensures _ w1) λ _ w2 q2.
      >>=-Ensures (λ _ w3. (w3.tx.sessions ≡ w2.tx.sessions) × IsActivated ch w2.db.jobs w3.tx.jobs)
        _ _ w2
        (completing w2 (
          ap (λ d. d.jobs) q2.1
          ∙ ap (λ d. d.jobs) q1.1
          ∙ sym (ap (λ d. d.jobs) q1.0)
          ∙ sym (ap (λ d. d.jobs) q2.0)))
        λ _ w3 q3. weaken (commit-Ensures w3) λ _ w4 q4. (
          ap (λ d. d.sessions) q4
              ∙ q3.0
              ∙ ap (λ d. d.sessions) q2.1
              ∙ ap (λ d. new_session h ch ip port ∷ d.sessions) q1.1,
          subst (λ d. IsActivated ch w.db.jobs d.jobs) (sym q4)
              (subst (λ d. IsActivated ch d.jobs w3.tx.jobs) (q2.0 ∙ q1.0) q3.1),
        )
  where
    completing :
        (w2 : World)
        → w2.tx.jobs ≡ w2.db.jobs
        → Ensures
            (when
              (service_status_eq ch.service_status activating)
              (attempt (complete_transition h in_tx ch ServiceStatus.active) >>= ignore_duplicate))
            w2
            (λ _ w3. (w3.tx.sessions ≡ w2.tx.sessions) × IsActivated ch w2.db.jobs w3.tx.jobs)
    completing w2 e =
        when_decided _ _ w2 (λ t. weaken (complete-Ensures h ch w2 e) λ _ w' q. (q.0, inl (t, q.1)))
          λ f. (refl, inr (f, e))

-- A session that was started: by whose request, and what it left.
pub record IsStarted (h : Server) (id key : Uuid) (password : Text) (ip : Option Text) (port : ℕ)
    (d : Db) (offer : Offering) (d' : Db) : Type 0 where
  pub prod : Product
  pub ch : Channel
  pub product_found : find? (λ p. p.id == id) d.products ≡ some prod
  pub checked : h.validate prod.password password (salt_rune prod.salt) ≡ true
  pub channel_found : find? (λ c. c.id == key) d.channels ≡ some ch
  pub offer_found : find? (λ o. o.id == ch.offering) d.offerings ≡ some offer
  pub session : Session
  pub sessions : d'.sessions ≡ session ∷ d.sessions
  pub of_channel : session.channel ≡ ch.id
  pub begun : session.started ≡ h.now
  pub left_open : session.stopped ≡ none
  pub no_units : session.units_used ≡ 0
  pub no_seconds : session.seconds_consumed ≡ 0
  pub address : session.client_ip ≡ ip
  pub activated : IsActivated ch d.jobs d'.jobs

start_session-Ensures :
    (h : Server) (id key : Uuid) (password : Text) (ip : Option Text) (port : ℕ) (w : World)
    → Ensures
        (start_session h id password key ip port)
        w
        (λ offer w'. IsStarted h id key password ip port w.db offer w'.db)
unfolding start_session new_session
start_session-Ensures h id key password ip port w =
    >>=-Ensures _ _ _ w (check-Ensures h id password w) λ p w1 q1.
      >>=-Ensures _ _ _ w1 (find_client_channel-Ensures p key w1) λ ch w2 q2.
        >>=-Ensures (λ o w3. (o ≡ find? (λ x. x.id == ch.offering) w2.db.offerings) × Same w2 w3) _
          _ w2 (on_error-Ensures _ _ w2 (query-Ensures plain _ w2))
          λ o w3 q3.
            >>=-Ensures (λ x w4. (o ≡ some x) × Same w3 w4) _ _ w3 (or_raise-Ensures o _ w3)
              λ offer w4 q4.
                >>=-Ensures
                  (λ _ w5.
                    (w5.db.sessions ≡ new_session h ch ip port ∷ w4.db.sessions)
                    × IsActivated ch w4.db.jobs w5.db.jobs)
                  _ _ w4 (on_error-Ensures _ _ w4 (record_start-Ensures h ch ip port w4))
                  λ _ w5 q5.
                    let t1 : w1.db ≡ w.db = q1.1.db in
                    let t2 : w2.db ≡ w.db = q2.1.db ∙ t1 in
                    let t4 : w4.db ≡ w.db = q4.1.db ∙ q3.1.db ∙ t2 in
                    pure-Ensures offer w5 (record {
                      prod = p;
                      ch = ch;
                      product_found = q1.0.0;
                      checked = q1.0.1;
                      channel_found =
                          subst (λ d. find? (λ c. c.id == key) d.channels ≡ some ch) t1 q2.0;
                      offer_found =
                          subst (λ d. find? (λ x. x.id == ch.offering) d.offerings ≡ some offer) t2
                            (sym q3.0 ∙ q4.0);
                      session = new_session h ch ip port;
                      sessions = q5.0 ∙ ap (λ d. new_session h ch ip port ∷ d.sessions) t4;
                      of_channel = refl;
                      begun = refl;
                      left_open = refl;
                      no_units = refl;
                      no_seconds = refl;
                      address = refl;
                      activated = subst (λ d. IsActivated ch d.jobs w5.db.jobs) t4 q5.1;
                    })

-- A session is started only with the product's password and for a channel whose offering is found,
-- which is returned. The new session of that channel is added, open and with nothing used; and if,
-- and only if, the service is being activated, a job that completes this to the active status is
-- added, unless the queue had one of that type for the channel, whatever that one completes to.
pub start_session_effect :
    (h : Server) (id key : Uuid) (password : Text) (ip : Option Text) (port : ℕ) (w : World)
    (offer : Offering)
    → (start_session h id password key ip port w).0 ≡ ok offer
    → IsStarted h id key password ip port w.db offer
        (start_session h id password key ip port w).1.db
start_session_effect h id key password ip port w offer e =
    (start_session-Ensures h id key password ip port w).holds offer e
