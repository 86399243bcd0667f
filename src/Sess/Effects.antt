-- ===== src/Sess/Effects.antt =====
-- What the lookups of a request find, and what an update of a session does.
use dappctrl.Base.{
  ℕ, ◌≤◌, ◌≡◌, ◌∙◌, sym, Bool, true, false, not, ◌&&◌, none, some, List, [], ◌∷◌, All, arith, find?,
  select, ◌==◌, Option-cases, inl, inr,
}
use dappctrl.Data.{Uuid, Text, Product, Channel, ServiceStatus, service_status_eq, Session}
use dappctrl.Store.{Db, World, plain}
use dappctrl.Store.Ensures.{
  Ensures, Same, >>=-Ensures, weaken, pure-Ensures, query-Ensures, or_raise-Ensures,
  require-Ensures, on_error-Ensures,
}
use dappctrl.Sess.Access.{
  Server, salt_rune, check_product_password, find_client_channel, open_sessions, latest,
  find_current_session,
}
use dappctrl.Sess.Session.{reported, save_session}
use dappctrl.Sess.Units.{latest_is_last}

pub check-Ensures :
    (h : Server) (id : Uuid) (password : Text) (w : World)
    → Ensures (check_product_password h id password) w (λ p w'.
      ((find? (λ x. x.id == id) w.db.products ≡ some p)
        × (h.validate p.password password (salt_rune p.salt) ≡ true))
      × Same w w')
unfolding check_product_password
check-Ensures h id password w =
    >>=-Ensures (λ o w1. (o ≡ find? (λ x. x.id == id) w.db.products) × Same w w1) _ _ w
      (on_error-Ensures _ _ w (query-Ensures plain _ w))
      λ o w1 q1.
        >>=-Ensures (λ p w2. (o ≡ some p) × Same w1 w2) _ _ w1 (or_raise-Ensures o _ w1)
          λ p w2 q2.
            >>=-Ensures
              (λ _ w3. (h.validate p.password password (salt_rune p.salt) ≡ true) × Same w2 w3) _ _
              w2 (require-Ensures _ _ w2)
              λ _ w3 q3. pure-Ensures p w3 (
                (sym q1.0 ∙ q2.0, q3.0),
                record { db = q3.1.db ∙ q2.1.db ∙ q1.1.db; tx = q3.1.tx ∙ q2.1.tx ∙ q1.1.tx },
              )

pub find_client_channel-Ensures :
    (prod : Product) (key : Uuid) (w : World)
    → Ensures
        (find_client_channel prod key)
        w
        (λ ch w'. (find? (λ c. c.id == key) w.db.channels ≡ some ch) × Same w w')
unfolding find_client_channel
find_client_channel-Ensures prod key w =
    >>=-Ensures (λ _ w1. Same w w1) _ _ w (weaken (require-Ensures _ _ w) λ _ _ q. q.1)
      λ _ w1 q1.
        >>=-Ensures (λ o w2. (o ≡ find? (λ c. c.id == key) w1.db.channels) × Same w1 w2) _ _ w1
          (on_error-Ensures _ _ w1 (query-Ensures plain _ w1))
          λ o w2 q2. weaken (or_raise-Ensures o _ w2) λ ch w3 q3. ground arith

pub find_current_session-Ensures :
    (id : Uuid) (w : World)
    → Ensures
        (find_current_session id)
        w
        (λ s w'. (latest (open_sessions id w.db) ≡ some s) × Same w w')
unfolding find_current_session
find_current_session-Ensures id w =
    >>=-Ensures (λ o w1. (o ≡ latest (open_sessions id w.db)) × Same w w1) _ _ w
      (on_error-Ensures _ _ w (query-Ensures plain _ w))
      λ o w1 q1. weaken (or_raise-Ensures o _ w1) λ s w2 q2. ground arith

latest-select :
    (p : Session → Bool) (l : List Session) (s : Session)
    → latest (select p l) ≡ some s
    → p s ≡ true
unfolding latest select
latest-select p [] s e = cc
latest-select p (t ∷ l) s e = elim (Option-cases (latest (select p l))) [
  | inl n ↦ ground arith
  | inr (r, f) ↦ ground (arith, latest-select p l r f)
]

-- The session that a request finds: open, of the channel, and the last to be started of those.
pub record IsCurrent (id : Uuid) (d : Db) (s : Session) : Type 0 where
  pub channel : s.channel ≡ id
  pub unstopped : s.stopped ≡ none
  pub last : All (λ t. t.started ≤ s.started) (open_sessions id d)

pub latest-IsCurrent :
    (id : Uuid) (d : Db) (s : Session) → latest (open_sessions id d) ≡ some s → IsCurrent id d s
unfolding open_sessions
latest-IsCurrent id d s e =
    let t = latest-select _ d.sessions s e in
    record { channel = ground arith; unstopped = ground arith; last = latest_is_last _ s e }

-- An accepted report: whose product, channel and session it is for, and the tables that it left.
pub record IsUpdated (h : Server) (id key : Uuid) (password : Text) (bytes : ℕ) (d d' : Db)
    : Type 0 where
  pub prod : Product
  pub ch : Channel
  pub session : Session
  pub product_found : find? (λ p. p.id == id) d.products ≡ some prod
  pub checked : h.validate prod.password password (salt_rune prod.salt) ≡ true
  pub channel_found : find? (λ c. c.id == key) d.channels ≡ some ch
  pub served :
      (prod.is_server && not (service_status_eq ch.service_status ServiceStatus.active)) ≡ false
  pub current : IsCurrent ch.id d session
  pub tables :
      d'
      ≡ save_session
          (record session {
            units_used = reported prod.usage_rep_type bytes session.units_used;
            last_usage_time = h.now;
          })
          d
