-- ===== src/Sess/Refused.antt =====
-- No request about a session or an endpoint is served without the product's password.
use dappctrl.Base.{
  ℕ, ◌≡◌, refl, Bool, false, Option, none, some, arith, find?, ◌==◌, Option-cases, inl, inr,
}
use dappctrl.Data.{Uuid, Text}
use dappctrl.Data.Error.{access_denied}
use dappctrl.Store.{Db, World, err, Action, ◌>>=◌, monad, tick}
use dappctrl.Sess.Access.{Server, salt_rune, check_product_password}
use dappctrl.Sess.Session.{
  service_ready, auth_client, start_session, update_session, stop_session, get_endpoint,
}

-- The product exists and the password is the one that is stored for it.
unfoldable pub is_authorized : Server → Uuid → Text → Db → Bool
is_authorized h id password d = elim (find? (λ p. p.id == id) d.products) [
  | none ↦ false
  | some p ↦ h.validate p.password password (salt_rune p.salt)
]

-- `m` denies access after a single query and does nothing else.
abbrev pub Denies : {A : Type 0} → Action A → World → Type 0
Denies m w = m w ≡ (err access_denied, tick w)

check-Denies :
    (h : Server) (id : Uuid) (password : Text) (w : World)
    → is_authorized h id password w.db ≡ false
    → Denies (check_product_password h id password) w
unfolding is_authorized check_product_password monad
check-Denies h id password w e = elim (Option-cases (find? (λ p. p.id == id) w.db.products)) [
  | inl n ↦ ground arith
  | inr (p, s) ↦ ground arith
]

then-Denies :
    {A B : Type 0} (m : Action A) (f : A → Action B) (w : World) → Denies m w → Denies (m >>= f) w
unfolding ◌>>=◌
then-Denies m f w e = rw e refl

-- Where the product does not exist or the password is not its own, the six requests of an adapter
-- about sessions, clients and endpoints are denied, and write nothing, whether the database answers or
-- not. The requests that set a product's configuration and that subscribe to changes are not modelled.
pub requests_denied :
    (h : Server) (id key : Uuid) (password client_password : Text) (ip : Option Text)
    (port bytes : ℕ) (w : World)
    → is_authorized h id password w.db ≡ false
    → Denies (service_ready h id password key) w
      × Denies (auth_client h id password key client_password) w
      × Denies (start_session h id password key ip port) w
      × Denies (update_session h id password key bytes) w
      × Denies (stop_session h id password key) w
      × Denies (get_endpoint h id password key) w
unfolding service_ready auth_client start_session update_session stop_session get_endpoint
requests_denied h id key password client_password ip port bytes w e =
    let d = check-Denies h id password w e in
    (
      then-Denies _ _ w d,
      then-Denies _ _ w d,
      then-Denies _ _ w d,
      then-Denies _ _ w d,
      then-Denies _ _ w d,
      then-Denies _ _ w d,
    )
