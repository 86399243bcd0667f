-- ===== src/Sess/Access.antt =====
-- sess/misc.go: what every request of an adapter looks up and checks.
use dappctrl.Base.{
  ℕ, Bool, true, false, ◌&&◌, ◌||◌, Option, none, some, List, [], ◌∷◌, ltb, leb, ◌==◌,
  if◌then◌else◌, find?, select,
}
use dappctrl.Data.{
  Uuid, Instant, Text, Base64String, Product, ClientIdent, by_channel_id, other_ident, Channel,
  Session,
}
use dappctrl.Data.Error.{access_denied, channel_not_found, session_not_found, sess_internal, fatal}
use dappctrl.Store.{Db, plain, Action, ◌>>=◌, ◌>>◌, pure, require, or_raise, on_error, query}
use dappctrl.Job.Config.{Config}
use dappctrl.Job.Add.{Stamp}

-- The server and what it reads of the clock and of the generator of identifiers. `validate hash
-- password salt` is bcrypt's comparison with the salted password; the salt is a text of one rune.
pub record Server : Type 0 where
  pub queue : Config
  pub stamp : Stamp
  pub now : Instant
  pub session_id : Uuid
  pub validate : Base64String → Text → ℕ → Bool

-- `string(salt)` of an integer is the text of the rune with that number, or of U+FFFD where there
-- is none.
unfoldable pub salt_rune : ℕ → ℕ
salt_rune n = if leb n 55295 || leb 57344 n && leb n 1114111 then n else 65533

unfoldable pub check_product_password : Server → Uuid → Text → Action Product
check_product_password h id password = do
  found ← on_error access_denied (query plain (λ d. find? (λ p. p.id == id) d.products))
  prod ← or_raise found access_denied
  require (h.validate prod.password password (salt_rune prod.salt)) access_denied
  pure prod

abbrev is_by_channel_id : ClientIdent → Bool
is_by_channel_id by_channel_id = true
is_by_channel_id (other_ident _) = false

-- Any other way to identify a client ends the process.
unfoldable pub find_client_channel : Product → Uuid → Action Channel
find_client_channel prod key = do
  require (is_by_channel_id prod.client_ident) fatal
  found ← on_error channel_not_found (query plain (λ d. find? (λ c. c.id == key) d.channels))
  or_raise found channel_not_found

abbrev is_open : Option Instant → Bool
is_open none = true
is_open (some _) = false

unfoldable pub open_sessions : Uuid → Db → List Session
open_sessions id d = select (λ s. s.channel == id && is_open s.stopped) d.sessions

abbrev later : Session → Option Session → Session
later s none = s
later s (some t) = if ltb s.started t.started then t else s

-- `ORDER BY started DESC LIMIT 1`
unfoldable pub latest : List Session → Option Session
latest [] = none
latest (s ∷ l) = some (later s (latest l))

unfoldable pub find_current_session : Uuid → Action Session
find_current_session id = do
  found ← on_error sess_internal (query plain (λ d. latest (open_sessions id d)))
  or_raise found session_not_found
