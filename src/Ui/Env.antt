-- ===== src/Ui/Env.antt =====
-- ui/handler.go, ui/token.go and data/pwd_storage.go: what the handler of the user interface's
-- requests holds.
use dappctrl.Base.{ℕ, Bool, Option, List}
use dappctrl.Data.{
  Uuid, HexString, Base64String, Text, Instant, Address, Account, Offering, Job, EthTx, Template,
}
use dappctrl.Job.Config.{Config}
use dappctrl.Job.Add.{Stamp}

-- What is kept in memory: the access token that was made last, and the password that the user gave.
pub record Memory : Type 0 where
  pub token : Text
  pub password : Text

-- The handler, and how its libraries answer during one request. Texts and byte strings are numbers,
-- and the empty one is zero. `newest`, `latest_jobs` and `latest_txs` are the orders in which
-- PostgreSQL gives rows back that are to be ordered by the block, the time of creation or the time
-- of issue, the highest first.
pub record Handler : Type 0 where
  pub memory : Memory
  pub queue : Config
  pub stamp : Stamp
  pub now : Instant
  pub new_id : Uuid
  pub is_agent : Bool
  pub suggest_gas_price : Option ℕ
  pub ping : ℕ → Base64String → Bool
  pub to_address : HexString → Option Address
  pub parse_uint : Text → Option ℕ
  pub to_bytes : Base64String → Option ℕ
  pub newest : List Offering → List Offering
  pub latest_jobs : List Job → List Job
  pub latest_txs : List EthTx → List EthTx
  -- pwdStorage.GetKey under a password, encryptKeyFunc, and the public key and the address of a
  -- private key.
  pub get_key : Text → Account → Option ℕ
  pub encrypt_key : ℕ → Text → Option Base64String
  pub public_key : ℕ → Base64String
  pub address_of : ℕ → HexString
  pub zero_balance : Base64String
  -- The signed message of an offering, packed, and its hash.
  pub packed_offering : Account → Template → Offering → ℕ → Option ℕ
  pub of_bytes : ℕ → Base64String
  pub keccak : ℕ → HexString
  -- util.IsIPv4 or util.IsHostname
  pub is_host : Text → Bool
  -- The bytes of a password and its salt, and bcrypt's hash of bytes and its comparison of a hash
  -- with bytes.
  pub salted : Text → Text → ℕ
  pub generate_hash : ℕ → Option ℕ
  pub compare_hash : ℕ → ℕ → Bool
  -- A new token and a new salt.
  pub new_token : Option Text
  pub new_salt : Text
