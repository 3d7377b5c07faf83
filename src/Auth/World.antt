-- ===== src/Auth/World.antt =====
-- The state that the sign-in code reads and writes: the tables users, user_sessions and
-- user_two_factor, the Redis keys, the published events and the context variables.
-- A UUID and a `jti` are numbers; times are seconds.
use fastapi_asyncpg_template.Base.{
  ℕ, ◌+◌, ◌/◌, ◌≤◌, ◌<◌, String, ◌≡◌, Bool, true, Option, none, some, List, ℕ_discrete,
}
use fastapi_asyncpg_template.Redis.{Redis}

-- api/shared/redis_keys.py and the `blacklist:…` keys.
pub data RedisKey : Type 0 where
  blacklist_access blacklist_refresh blacklist_sudo : ℕ → RedisKey
  two_factor_setup two_factor_challenge impersonation_session : ℕ → RedisKey
  two_factor_replay : ℕ → ℕ → RedisKey

unfoldable pub RedisKey-discrete : Discrete RedisKey
RedisKey-discrete = hlevel ℕ_discrete

-- What the keys hold: a flag, a user id, an encrypted secret, a session's description.
pub data RedisValue : Type 0 where
  flag : RedisValue
  user : ℕ → RedisValue
  secret : String → RedisValue
  session : ℕ → ℕ → String → RedisValue

pub record Role : Type 0 where
  pub name : String
  pub permissions : List String

pub record User : Type 0 where
  pub id : ℕ
  pub username : String
  pub email : String
  pub hashed_password : Option String
  pub is_active : Bool
  pub token_version : ℕ
  pub roles : List Role

pub record Session : Type 0 where
  pub jti : ℕ
  pub user_id : ℕ
  pub issued_at : ℕ
  pub expires_at : ℕ
  pub ip_address : Option String
  pub user_agent : Option String

pub record BackupCode : Type 0 where
  pub code_hash : String
  pub used : Bool
  pub used_at : Option ℕ

pub record TwoFactor : Type 0 where
  pub user_id : ℕ
  pub is_enabled : Bool
  pub secret_encrypted : String
  pub backup_codes : List BackupCode

pub data Event : Type 0 where
  user_created user_password_changed user_2fa_enabled user_2fa_disabled : ℕ → Event
  user_role_assigned : ℕ → List ℕ → Event
  user_impersonation_started : (admin target jti : ℕ) → String → Event
  user_impersonation_stopped : (admin : ℕ) → Option ℕ → (jti : ℕ) → Event

pub data Audit : Type 0 where
  impersonation_start : (admin target jti minutes : ℕ) → String → Audit
  impersonation_stop : (admin : ℕ) → Option ℕ → (jti : ℕ) → Audit

pub record World (Store : Type 0) : Type 0 where
  pub users : List User
  pub sessions : List Session
  pub two_factor : List TwoFactor
  pub redis : Store
  pub events : List Event
  pub audit : List Audit
  pub enforce_mfa : Bool
  pub current_actor : Option ℕ
  pub current_impersonator : Option ℕ

-- The claims of a token; `none` is a claim that the payload lacks.
pub record Claims : Type 0 where
  pub sub : Option String
  pub id : Option ℕ
  pub exp : Option ℕ
  pub jti : Option ℕ
  pub type : Option String
  pub scopes : Option (List String)
  pub token_version : Option ℕ
  pub is_impersonation : Option Bool
  pub act : Option (ℕ × String)

-- The settings of api/core/config.py that the sign-in code reads.
pub record Settings : Type 0 where
  pub access_token_expire_minutes : ℕ
  pub refresh_token_expire_days : ℕ
  pub sudo_token_expire_minutes : ℕ
  pub two_factor_challenge_expire_minutes : ℕ

-- What the sign-in code calls and does not implement: Redis, PyJWT (a token that was encoded is
-- decoded to its claims until it expires, and the claims of a token do not change), bcrypt, Fernet (what was encrypted decrypts to itself), pyotp (the code
-- of a 30 second slice is accepted while the clock is within the window round it) and SHA-256.
pub record Services : Type 1 where
  pub redis : Redis RedisKey RedisValue RedisKey-discrete
  pub Token : Type 0
  pub encode : Claims → Token
  pub decode : (now : ℕ) → Token → Option Claims
  pub decode-encode :
      (now exp : ℕ) (c : Claims) → c.exp ≡ some exp → now < exp → decode now (encode c) ≡ some c
  pub decode-expired :
      (now exp : ℕ) (c : Claims) → c.exp ≡ some exp → exp ≤ now → decode now (encode c) ≡ none
  pub decode-stable :
      (now later : ℕ) (token : Token) (c d : Claims)
      → decode now token ≡ some c
      → decode later token ≡ some d
      → c ≡ d
  pub checkpw : String → String → Bool
  pub hashpw : String → String
  pub encrypt : String → String
  pub decrypt : String → String
  pub decrypt-encrypt : (s : String) → decrypt (encrypt s) ≡ s
  pub totp_at : String → ℕ → List ℕ
  pub totp_verify : String → List ℕ → (now valid_window : ℕ) → Bool
  pub totp_verify-totp_at :
      (s : String) (slice now window : ℕ)
      → slice ≤ now / 30 + window
      → now / 30 ≤ slice + window
      → totp_verify s (totp_at s slice) now window ≡ true
  pub sha256 : List ℕ → String
  pub settings : Settings
