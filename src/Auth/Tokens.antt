-- ===== src/Auth/Tokens.antt =====
-- api/core/auth.py: passwords, and the creation and verification of tokens.
pub mod Verify
use mathlib.Core.Option
use fastapi_asyncpg_template.Base.{
  ℕ, ◌+◌, ◌*◌, String, Bool, false, not, Option, none, some, List, [], str_eq, if◌then◌else◌,
  is_some,
}
use fastapi_asyncpg_template.Base.Http.{
  Raised, http, Handler, pure, raise_if, or_raise, ◌>>=◌, ◌>>◌,
}
use fastapi_asyncpg_template.Auth.World.{
  RedisKey, blacklist_access, blacklist_refresh, blacklist_sudo, World, Claims, Services,
}

-- `TokenTypes` of api/constants.py and its values.
pub data TokenTypes : Type 0 where
  access refresh sudo : TokenTypes

abbrev pub value : TokenTypes → String
value access = "access"
value refresh = "refresh"
value sudo = "sudo"

-- TokenData of api/apps/user/v0/schemas/auth.py
pub record TokenData : Type 0 where
  pub username : String
  pub id : ℕ
  pub exp : ℕ
  pub jti : ℕ
  pub type : String
  pub scopes : List String
  pub token_version : ℕ
  pub is_impersonation : Bool
  pub impersonator_id : Option ℕ
  pub impersonator_username : Option String

pub record NewToken (Token : Type 0) : Type 0 where
  pub token : Token
  pub expires_at : ℕ
  pub jti : ℕ

abbrev pub invalid_credentials : Raised
invalid_credentials = http 401 "Invalid authentication credentials"

-- The value of a claim, or the default of `payload.get`.
abbrev pub default {ℓ} : {A : Type ℓ} → A → Option A → A
default a none = a
default a (some b) = b

-- The key that says that a token of a type is revoked, if the type has one.
abbrev pub blacklist_key : String → ℕ → Option (RedisKey × String)
blacklist_key type jti =
    if str_eq type "access"
    then some (blacklist_access jti, "Access token has been revoked.")
    else if str_eq type "refresh"
    then some (blacklist_refresh jti, "Refresh token has been revoked.")
    else if str_eq type "sudo"
    then some (blacklist_sudo jti, "Sudo token has been revoked.")
    else none

module _ (x : Services) where
  -- `verify_password`: a user with no password has no matching one.
  unfoldable pub verify_password : String → Option String → Bool
  verify_password plain none = false
  verify_password plain (some hashed) = x.checkpw plain hashed

  -- `_create_token`; the fresh `uuid4` is the argument `jti`.
  unfoldable pub create_token : Claims → (expire : ℕ) → String → (jti : ℕ) → NewToken x.Token
  create_token claims expire type jti = record {
    token = x.encode (record claims { exp = some expire; jti = some jti; type = some type });
    expires_at = expire;
    jti = jti;
  }

  unfoldable pub create_access_token : Claims → (now jti : ℕ) → NewToken x.Token
  unfolding create_token
  create_access_token claims now =
      create_token claims (now + x.settings.access_token_expire_minutes * 60) "access"

  unfoldable pub create_impersonation_token :
      Claims → (now expire_minutes jti : ℕ) → NewToken x.Token
  unfolding create_token
  create_impersonation_token claims now expire_minutes =
      create_token claims (now + expire_minutes * 60) "access"

  unfoldable pub create_refresh_token : Claims → (now jti : ℕ) → x.Token
  unfolding create_token
  create_refresh_token claims now jti =
      (create_token claims (now + x.settings.refresh_token_expire_days * 86400) "refresh" jti).token

  unfoldable pub create_sudo_token : Claims → (now jti : ℕ) → x.Token
  unfolding create_token
  create_sudo_token claims now jti =
      (create_token claims (now + x.settings.sudo_token_expire_minutes * 60) "sudo" jti).token

  unfoldable pub check_blacklist : (now : ℕ) → String → ℕ → Handler (World x.redis.Store) (Unit {0})
  check_blacklist now type jti w = elim (blacklist_key type jti) [
    | none ↦ pure tt w
    | some (key, detail) ↦ raise_if (is_some (x.redis.get w.redis now key)) (http 401 detail) w
  ]

  unfoldable pub token_data : Claims → String → ℕ → ℕ → ℕ → String → TokenData
  token_data p username id exp jti type = record {
    username = username;
    id = id;
    exp = exp;
    jti = jti;
    type = type;
    scopes = default [] p.scopes;
    token_version = default 1 p.token_version;
    is_impersonation = default false p.is_impersonation;
    impersonator_id = Option.map (λ a. a.0) p.act;
    impersonator_username = Option.map (λ a. a.1) p.act;
  }

  -- `verify_token`: each missing claim and a wrong type raise the same 401.
  unfoldable pub verify_token :
      (now : ℕ) → x.Token → (token_type : String) → Handler (World x.redis.Store) TokenData
  unfolding check_blacklist token_data
  verify_token now token token_type = do
    p ← or_raise (x.decode now token) invalid_credentials
    username ← or_raise p.sub invalid_credentials
    id ← or_raise p.id invalid_credentials
    exp ← or_raise p.exp invalid_credentials
    jti ← or_raise p.jti invalid_credentials
    type ← or_raise p.type invalid_credentials
    raise_if (not (str_eq type token_type)) invalid_credentials
    check_blacklist now token_type jti
    pure (token_data p username id exp jti type)
