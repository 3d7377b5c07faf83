-- ===== src/Auth/Service.antt =====
-- api/apps/user/v0/service/auth.py: signing in, refreshing, sudo tokens, revoking and passwords.
-- A `uuid4` that a call draws is an argument.
use fastapi_asyncpg_template.Auth.Users
use fastapi_asyncpg_template.Base.{
  ◌*◌, ◌==◌, ℕ, zero, suc, String, Bool, false, ◌&&◌, not, Option, none, some, List, [], ◌∷◌, ◌++◌,
  str_mem, if◌then◌else◌,
}
use fastapi_asyncpg_template.Base.Http.{
  or_raise, gets, ◌>>=◌, http, error, Handler, pure, raise, modify, raise_if, ◌>>◌,
}
use fastapi_asyncpg_template.Base.Int.{ℤ, pos, negsuc}
use fastapi_asyncpg_template.Auth.Tokens.{
  verify_password, verify_token, create_sudo_token, NewToken, create_access_token,
  create_refresh_token,
}
use fastapi_asyncpg_template.Auth.Users.{get_by_id, get_by_username, get_two_factor}
use fastapi_asyncpg_template.Auth.World.{
  two_factor_challenge, user_password_changed, blacklist_refresh, flag, blacklist_access, RedisKey,
  RedisValue, User, Role, Session, TwoFactor, World, Claims, Services, Event,
}

-- The request's address and User-Agent header.
pub record Request : Type 0 where
  pub host : Option String
  pub user_agent : Option String

-- `LoginResponse` with its two tokens, and `TwoFactorChallengeResponse`.
pub record LoginResponse (Token : Type 0) : Type 0 where
  pub access_token : Token
  pub refresh_token : Token
  pub user : User

pub data Authenticated (Token : Type 0) : Type 0 where
  logged_in : LoginResponse Token → Authenticated Token
  challenge : (two_factor_token : ℕ) → Authenticated Token

-- `_get_user_scopes`: the permissions of all roles, each once. The order of the source's set is
-- not specified.
abbrev pub add_scope : String → List String → List String
add_scope s scopes = if str_mem s scopes then scopes else s ∷ scopes

abbrev pub add_scopes : List String → List String → List String
add_scopes [] scopes = scopes
add_scopes (p ∷ ps) scopes = add_scope p (add_scopes ps scopes)

unfoldable pub get_user_scopes : List Role → List String
get_user_scopes [] = []
get_user_scopes (r ∷ rs) = add_scopes r.permissions (get_user_scopes rs)

abbrev pub user_claims : User → Claims
user_claims u = record {
  sub = some u.username;
  id = some u.id;
  exp = none;
  jti = none;
  type = none;
  scopes = some (get_user_scopes u.roles);
  token_version = some u.token_version;
  is_impersonation = none;
  act = none;
}

-- The payload of a sudo token: a name and an id.
abbrev pub sudo_claims : User → Claims
sudo_claims u = record {
  sub = some u.username;
  id = some u.id;
  exp = none;
  jti = none;
  type = none;
  scopes = none;
  token_version = none;
  is_impersonation = none;
  act = none;
}

abbrev pub new_session : {Token : Type 0} → User → NewToken Token → ℕ → Request → Session
new_session u t now r = record {
  jti = t.jti;
  user_id = u.id;
  issued_at = now;
  expires_at = t.expires_at;
  ip_address = r.host;
  user_agent = r.user_agent;
}

abbrev pub two_factor_enabled : Option TwoFactor → Bool
two_factor_enabled none = false
two_factor_enabled (some t) = t.is_enabled

abbrev pub publish : {S : Type 0} → Event → World S → World S
publish e w = record w { events = w.events ++ e ∷ [] }

abbrev pub set_redis : {S : Type 0} → S → World S → World S
set_redis s w = record w { redis = s }

module _ (x : Services) where
  abbrev pub Action : Type 0 → Type 0
  Action A = Handler (World x.redis.Store) A

  -- SET key value EX ex. The server refuses a time to live that is not positive.
  abbrev pub redis_set : (now : ℕ) → RedisKey → RedisValue → ℤ → Action (Unit {0})
  redis_set now k v (pos zero) = raise (error "ResponseError")
  redis_set now k v (pos (suc n)) = modify (λ w. set_redis (x.redis.set w.redis now k v (suc n)) w)
  redis_set now k v (negsuc n) = raise (error "ResponseError")

  unfoldable pub check_mfa_enforcement : ℕ → Action (Unit {0})
  check_mfa_enforcement i w =
      raise_if (w.enforce_mfa && not (two_factor_enabled (get_two_factor w i)))
        (http 428 "auth.mfa_enforced") w

  unfoldable pub issue_tokens_and_session :
      User → (now : ℕ) → Request → (jti jti' : ℕ) → Action (LoginResponse x.Token)
  issue_tokens_and_session u now r jti jti' = do
    let access = create_access_token x (user_claims u) now jti
    let refresh = create_refresh_token x (user_claims u) now jti'
    modify (Users.upsert_user_session (new_session u access now r))
    pure (record { access_token = access.token; refresh_token = refresh; user = u })

  -- The user whose name and password match.
  unfoldable pub check_credentials : String → String → Action User
  unfolding get_by_username
  check_credentials username password = do
    u ← gets (λ w. get_by_username w username)
    u ← or_raise u (http 401 "auth.invalid_credentials")
    raise_if (not (verify_password x password u.hashed_password))
        (http 401 "auth.invalid_credentials")
    pure u

  -- The branch of `authenticate_user` for a user with two factors.
  unfoldable pub ask_second_factor : User → (now token : ℕ) → Action (Authenticated x.Token)
  ask_second_factor u now token = do
    redis_set now (two_factor_challenge token) (RedisValue.user u.id)
        (pos (x.settings.two_factor_challenge_expire_minutes * 60))
    pure (challenge token)

  -- The rest of `authenticate_user`, for a user whose password was right.
  unfoldable pub sign_in :
      User
      → Option TwoFactor
      → (now : ℕ) → Request
      → (token jti jti' : ℕ) → Action (Authenticated x.Token)
  sign_in u t now r token jti jti' =
      if two_factor_enabled t
      then ask_second_factor u now token
      else do response ← issue_tokens_and_session u now r jti jti'; pure (logged_in response)

  -- `authenticate_user`; `token` is the fresh challenge.
  unfoldable pub authenticate_user :
      String → String → (now : ℕ) → Request → (token jti jti' : ℕ) → Action (Authenticated x.Token)
  authenticate_user username password now r token jti jti' = do
    u ← check_credentials username password
    t ← gets (λ w. get_two_factor w u.id)
    sign_in u t now r token jti jti'

  unfoldable pub refresh_token :
      x.Token → (now : ℕ) → Request → (jti jti' : ℕ) → Action (LoginResponse x.Token)
  refresh_token token now r jti jti' = do
    td ← verify_token x now token "refresh"
    u ← gets (λ w. get_by_id w td.id)
    u ← or_raise u (http 401 "auth.invalid_refresh_user")
    raise_if (not (u.token_version == td.token_version)) (http 401 "auth.token_version_mismatch")
    check_mfa_enforcement u.id
    issue_tokens_and_session u now r jti jti'

  unfoldable pub create_sudo_token_user : String → String → (now jti : ℕ) → Action x.Token
  create_sudo_token_user username password now jti = do
    u ← check_credentials username password
    pure (create_sudo_token x (sudo_claims u) now jti)

  unfoldable pub create_sudo_token_oauth : User → (now jti : ℕ) → Action x.Token
  create_sudo_token_oauth u now jti = pure (create_sudo_token x (sudo_claims u) now jti)

  -- `revoke_session`: the session of one user goes, and its `jti` is refused while it lasts.
  unfoldable pub revoke_session : (user_id jti now : ℕ) → Action (Unit {0})
  unfolding Users.revoke_user_session
  revoke_session i jti now w =
      let (ttl, w') = Users.revoke_user_session i jti now w in
      elim ttl [
        | none ↦ raise (http 404 "user.session_not_found") w'
        | some ttl ↦
            (do
              redis_set now (blacklist_access jti) flag ttl
              redis_set now (blacklist_refresh jti) flag ttl)
              w'
      ]

  unfoldable pub update_password : ℕ → String → Action (Unit {0})
  unfolding Users.update_password
  update_password i password = do
    modify (Users.update_password i (x.hashpw password))
    u ← gets (λ w. get_by_id w i)
    modify (elim u [ none ↦ λ w. w | some u ↦ publish (user_password_changed i) ])
