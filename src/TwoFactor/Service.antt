-- ===== src/TwoFactor/Service.antt =====
-- The two-factor methods of api/apps/user/v0/service/auth.py.
use fastapi_asyncpg_template.Auth.Users
use fastapi_asyncpg_template.Base.{
  ◌&&◌, is_some, ◌/◌, not, truthy, true, if◌then◌else◌, List, none, some, String, false, ℕ, Option,
  Bool,
}
use fastapi_asyncpg_template.Base.Http.{
  pure, http, raise_if, or_raise, modify, ◌>>=◌, ◌>>◌, gets, Handler,
}
use fastapi_asyncpg_template.Auth.Service.{
  issue_tokens_and_session, publish, set_redis, LoginResponse, Request,
}
use fastapi_asyncpg_template.Auth.Users.{
  get_by_id, update_two_factor_backup_codes, upsert_two_factor, get_two_factor,
}
use fastapi_asyncpg_template.Auth.World.{
  flag, user_2fa_disabled, user_2fa_enabled, two_factor_challenge, two_factor_replay,
  two_factor_setup, World, User, RedisValue, TwoFactor, Services,
}
use fastapi_asyncpg_template.TwoFactor.Backup.{remaining}
use fastapi_asyncpg_template.TwoFactor.Codes.{
  strip, generate_backup_codes, verify_totp, verify_and_consume_backup_code, Text,
}

pub record Status : Type 0 where
  pub is_enabled : Bool
  pub backup_codes_remaining : ℕ

abbrev pub status_of : Option TwoFactor → Status
status_of none = record { is_enabled = false; backup_codes_remaining = 0 }
status_of (some t) =
    if t.is_enabled
    then record { is_enabled = true; backup_codes_remaining = remaining t.backup_codes }
    else record { is_enabled = false; backup_codes_remaining = 0 }

-- The secret that a key of the setup holds, if it is there and not empty.
abbrev pub setup_secret : Option RedisValue → Option String
setup_secret (some (RedisValue.secret s)) = if truthy s then some s else none
setup_secret _ = none

abbrev pub challenged_user : Option RedisValue → Option ℕ
challenged_user (some (RedisValue.user i)) = some i
challenged_user _ = none

-- `if not record or not record.is_enabled: raise`
abbrev pub enabled : Option TwoFactor → Option TwoFactor
enabled none = none
enabled (some t) = if t.is_enabled then some t else none

module _ (x : Services) where
  unfoldable pub get_two_factor_status : ℕ → Handler (World x.redis.Store) Status
  unfolding get_two_factor
  get_two_factor_status i = gets (λ w. status_of (get_two_factor w i))

  -- `initiate_two_factor_setup`; `fresh` is the secret that `generate_totp_secret` draws.
  unfoldable pub initiate_two_factor_setup :
      User → String → (now : ℕ) → Handler (World x.redis.Store) String
  initiate_two_factor_setup u fresh now = do
    modify (λ w.
        set_redis
          (x.redis.set w.redis now (two_factor_setup u.id) (RedisValue.secret (x.encrypt fresh))
            600)
          w)
    pure fresh

  -- `confirm_two_factor_setup`; `draws` are those of `generate_backup_codes(count=10)`.
  unfoldable pub confirm_two_factor_setup :
      User → Text → List (Text × Text) → (now : ℕ) → Handler (World x.redis.Store) (List Text)
  unfolding upsert_two_factor
  confirm_two_factor_setup u code draws now = do
    found ← gets (λ w. setup_secret (x.redis.get w.redis now (two_factor_setup u.id)))
    encrypted ← or_raise found (http 400 "auth.two_factor_setup_expired")
    raise_if (not (verify_totp x (x.decrypt encrypted) code now 1))
        (http 400 "auth.two_factor_invalid_code")
    let codes = generate_backup_codes x draws
    modify (upsert_two_factor u.id encrypted codes.1 true)
    modify (λ w. set_redis (x.redis.delete w.redis (two_factor_setup u.id)) w)
    modify (publish (user_2fa_enabled u.id))
    pure codes.0

  -- The check that `disable_two_factor` and `regenerate_two_factor_backup_codes` share.
  unfoldable pub require_code : ℕ → Text → (now : ℕ) → Handler (World x.redis.Store) TwoFactor
  unfolding get_two_factor
  require_code i code now = do
    found ← gets (λ w. enabled (get_two_factor w i))
    t ← or_raise found (http 400 "auth.two_factor_not_enabled")
    raise_if
        (not (verify_totp x (x.decrypt t.secret_encrypted) (strip code) now 1)
          && not (verify_and_consume_backup_code x t.backup_codes (strip code) now).0)
        (http 400 "auth.two_factor_invalid_code_or_backup")
    pure t

  unfoldable pub disable_two_factor :
      User → Text → (now : ℕ) → Handler (World x.redis.Store) (Unit {0})
  unfolding require_code Users.disable_two_factor
  disable_two_factor u code now = do
    t ← require_code u.id code now
    modify (Users.disable_two_factor u.id)
    modify (publish (user_2fa_disabled u.id))

  unfoldable pub regenerate_two_factor_backup_codes :
      User → Text → List (Text × Text) → (now : ℕ) → Handler (World x.redis.Store) (List Text)
  unfolding require_code update_two_factor_backup_codes
  regenerate_two_factor_backup_codes u code draws now = do
    t ← require_code u.id code now
    let codes = generate_backup_codes x draws
    modify (update_two_factor_backup_codes u.id codes.1)
    pure codes.0

  -- The branch of `_verify_2fa_code_or_backup` for a one-time code: one for each slice of 30 seconds.
  unfoldable pub accept_totp : ℕ → (now : ℕ) → Handler (World x.redis.Store) (Unit {0})
  accept_totp i now = do
    seen ← gets (λ w. x.redis.get w.redis now (two_factor_replay i (now / 30)))
    raise_if (is_some seen) (http 400 "auth.two_factor_replay_detected")
    modify (λ w. set_redis (x.redis.set w.redis now (two_factor_replay i (now / 30)) flag 60) w)

  -- The branch for a backup code.
  unfoldable pub accept_backup :
      ℕ → TwoFactor → Text → (now : ℕ) → Handler (World x.redis.Store) (Unit {0})
  unfolding update_two_factor_backup_codes
  accept_backup i t code now = do
    let checked = verify_and_consume_backup_code x t.backup_codes code now
    raise_if (not checked.0) (http 400 "auth.two_factor_invalid_code_or_backup")
    modify (update_two_factor_backup_codes i checked.1)

  unfoldable pub verify_2fa_code_or_backup :
      ℕ → TwoFactor → Text → (now : ℕ) → Handler (World x.redis.Store) (Unit {0})
  unfolding accept_totp accept_backup
  verify_2fa_code_or_backup i t code now =
      if verify_totp x (x.decrypt t.secret_encrypted) code now 1
      then accept_totp i now
      else accept_backup i t code now

  -- The end of `verify_two_factor_challenge`, after the code was accepted.
  unfoldable pub complete_challenge :
      (token user_id now : ℕ)
      → Request
      → (jti jti' : ℕ) → Handler (World x.redis.Store) (LoginResponse x.Token)
  unfolding get_by_id
  complete_challenge token i now r jti jti' = do
    modify (λ w. set_redis (x.redis.delete w.redis (two_factor_challenge token)) w)
    u ← gets (λ w. get_by_id w i)
    u ← or_raise u (http 404 "user.not_found")
    issue_tokens_and_session x u now r jti jti'

  unfoldable pub verify_two_factor_challenge :
      (token : ℕ)
      → Text
      → (now : ℕ) → Request
      → (jti jti' : ℕ) → Handler (World x.redis.Store) (LoginResponse x.Token)
  unfolding verify_2fa_code_or_backup get_two_factor complete_challenge
  verify_two_factor_challenge token code now r jti jti' = do
    found ← gets (λ w. challenged_user (x.redis.get w.redis now (two_factor_challenge token)))
    i ← or_raise found (http 401 "auth.two_factor_challenge_expired")
    row ← gets (λ w. enabled (get_two_factor w i))
    t ← or_raise row (http 400 "auth.two_factor_not_enabled")
    verify_2fa_code_or_backup i t (strip code) now
    complete_challenge token i now r jti jti'
