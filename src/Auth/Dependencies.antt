-- ===== src/Auth/Dependencies.antt =====
-- api/core/dependencies.py: who may call an endpoint, from the token in the request's header.
use fastapi_asyncpg_template.Base.{
  ℕ, String, not, Option, none, some, List, str_eq, str_mem, all, ◌==◌, if◌then◌else◌,
}
use fastapi_asyncpg_template.Base.Http.{Raised, http, Handler, pure, modify, raise_if, ◌>>=◌, ◌>>◌}
use fastapi_asyncpg_template.Auth.Tokens.{verify_token}
use fastapi_asyncpg_template.Auth.Users.{get_user_by_id}
use fastapi_asyncpg_template.Auth.World.{User, World, Services}

abbrev pub credentials_exception : Raised
credentials_exception = http 401 "Could not validate credentials"

abbrev pub set_context : {S : Type 0} → Option ℕ → Option ℕ → World S → World S
set_context actor impersonator w = record w {
  current_actor = actor;
  current_impersonator = impersonator;
}

abbrev pub set_actor : {S : Type 0} → ℕ → World S → World S
set_actor i w = record w { current_actor = some i }

module _ (x : Services) where
  -- `get_current_user`; `scopes` are those that the endpoint requires.
  unfoldable pub get_current_user :
      (now : ℕ) → (scopes : List String) → x.Token → Handler (World x.redis.Store) User
  get_current_user now scopes token = do
    td ← verify_token x now token "access"
    raise_if (not (all (λ s. str_mem s td.scopes) scopes)) (http 403 "Not enough permissions")
    user ← get_user_by_id td.id
    raise_if (not (user.token_version == td.token_version)) credentials_exception
    modify (set_context (some user.id) (if td.is_impersonation then td.impersonator_id else none))
    pure user

  -- `get_sudo_user`
  unfoldable pub get_sudo_user : (now : ℕ) → x.Token → Handler (World x.redis.Store) User
  get_sudo_user now token = do
    td ← verify_token x now token "sudo"
    user ← get_user_by_id td.id
    raise_if (not (user.token_version == td.token_version)) credentials_exception
    raise_if td.is_impersonation
        (http 403 "Sudo access cannot be performed during an active impersonation session.")
    raise_if (not (str_eq td.type "sudo")) (http 403 "Sudo access required")
    modify (set_actor user.id)
    pure user

  -- `disallow_impersonation`
  unfoldable pub disallow_impersonation :
      (now : ℕ) → x.Token → Handler (World x.redis.Store) (Unit {0})
  disallow_impersonation now token = do
    td ← verify_token x now token "access"
    raise_if td.is_impersonation
        (http 403 "This operation cannot be performed during an active impersonation session.")
