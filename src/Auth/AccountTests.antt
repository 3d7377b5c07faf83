-- ===== src/Auth/AccountTests.antt =====
-- New users and revoked sessions at one state.
use fastapi_asyncpg_template.Base.{
  ℕ, true, false, some, none, [], ◌∷◌, ◌≢◌, arith, refl, here, there,
}
use fastapi_asyncpg_template.Base.Http.{ok}
use fastapi_asyncpg_template.Auth.Accounts.{UserCreate, revoke_all_user_sessions}
use fastapi_asyncpg_template.Auth.Example.{services, world, ana}
use fastapi_asyncpg_template.Auth.RevokeAll.{revoke_all_user_sessions-rejects}
use fastapi_asyncpg_template.Auth.Service.{Request, user_claims}
use fastapi_asyncpg_template.Auth.Tokens.{TokenData, create_token, verify_token}
use fastapi_asyncpg_template.Auth.World.{Session, World}

abbrev session : ℕ → ℕ → Session
session i jti = record {
  jti = jti;
  user_id = i;
  issued_at = 100;
  expires_at = 1900;
  ip_address = none;
  user_agent = none;
}

abbrev two_sessions : World services.redis.Store
two_sessions = record world { sessions = session 1 7 ∷ session 2 8 ∷ session 1 9 ∷ [] }

abbrev data_of : TokenData
data_of = record {
  username = "ana";
  id = 1;
  exp = 1900;
  jti = 9;
  type = "access";
  scopes = [];
  token_version = 1;
  is_impersonation = false;
  impersonator_id = none;
  impersonator_username = none;
}

revoke_all_user_sessions-rejects_example :
    (verify_token services 300
      (create_token services (user_claims ana) 1900 "access" 9).token
      "access"
      (revoke_all_user_sessions services 1 200 two_sessions)).0
    ≢ ok data_of
revoke_all_user_sessions-rejects_example =
    revoke_all_user_sessions-rejects services two_sessions ana (session 1 9) 200 300 data_of
      (there (there (here refl)))
      (
        ((λ e. omega (arith, e)), ((λ e. omega (arith, e)), tt)),
        (((λ e. omega (arith, e)), tt), (tt, tt)),
      )
      refl (omega arith)

abbrev cleo : UserCreate
cleo = record {
  username = "cleo";
  email = "cleo@example.org";
  is_active = true;
  password = some "Str0ng!pass";
}

abbrev request : Request
request = record { host = none; user_agent = some "curl" }
