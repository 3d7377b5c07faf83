-- ===== src/Auth/Tests.antt =====
-- The theorems on tokens, requests, sessions and impersonation at one state.
use fastapi_asyncpg_template.Base.{some, none, [], ◌∷◌, ◌≡◌, ◌≢◌, arith, refl}
use fastapi_asyncpg_template.Base.Http.{ok}
use fastapi_asyncpg_template.Auth.Access.{
  get_current_user-IsAuthorised, IsAuthorised, update_password-logs_out,
}
use fastapi_asyncpg_template.Auth.Dependencies.{get_current_user}
use fastapi_asyncpg_template.Auth.Example.{services, world, ana, bob}
use fastapi_asyncpg_template.Auth.Impersonation.{
  stop_impersonation, impersonation_claims, ImpersonationResponse, impersonate_user,
  impersonate_user-IsTarget, stop_impersonation-ends, IsTarget, SpeaksFor,
}
use fastapi_asyncpg_template.Auth.Revoke.{revoke_session-rejects_access}
use fastapi_asyncpg_template.Auth.Service.{
  get_user_scopes, user_claims, update_password, issue_tokens_and_session, revoke_session, Request,
}
use fastapi_asyncpg_template.Auth.Tokens.{
  TokenData, create_token, create_access_token, create_impersonation_token, verify_token,
  token_data, access, refresh, value, check_blacklist,
}
use fastapi_asyncpg_template.Auth.Tokens.Verify.{verify_token-create_token, outcome, is_revoked}
use fastapi_asyncpg_template.Auth.Users.{get_user_by_id}
use fastapi_asyncpg_template.Auth.World.{RedisKey-discrete, World}

-- A refresh token, where an access token is wanted.
verify_token-create_token_example :
    verify_token services 10
      (create_token services (user_claims ana) 1000 (value refresh) 7).token
      (value access)
      world
    ≡ (
      outcome refresh access
          (is_revoked services world 10 access 7)
          (token_data services (user_claims ana) "ana" 1 1000 7 (value refresh)),
      world,
    )
verify_token-create_token_example =
    verify_token-create_token services world (user_claims ana) "ana" 1 1000 7 10 refresh access refl
      refl (omega arith)

abbrev token : services.Token
token = (create_access_token services (user_claims ana) 100 7).token

abbrev seen : World services.redis.Store
seen = record world { current_actor = some 1; current_impersonator = none }

let_in : get_current_user services 200 ("user:read" ∷ []) token world ≡ (ok ana, seen)
unfolding get_current_user verify_token check_blacklist token_data get_user_scopes get_user_by_id
    create_access_token
let_in = refl

get_current_user-IsAuthorised_example :
    IsAuthorised services world 200 ("user:read" ∷ []) token ana
    × (seen ≡ record world { current_actor = some 1; current_impersonator = none })
get_current_user-IsAuthorised_example =
    get_current_user-IsAuthorised services world 200 ("user:read" ∷ []) token ana seen let_in

update_password-logs_out_example :
    (get_current_user services 300 [] token (update_password services 1 "new" world).1).0 ≢ ok ana
update_password-logs_out_example =
    update_password-logs_out services world seen 200 300 token ("user:read" ∷ []) [] ana ana "new"
      let_in

abbrev request : Request
request = record { host = some "10.0.0.1"; user_agent = some "curl" }

-- Ana signs in at 100 for 30 minutes, and the session is revoked at 200.
revoke_session-rejects_access_example :
    (verify_token services 300
      (create_access_token services (user_claims ana) 100 7).token
      "access"
      (revoke_session services 1 7 200
        (issue_tokens_and_session services ana 100 request 7 8 world).1).1).0
    ≢ ok (token_data services (user_claims ana) "ana" 1 1900 7 "access")
revoke_session-rejects_access_example =
    revoke_session-rejects_access services world ana request 100 7 8 refl 200 1699 300
      (token_data services (user_claims ana) "ana" 1 1900 7 "access") refl (omega arith)

-- Bob, as an administrator, acts as Ana for 15 minutes.
abbrev impersonation : ImpersonationResponse services.Token
impersonation = record {
  access_token = create_impersonation_token services (impersonation_claims bob ana) 100 15 21;
  target_user = ana;
}

abbrev impersonated : World services.redis.Store
impersonated = (impersonate_user services bob 1 "support" 100 15 21 world).1

started :
    impersonate_user services bob 1 "support" 100 15 21 world ≡ (ok impersonation, impersonated)
unfolding impersonate_user
started = refl

impersonate_user-IsTarget_example :
    IsTarget services.redis.Store world bob 1 ana
    × ((d : TokenData) × (verify_token services 500 impersonation.access_token.token "access"
            impersonated
          ≡ (ok d, impersonated))
        × SpeaksFor bob ana 1000 21 d)
unfolding impersonate_user RedisKey-discrete
impersonate_user-IsTarget_example =
    impersonate_user-IsTarget services world impersonated impersonated bob 1 "support" 100 15 21 500
      impersonation started (omega arith) refl

stop_impersonation-ends_example :
    (verify_token services 500
      (create_impersonation_token services (impersonation_claims bob ana) 100 15 21).token
      "access"
      (stop_impersonation services 21 2 400 impersonated).1).0
    ≢ ok (token_data services (impersonation_claims bob ana) "ana" 1 1000 21 "access")
stop_impersonation-ends_example =
    stop_impersonation-ends services impersonated bob ana 100 15 21 400 500
      (token_data services (impersonation_claims bob ana) "ana" 1 1000 21 "access") (omega arith)
      (omega arith) (omega arith)
