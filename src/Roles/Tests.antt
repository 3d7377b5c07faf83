-- ===== src/Roles/Tests.antt =====
-- A role that is deleted at a concrete state.
use fastapi_asyncpg_template.Roles.Dao as RoleDao
use fastapi_asyncpg_template.Roles.Service as Service
use fastapi_asyncpg_template.Base.{some, none, [], ◌∷◌, ◌≢◌, refl, inl}
use fastapi_asyncpg_template.Base.Http.{ok}
use fastapi_asyncpg_template.Auth.Dependencies.{get_current_user}
use fastapi_asyncpg_template.Auth.Example.{services, world, ana}
use fastapi_asyncpg_template.Auth.Service.{user_claims, get_user_scopes}
use fastapi_asyncpg_template.Auth.Tokens.{
  create_access_token, verify_token, check_blacklist, token_data,
}
use fastapi_asyncpg_template.Auth.Users.{get_user_by_id}
use fastapi_asyncpg_template.Cache.{cached_in_hash}
use fastapi_asyncpg_template.Redis.{hash_in_memory}
use fastapi_asyncpg_template.Roles.Assign.{assign_roles, assign_roles-logs_out}
use fastapi_asyncpg_template.Roles.Service.{delete_role}
use fastapi_asyncpg_template.Roles.Tokens.{role_change-logs_out}
use fastapi_asyncpg_template.Roles.World.{RoleData, RoleField-discrete, RoleServices, Tables}

abbrev role_services : RoleServices
role_services = record { hash = hash_in_memory RoleField-discrete; permission = λ i. "user:read" }

abbrev reader : RoleData
reader = record {
  id = 5;
  name = "Reader";
  description = none;
  permission_ids = 1 ∷ [];
  created_at = 1;
  updated_at = 1;
}

abbrev tables : Tables services.redis.Store role_services.hash.Store
tables = record { roles = reader ∷ []; user_roles = (1, 5) ∷ []; world = world; cache = none }

abbrev after : Tables services.redis.Store role_services.hash.Store
after = (delete_role role_services 50 5 tables).1

abbrev token : services.Token
token = (create_access_token services (user_claims ana) 100 7).token

role_change-logs_out_example : (get_current_user services 300 [] token after.world).0 ≢ ok ana
unfolding get_current_user verify_token check_blacklist token_data get_user_scopes get_user_by_id
    create_access_token delete_role Service.get_role_by_id RoleDao.get_role_by_id
    RoleDao.delete_role cached_in_hash
role_change-logs_out_example =
    role_change-logs_out services role_services tables after
      (record world { current_actor = some 1; current_impersonator = none }) 5 50 200 300 token
      ("user:read" ∷ []) [] ana ana refl refl (inl refl)

-- The role 6 is not there, and the token is refused all the same.
assign_roles-logs_out_example :
    (get_current_user services 300 [] token
      (assign_roles role_services 1 (5 ∷ 6 ∷ []) tables).1.world).0
    ≢ ok ana
unfolding get_current_user verify_token check_blacklist token_data get_user_scopes get_user_by_id
    create_access_token
assign_roles-logs_out_example =
    assign_roles-logs_out services role_services tables
      (record world { current_actor = some 1; current_impersonator = none }) 5 (6 ∷ []) 200 300
      token ("user:read" ∷ []) [] ana ana refl
