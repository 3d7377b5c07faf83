-- ===== src/Roles/World.antt =====
-- The tables roles, role_permissions and user_roles beside the users, and the hash that caches roles.
use fastapi_asyncpg_template.Base.{
  ℕ, String, Bool, Option, some, none, List, ℕ_discrete, any, ◌==◌, ◌&&◌,
}
use fastapi_asyncpg_template.Auth.World.{World}
use fastapi_asyncpg_template.Cache.{Json}
use fastapi_asyncpg_template.Redis.{RedisHash}

-- `RoleData`, with the ids of its permissions.
pub record RoleData : Type 0 where
  pub id : ℕ
  pub name : String
  pub description : Option String
  pub permission_ids : List ℕ
  pub created_at : ℕ
  pub updated_at : ℕ

-- The fields of ROLES_CACHE.
pub data RoleField : Type 0 where
  field_by_id : ℕ → RoleField
  field_all : ℕ → ℕ → RoleField
  field_first : ℕ → RoleField

unfoldable pub RoleField-discrete : Discrete RoleField
RoleField-discrete = hlevel ℕ_discrete

pub data RoleJson : Type 0 where
  one : RoleData → RoleJson
  many : List RoleData → RoleJson

abbrev pub role_json : Json RoleJson RoleData
role_json = record { write = one; read = λ v. elim v [ one r ↦ some r | many rs ↦ none ] }

-- Roles, who has which, the users, and the cache. `user_roles` are pairs of a user and a role.
pub record Tables (S H : Type 0) : Type 0 where
  pub roles : List RoleData
  pub user_roles : List (ℕ × ℕ)
  pub world : World S
  pub cache : H

abbrev pub has_role : ℕ → ℕ → List (ℕ × ℕ) → Bool
has_role user role = any (λ p. p.0 == user && p.1 == role)

pub record RoleCreate : Type 0 where
  pub name : String
  pub description : Option String
  pub permission_ids : List ℕ

pub record RoleUpdate : Type 0 where
  pub name : Option String
  pub description : Option String
  pub permission_ids : Option (List ℕ)

-- The hash of the server, and the names of permissions by their ids.
pub record RoleServices : Type 1 where
  pub hash : RedisHash RoleField RoleJson RoleField-discrete
  pub permission : ℕ → String
