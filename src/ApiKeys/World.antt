-- ===== src/ApiKeys/World.antt =====
-- The table api_keys, the Redis keys of API keys and what the code calls, from
-- api/apps/common/v0/schemas/api_key.py, api/shared/redis_keys.py and
-- api/migrations/008_api_keys_and_webhooks.sql.
use fastapi_asyncpg_template.Base.{
  ℕ, String, Bool, true, Option, some, none, List, ◌≡◌, ℕ_discrete, string_discrete, truthy,
}
use fastapi_asyncpg_template.Cache.{Json}
use fastapi_asyncpg_template.Redis.{Redis}

pub data RedisKey : Type 0 where
  api_key_cache : String → RedisKey
  last_used_lock : ℕ → RedisKey

unfoldable pub RedisKey-discrete : Discrete RedisKey
RedisKey-discrete = hlevel (ℕ_discrete, string_discrete)

-- `ApiKeyData`, as it is written to JSON: without the hash.
pub record ApiKey : Type 0 where
  pub id : ℕ
  pub created_by : Option ℕ
  pub name : String
  pub prefix : String
  pub scopes : List String
  pub rate_limit : Option ℕ
  pub expires_at : Option ℕ
  pub last_used_at : Option ℕ
  pub is_active : Bool
  pub created_at : ℕ
  pub updated_at : ℕ

-- A row of the table.
pub record Row : Type 0 where
  pub hashed_key : String
  pub last_used_ip : Option String
  pub info : ApiKey

pub data RedisValue : Type 0 where
  one : RedisValue
  model : ApiKey → RedisValue

abbrev pub json : Json RedisValue ApiKey
json = record { write = model; read = λ v. elim v [ one ↦ none | model a ↦ some a ] }

-- The table, the Redis server and the context variable CURRENT_ACTOR_ID.
pub record Keys (Store : Type 0) : Type 0 where
  pub rows : List Row
  pub redis : Store
  pub current_actor : Option ℕ

pub record ApiKeyCreate : Type 0 where
  pub name : String
  pub scopes : List String
  pub rate_limit : Option ℕ
  pub expires_at : Option ℕ

pub record ApiKeyUpdate : Type 0 where
  pub name : Option String
  pub scopes : Option (List String)
  pub rate_limit : Option ℕ
  pub expires_at : Option ℕ
  pub is_active : Option Bool

-- Redis; SHA-256 from a key to its digest in hexadecimal, which is not empty; and the first 16
-- characters of a text.
pub record Services : Type 1 where
  pub redis : Redis RedisKey RedisValue RedisKey-discrete
  pub sha256 : String → String
  pub sha256_truthy : (s : String) → truthy (sha256 s) ≡ true
  pub first_16 : String → String
