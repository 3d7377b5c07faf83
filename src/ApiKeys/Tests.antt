-- ===== src/ApiKeys/Tests.antt =====
-- API keys at concrete states, over Redis in memory.
use fastapi_asyncpg_template.Base.{
  ℕ, String, Bool-cases, inl, inr, true, false, some, none, List, [], ◌∷◌, ◌≡◌, refl, truthy,
  if◌then◌else◌,
}
use fastapi_asyncpg_template.ApiKeys.Dao.{new_row}
use fastapi_asyncpg_template.ApiKeys.Spec.{Op, create, verify, access, update, rotate, delete}
use fastapi_asyncpg_template.ApiKeys.World.{
  RedisKey, RedisKey-discrete, RedisValue, ApiKeyCreate, Row, Keys, Services, ApiKeyUpdate,
}
use fastapi_asyncpg_template.Redis.{Memory, in_memory}

abbrev digest : String → String
digest s = if truthy s then s else "0"

truthy-digest : (s : String) → truthy (digest s) ≡ true
truthy-digest s = elim (Bool-cases (truthy s)) [ inl e ↦ rw e e | inr e ↦ rw e refl ]

abbrev services : Services
services = record {
  redis = in_memory RedisKey-discrete;
  sha256 = digest;
  sha256_truthy = truthy-digest;
  first_16 = λ s. s;
}

abbrev key_in : ApiKeyCreate
key_in = record { name = "ci"; scopes = "read" ∷ []; rate_limit = none; expires_at = none }

abbrev row : Row
row = new_row 10 1 "k1" "k1" (some 7) key_in

abbrev start : Keys (Memory RedisKey RedisValue)
start = record { rows = row ∷ []; redis = λ k. none; current_actor = none }

abbrev off : ApiKeyUpdate
off = record {
  name = none;
  scopes = none;
  rate_limit = none;
  expires_at = none;
  is_active = some false;
}

abbrev requests : List (ℕ × Op)
requests =
    (20, verify "k1" none)
    ∷ (21, access ("read" ∷ []) (some "k1"))
    ∷ (22, rotate 1 "k2")
    ∷ (23, verify "k1" none)
    ∷ (24, verify "k2" none)
    ∷ (25, update 1 off)
    ∷ (26, verify "k2" none)
    ∷ (27, create 2 "k3" key_in none)
    ∷ (28, delete 2)
    ∷ (29, access [] (some "k3"))
    ∷ []
