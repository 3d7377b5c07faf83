-- ===== src/Database/Tests.antt =====
-- The theorems on the pools at one configuration.
use fastapi_asyncpg_template.Base.{
  ◌==◌, str_eq, if◌then◌else◌, ℕ, String, Bool, true, false, some, none, [], ◌∷◌, ◌≡◌, refl,
}
use fastapi_asyncpg_template.Base.Http.{ok}
use fastapi_asyncpg_template.Database.Health.{health_check_loop-Answering, Answering}
use fastapi_asyncpg_template.Database.Lifecycle.{Attempt, done, failed, health_check_loop}
use fastapi_asyncpg_template.Database.Routing.{get_pool-Served, Served}
use fastapi_asyncpg_template.Database.Select.{DataBase, PoolMeta, get_pool}

abbrev replica : String → ℕ → Bool → PoolMeta
replica r p h = record { uri = "db"; pool = p; region = r; healthy = h; last_latency = none }

-- In the first region one of two replicas is down, in the second both are.
abbrev db : DataBase
db = record {
  write_pool = some 1;
  read_pools_by_region =
      ("eu", replica "eu" 2 true ∷ replica "eu" 3 false ∷ [])
      ∷ ("us", replica "us" 4 false ∷ replica "us" 5 false ∷ [])
      ∷ [];
  health_task = true;
  region_priority = [];
  closed = [];
}

get_pool-Served_example :
    (p : ℕ) × (r : String) × (get_pool false (some "us") 7 db ≡ (ok (p, r), db))
    × Served p db.read_pools_by_region
get_pool-Served_example = get_pool-Served db (some "us") 7 refl

-- Only replica 5 answers.
abbrev probe : ℕ → Attempt ℕ
probe p = if p == 5 then done 20 else failed

health_check_loop-Answering_example :
    let after = health_check_loop (probe ∷ []) db in
    (p : ℕ) × (r : String) × (get_pool false (some "eu") 0 after ≡ (ok (p, r), after))
    × Answering probe p db.read_pools_by_region
health_check_loop-Answering_example = health_check_loop-Answering probe db (some "eu") 0 refl refl

abbrev connect : String → Attempt ℕ
connect uri = if str_eq uri "primary" then done 1 else failed
