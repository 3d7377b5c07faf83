-- ===== src/Idempotency/Tests.antt =====
-- The theorems on repeated requests, with a handler that counts.
use fastapi_asyncpg_template.Base.{ℕ_discrete, ℕ, none, [], ◌∷◌, ◌≡◌, arith, refl, ◌+◌}
use fastapi_asyncpg_template.Base.Http.{Result, ok}
use fastapi_asyncpg_template.Idempotency.Exclusion.{Reachable, start, step, Reachable-one}
use fastapi_asyncpg_template.Idempotency.Route.{
  acquire_lock, get_cached_response, Text, Response, RedisKey, RedisValue, RedisKey-discrete,
  Server, advance, arrived, utf8,
}
use fastapi_asyncpg_template.Redis.{Redis, in_memory}

abbrev redis : Redis RedisKey RedisValue RedisKey-discrete
redis = in_memory RedisKey-discrete

abbrev created : Response
created = record {
  status_code = 201;
  headers = (b's' ∷ [], b'1' ∷ []) ∷ (b's' ∷ [], b'2' ∷ []) ∷ [];
  content = utf8 [];
  media_type = none;
}

-- The response as it is stored.
abbrev once : Response
once = record created { headers = (b's' ∷ [], b'1' ∷ []) ∷ [] }

abbrev handler : ℕ → ℕ → Result Response × ℕ
handler i n = (ok created, n + i)

abbrev key : Text
key = b'k' ∷ []

abbrev server : Server redis.Store ℕ
server = record { redis = λ k. none; app = 0; phases = λ i. arrived; runs = []; clock = 0 }

abbrev begun : Server redis.Store ℕ
begun = advance redis handler key 1 20 (advance redis handler key 1 10 server)

begun-Reachable : Reachable redis handler key begun
unfolding advance
begun-Reachable =
    step 1 20 (advance redis handler key 1 10 server)
      (step 1 10 server (start server (λ i. refl)) (omega arith) (λ i t e. absurd (cc)))
      (omega arith) (λ i t e. omega arith)

-- Request 1 is the one that is processed.
Reachable-one_example : ◌≡◌ {A = ℕ} 1 1
unfolding advance ℕ_discrete get_cached_response acquire_lock
Reachable-one_example = Reachable-one redis handler key begun 1 1 20 20 begun-Reachable refl refl
