-- ===== src/Cache.antt =====
-- api/core/cache.py: the decorator `cache`, over the key that a call's arguments give, and
-- `cache_invalidate` of a whole hash, for a Redis server that answers.
use fastapi_asyncpg_template.Base.{ℕ, Option, some, none}
use fastapi_asyncpg_template.Redis.{Redis, RedisHash}

-- How a result is written as JSON and read back: `read` is none where the value is empty, is not
-- JSON or is no model.
pub record Json (V A : Type 0) : Type 0 where
  pub write : A → V
  pub read : V → Option A

module _ {K V A : Type 0} {dec : Discrete K} (redis : Redis K V dec) (json : Json V A) where
  -- `_get_from_cache`
  unfoldable pub get_from_cache : (now : ℕ) → K → redis.Store → Option A
  get_from_cache now k s = elim (redis.get s now k) [ none ↦ none | some v ↦ json.read v ]

  -- `_save_to_cache`: a result of None is not stored.
  unfoldable pub save_to_cache :
      (now : ℕ) → K → Option A → (expire : Option ℕ) → redis.Store → redis.Store
  save_to_cache now k none expire s = s
  save_to_cache now k (some a) none s = redis.set_forever s k (json.write a)
  save_to_cache now k (some a) (some expire) s = redis.set s now k (json.write a) expire

  -- The wrapper of `cache`; `loaded` is what the wrapped function returns when it is called.
  unfoldable pub cached :
      (now : ℕ)
      → K
      → (expire : Option ℕ) → (loaded : Option A) → redis.Store
      → Option A × redis.Store
  cached now k expire loaded s = elim (get_from_cache now k s) [
    | some a ↦ (some a, s)
    | none ↦ (loaded, save_to_cache now k loaded expire s)
  ]

abbrev pub read_cached : {V A : Type 0} → Json V A → Option V → Option A
read_cached json none = none
read_cached json (some v) = json.read v

-- The same with a hash key.
module _ {F V A : Type 0} {dec : Discrete F} (hash : RedisHash F V dec) (json : Json V A) where
  unfoldable pub save_to_hash : (now : ℕ) → F → Option A → (expire : ℕ) → hash.Store → hash.Store
  save_to_hash now f none expire s = s
  save_to_hash now f (some a) expire s = hash.hset s now f (json.write a) expire

  unfoldable pub cached_in_hash :
      (now : ℕ) → F → (expire : ℕ) → (loaded : Option A) → hash.Store → Option A × hash.Store
  cached_in_hash now f expire loaded s = elim (read_cached json (hash.hget s now f)) [
    | some a ↦ (some a, s)
    | none ↦ (loaded, save_to_hash now f loaded expire s)
  ]
