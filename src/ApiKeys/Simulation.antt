-- ===== src/ApiKeys/Simulation.antt =====
-- When an operation of API keys does what the specification without a cache does.
use fastapi_asyncpg_template.Base.{ℕ, List, ◌≡◌, refl, sym, map, subst}
use fastapi_asyncpg_template.Base.Http.{err, Raised}
use fastapi_asyncpg_template.ApiKeys.Coherence.{Coherent}
use fastapi_asyncpg_template.ApiKeys.Spec.{forget, forget_reply, Reply}
use fastapi_asyncpg_template.ApiKeys.World.{Row, Keys, Services}

module _ (x : Services) where
  -- A state of the code stands for a table.
  pub record Stands (t : ℕ) (w : Keys x.redis.Store) (rows : List Row) : Type 0 where
    pub table : map forget w.rows ≡ rows
    pub cache : Coherent x t w.redis rows

  pub record Simulates (t : ℕ) (r : Reply × Keys x.redis.Store) (r' : Reply × List Row)
      : Type 0 where
    pub reply : forget_reply r.0 ≡ r'.0
    pub state : Stands t r.1 r'.1

  pub Simulates-at :
      {t : ℕ} {r : Reply × Keys x.redis.Store} {q : Reply × List Row}
      (r' : Reply × Keys x.redis.Store) (q' : Reply × List Row)
      → r ≡ r'
      → q ≡ q'
      → Simulates t r' q'
      → Simulates t r q
  Simulates-at {t} {r} {q} r' q' e d h =
      subst (λ p. Simulates t p q) (sym e) (subst (λ p. Simulates t r' p) (sym d) h)

  module _ (now : ℕ) (w : Keys x.redis.Store) (c : Coherent x now w.redis (map forget w.rows)) where
    -- A request that is refused and changes nothing.
    pub refused :
        (r : Reply × Keys x.redis.Store) (q : Reply × List Row) (e : Raised)
        → r ≡ (err e, w)
        → q ≡ (err e, map forget w.rows)
        → Simulates now r q
    refused r q e d d' =
        Simulates-at (err e, w) (err e, map forget w.rows) d d'
          (record { reply = refl; state = record { table = refl; cache = c } })
