-- ===== src/ApiKeys/Refinement.antt =====
-- Every sequence of requests for API keys has the replies of the specification without a cache.
use fastapi_asyncpg_template.Base.{ℕ, ◌≤◌, List, [], ◌∷◌}
use fastapi_asyncpg_template.ApiKeys.Spec.{Op}
use fastapi_asyncpg_template.ApiKeys.World.{Services}

module _ (x : Services) where
  -- The requests come one after another.
  abbrev pub Later : ℕ → List (ℕ × Op) → Type 0
  Later t [] = Unit {0}
  Later t ((now, op) ∷ ops) = (t ≤ now) × Later now ops
