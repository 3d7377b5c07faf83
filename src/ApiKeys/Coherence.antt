-- ===== src/ApiKeys/Coherence.antt =====
-- The cache of API keys agrees with the table, up to what records the use of a key.
use fastapi_asyncpg_template.Base.{
  ℕ, ◌+◌, ◌≤◌, ◌<◌, String, true, false, some, none, List, ◌∷◌, ◌≡◌, ◌⊎◌, inl, inr, str_eq, truthy,
  if◌then◌else◌, ite, arith, eq_iff, Option-cases, ltb,
}
use fastapi_asyncpg_template.ApiKeys.Dao.{row_by_id, row_by_hash, update_row, remove_row, info_of}
use fastapi_asyncpg_template.ApiKeys.Rows.{row_by_hash-update_row, row_by_hash-remove_row}
use fastapi_asyncpg_template.ApiKeys.Spec.{forget_info}
use fastapi_asyncpg_template.ApiKeys.World.{
  RedisKey-discrete, api_key_cache, last_used_lock, one, model, ApiKey, Row, Services,
}

pub ite-cache :
    {A : Type 0} (h k : String) (a b : A)
    → ite (RedisKey-discrete (api_key_cache h) (api_key_cache k)) a b
      ≡ (if str_eq h k then a else b)
unfolding RedisKey-discrete
ite-cache h k a b = ground (arith, eq_iff h k)

pub ite-lock :
    {A : Type 0} (i : ℕ) (k : String) (a b : A)
    → ite (RedisKey-discrete (last_used_lock i) (api_key_cache k)) a b ≡ b
unfolding RedisKey-discrete
ite-lock i k a b = ground arith

module _ (x : Services) where
  -- What is cached for a digest from `t` on is in the table.
  pub record Coherent (t : ℕ) (s : x.redis.Store) (rows : List Row) : Type 0 where
    pub agrees :
        (h : String) (now : ℕ) (v : ApiKey)
        → truthy h ≡ true
        → t ≤ now
        → x.redis.get s now (api_key_cache h) ≡ some (model v)
        → info_of (row_by_hash h rows) ≡ some (forget_info v)

  pub Coherent-later :
      {t t' : ℕ} {s : x.redis.Store} {rows : List Row}
      → Coherent t s rows
      → t ≤ t'
      → Coherent t' s rows
  Coherent-later c p = record { agrees = λ h now v k q. c.agrees h now v k (omega arith) }

  pub Coherent-save :
      {t : ℕ} {s : x.redis.Store} {rows : List Row} (h : String) (v : ApiKey) (ex : ℕ)
      → 0 < ex
      → Coherent t s rows
      → info_of (row_by_hash h rows) ≡ some (forget_info v)
      → Coherent t (x.redis.set s t (api_key_cache h) (model v) ex) rows
  Coherent-save {t} {s} h v ex pos c e = record {
    agrees = λ k now u tk p g. ground (
      arith,
      c.agrees k now u,
      x.redis.get-set s t (api_key_cache h) (model v) ex now (api_key_cache k),
      ite-cache h k (if ltb now (t + ex) then some (model v) else none)
          (x.redis.get s now (api_key_cache k)),
      eq_iff h k,
    );
  }

  pub get-set_nx_lock :
      (s : x.redis.Store) (t i : ℕ) (now : ℕ) (k : String)
      → t ≤ now
      → x.redis.get (x.redis.set_nx s t (last_used_lock i) one 300).1 now (api_key_cache k)
        ≡ x.redis.get s now (api_key_cache k)
  get-set_nx_lock s t i now k p = elim (Option-cases (x.redis.get s t (last_used_lock i))) [
    | inl e ↦
        rw
          (
            x.redis.set_nx_free s t (last_used_lock i) one 300 e,
            x.redis.get-set s t (last_used_lock i) one 300 now (api_key_cache k) (omega arith) p,
          )
          (ite-lock i k _ _)
    | inr (w, e) ↦ rw (x.redis.set_nx_taken s t (last_used_lock i) one w 300 e)
  ]

  pub Coherent-lock :
      {t : ℕ} {s : x.redis.Store} {rows : List Row} (i : ℕ)
      → Coherent t s rows
      → Coherent t (x.redis.set_nx s t (last_used_lock i) one 300).1 rows
  Coherent-lock {t} {s} i c = record {
    agrees = λ k now v tk p g. c.agrees k now v tk p (rw (get-set_nx_lock s t i now k p) at g);
  }

  pub Coherent-insert :
      {t : ℕ} {s : x.redis.Store} {rows : List Row} (r : Row)
      → row_by_hash r.hashed_key rows ≡ none
      → Coherent t s rows
      → Coherent t s (r ∷ rows)
  Coherent-insert r e c = record {
    agrees = λ k now v tk p g. ground (arith, c.agrees k now v tk p g, eq_iff r.hashed_key k);
  }

  -- What `_evict_cache` leaves.
  abbrev pub evicted : x.redis.Store → String → x.redis.Store
  evicted s h = if truthy h then x.redis.delete s (api_key_cache h) else s

  pub get-evicted :
      (s : x.redis.Store) (h k : String) (now : ℕ)
      → truthy k ≡ true
      → x.redis.get (evicted s h) now (api_key_cache k)
        ≡ (if str_eq h k then none else x.redis.get s now (api_key_cache k))
  get-evicted s h k now tk = ground (
    arith,
    x.redis.get-delete s (api_key_cache h) now (api_key_cache k),
    ite-cache h k none (x.redis.get s now (api_key_cache k)),
    eq_iff h k,
  )

  module _ {t : ℕ} {s : x.redis.Store} {rows : List Row} (i : ℕ) (r : Row)
      (found : row_by_id i rows ≡ some r) (c : Coherent t s rows) where
    pub Coherent-update :
        (f : Row → Row)
        → ((k : String)
            → str_eq r.hashed_key k ≡ false
            → (str_eq (f r).hashed_key k ≡ false) ⊎ (row_by_hash k rows ≡ none))
        → Coherent t (evicted s r.hashed_key) (update_row i f rows)
    Coherent-update f other = record {
      agrees = λ k now v tk p g. ground (
        arith,
        get-evicted s r.hashed_key k now tk,
        c.agrees k now v tk p,
        other k,
        row_by_hash-update_row i k r f rows,
      );
    }

    pub Coherent-remove : Coherent t (evicted s r.hashed_key) (remove_row i rows)
    Coherent-remove = record {
      agrees = λ k now v tk p g. ground (
        arith,
        get-evicted s r.hashed_key k now tk,
        c.agrees k now v tk p,
        row_by_hash-remove_row i k r rows,
      );
    }
