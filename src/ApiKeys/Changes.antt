-- ===== src/ApiKeys/Changes.antt =====
-- The operations that change a row: the table of the specification follows, and the cached key of
-- the row is evicted.
use fastapi_asyncpg_template.Base.{
  ℕ, String, false, Option, some, none, List, ◌≡◌, ◌⊎◌, inl, inr, refl, sym, is_some, str_eq, map,
  arith, eq_iff, Bool-cases, Option-cases, subst,
}
use fastapi_asyncpg_template.Base.Http.{ok}
use fastapi_asyncpg_template.ApiKeys.Coherence.{
  evicted, Coherent, Coherent-insert, Coherent-update, Coherent-remove,
}
use fastapi_asyncpg_template.ApiKeys.Dao.{
  unique_violation, row_by_id, row_by_hash, update_row, remove_row, insert_row, update_returning,
  rotate_returning, delete_row, updated_row, rotated_row,
}
use fastapi_asyncpg_template.ApiKeys.Rows.{
  row_by_id-forget, row_by_hash-forget, update_row-forget, remove_row-forget,
}
use fastapi_asyncpg_template.ApiKeys.Service.{
  not_found, create_api_key, get_api_key, evict_cache, update_api_key, rotate_api_key,
  delete_api_key,
}
use fastapi_asyncpg_template.ApiKeys.Simulation.{Simulates, Simulates-at, refused}
use fastapi_asyncpg_template.ApiKeys.Spec.{
  forget, Reply, create, update, rotate, delete, spec_create, spec_update, spec_rotate, spec_delete,
  spec_updated, spec_rotated, step,
}
use fastapi_asyncpg_template.ApiKeys.World.{Row, Keys, Services, ApiKeyCreate, ApiKeyUpdate}

module _ (x : Services) where
  module _ (now : ℕ) (w : Keys x.redis.Store) (c : Coherent x now w.redis (map forget w.rows)) where
    pub create_sim :
        (id : ℕ) (raw : String) (key_in : ApiKeyCreate) (created_by : Option ℕ)
        → Simulates x now
            (step x now (create id raw key_in created_by) w)
            (spec_create x now id raw key_in created_by (map forget w.rows))
    unfolding step spec_create create_api_key insert_row
    create_sim id raw key_in by = record {
      reply = ground (arith, row_by_id-forget id w.rows, row_by_hash-forget (x.sha256 raw) w.rows);
      state = record {
        table =
            ground (arith, row_by_id-forget id w.rows, row_by_hash-forget (x.sha256 raw) w.rows);
        cache = elim (Bool-cases (is_some (row_by_id id (map forget w.rows)))) [
          | inl e ↦ rw e c
          | inr e ↦ elim (Option-cases (row_by_hash (x.sha256 raw) (map forget w.rows))) [
            | inl d ↦ rw (e, d) (Coherent-insert x _ d c)
            | inr (r, d) ↦ rw (e, d) c
          ]
        ];
      };
    }

    -- A row that is found by its id, in the table.
    row_of :
        (i : ℕ) (r : Row)
        → row_by_id i w.rows ≡ some r
        → row_by_id i (map forget w.rows) ≡ some (forget r)
    row_of i r e = ground (arith, row_by_id-forget i w.rows)

    -- A statement that changes the row with its cached key evicted.
    updated :
        (i : ℕ) (r : Row) (f g : Row → Row) (a : Reply × Keys x.redis.Store) (q : Reply × List Row)
        → row_by_id i w.rows ≡ some r
        → ((q : Row) → g (forget q) ≡ forget (f q))
        → ((k : String)
            → str_eq r.hashed_key k ≡ false
            → (str_eq (g (forget r)).hashed_key k ≡ false)
              ⊎ (row_by_hash k (map forget w.rows) ≡ none))
        → a ≡ (
          ok (some (f r).info),
          record w { rows = update_row i f w.rows; redis = evicted x w.redis r.hashed_key },
        )
        → q ≡ (ok (some (g (forget r)).info), update_row i g (map forget w.rows))
        → Simulates x now a q
    updated i r f g a q e comm other d d' = Simulates-at x _ _ d d' (record {
      reply = λ i. ok (some (sym (comm r) i).info);
      state = record {
        table = sym (update_row-forget i f g w.rows comm);
        cache = Coherent-update x i (forget r) (row_of i r e) c g other;
      };
    })

    pub update_sim :
        (i : ℕ) (u : ApiKeyUpdate)
        → Simulates x now (step x now (update i u) w) (spec_update x now i u (map forget w.rows))
    unfolding step spec_update update_api_key get_api_key update_returning evict_cache
    update_sim i u = elim (Option-cases (row_by_id i w.rows)) [
      | inl e ↦
          refused x now w c _ _ not_found (ground arith) (ground (arith, row_by_id-forget i w.rows))
      | inr (r, e) ↦
          updated i r (updated_row now u) (spec_updated now u) _ _ e (λ q. refl) (λ k d. inl d)
            (ground arith) (rw (row_of i r e, spec_update) refl)
    ]

    -- Another hash than the new one, or none has it.
    fresh_hash :
        (h k : String)
        → row_by_hash h (map forget w.rows) ≡ none
        → (str_eq h k ≡ false) ⊎ (row_by_hash k (map forget w.rows) ≡ none)
    fresh_hash h k d = elim (Bool-cases (str_eq h k)) [
      | inr n ↦ inl n
      | inl y ↦ inr (subst (λ s. row_by_hash s (map forget w.rows) ≡ none) ((eq_iff h k).0 y) d)
    ]

    pub rotate_sim :
        (i : ℕ) (raw : String)
        → Simulates x now
            (step x now (rotate i raw) w)
            (spec_rotate x now i raw (map forget w.rows))
    unfolding step spec_rotate rotate_api_key get_api_key rotate_returning evict_cache
    rotate_sim i raw = elim (Option-cases (row_by_id i w.rows)) [
      | inl e ↦
          refused x now w c _ _ not_found (ground arith) (ground (arith, row_by_id-forget i w.rows))
      | inr (r, e) ↦ elim (Option-cases (row_by_hash (x.sha256 raw) w.rows)) [
        | inr (q, d) ↦
            refused x now w c _ _ unique_violation (ground arith)
              (ground (arith, row_by_id-forget i w.rows, row_by_hash-forget (x.sha256 raw) w.rows))
        | inl d ↦
            let d' : row_by_hash (x.sha256 raw) (map forget w.rows) ≡ none =
              ground (arith, row_by_hash-forget (x.sha256 raw) w.rows) in
            updated i r (rotated_row now (x.first_16 raw) (x.sha256 raw))
              (spec_rotated now (x.first_16 raw) (x.sha256 raw)) _ _ e (λ q. refl)
              (λ k _. fresh_hash (x.sha256 raw) k d') (ground arith)
              (rw (row_of i r e, d', spec_rotate) refl)
      ]
    ]

    pub delete_sim :
        (i : ℕ) → Simulates x now (step x now (delete i) w) (spec_delete x i (map forget w.rows))
    unfolding step spec_delete delete_api_key get_api_key delete_row evict_cache
    delete_sim i = elim (Option-cases (row_by_id i w.rows)) [
      | inl e ↦
          refused x now w c _ _ not_found (ground arith) (ground (arith, row_by_id-forget i w.rows))
      | inr (r, e) ↦
          Simulates-at x
            (
              ok none,
              record w { rows = remove_row i w.rows; redis = evicted x w.redis r.hashed_key },
            )
            (ok none, remove_row i (map forget w.rows)) (ground arith)
            (rw (row_of i r e, spec_delete) refl)
            (record {
              reply = refl;
              state = record {
                table = sym (remove_row-forget i w.rows);
                cache = Coherent-remove x i (forget r) (row_of i r e) c;
              };
            })
    ]
