-- ===== src/ApiKeys/Lookups.antt =====
-- The verification of an API key: what is cached stands for the row of the table.
use fastapi_asyncpg_template.Base.{
  ℕ, String, true, Option, some, none, List, ◌≡◌, inl, inr, refl, sym, ap, ◌∙◌, truthy, map, arith,
  Bool-cases, Option-cases, subst,
}
use fastapi_asyncpg_template.Base.Http.{Result, ok, err}
use fastapi_asyncpg_template.ApiKeys.Coherence.{Coherent, Coherent-save, Coherent-lock}
use fastapi_asyncpg_template.ApiKeys.Dao.{row_by_hash, info_of, get_api_key_by_hash}
use fastapi_asyncpg_template.ApiKeys.Rows.{row_by_hash-forget, update_row-used}
use fastapi_asyncpg_template.ApiKeys.Service.{
  check_key, grant_key, missing, record_use, verify_api_key, authorize, expired, check_scopes,
}
use fastapi_asyncpg_template.ApiKeys.Simulation.{Stands, Simulates, refused}
use fastapi_asyncpg_template.ApiKeys.Spec.{
  reply_of, forget, forget_info, forget_key, access, spec_verify, spec_access, step, usable, grant,
}
use fastapi_asyncpg_template.ApiKeys.World.{
  api_key_cache, last_used_lock, one, model, json, ApiKey, Keys, Services,
}
use fastapi_asyncpg_template.Cache.{cached, get_from_cache, save_to_cache}

module _ (x : Services) where
  module _ (now : ℕ) (w : Keys x.redis.Store) (c : Coherent x now w.redis (map forget w.rows)) where
    -- What a look-up by hash finds is the table's, and it leaves the table.
    abbrev Found : String → Option ApiKey × Keys x.redis.Store → Type 0
    Found h p =
        (forget_key p.0 ≡ info_of (row_by_hash h (map forget w.rows)))
        × (p.1.rows ≡ w.rows)
        × Coherent x now p.1.redis (map forget w.rows)

    cached_find :
        (h : String) (a : ApiKey)
        → get_from_cache x.redis json now (api_key_cache h) w.redis ≡ some a
        → x.redis.get w.redis now (api_key_cache h) ≡ some (model a)
    unfolding get_from_cache
    cached_find h a e = ground arith

    pub find_sim : (h : String) → truthy h ≡ true → Found h (get_api_key_by_hash x now h w)
    unfolding get_api_key_by_hash cached save_to_cache
    find_sim h th =
        elim (Option-cases (get_from_cache x.redis json now (api_key_cache h) w.redis)) [
          | inr (a, e) ↦
              let at_hit : get_api_key_by_hash x now h w ≡ (some a, w) = ground arith in
              subst (Found h) (sym at_hit)
                (sym (c.agrees h now a th (omega arith) (cached_find h a e)), refl, c)
          | inl e ↦ elim (Option-cases (row_by_hash h w.rows)) [
            | inl d ↦
                let at_none : get_api_key_by_hash x now h w ≡ (none, w) = ground arith in
                subst (Found h) (sym at_none) (ground (arith, row_by_hash-forget h w.rows), refl, c)
            | inr (r, d) ↦
                let shown : info_of (row_by_hash h (map forget w.rows))
                    ≡ some (forget_info r.info) =
                  ground (arith, row_by_hash-forget h w.rows) in
                let at_row : get_api_key_by_hash x now h w ≡ (
                  some r.info,
                  record w {
                    redis = x.redis.set w.redis now (api_key_cache h) (model r.info) 2592000;
                  },
                ) =
                  ground arith in
                subst (Found h) (sym at_row)
                  (sym shown, refl, Coherent-save x h r.info 2592000 (omega arith) c shown)
          ]
        ]

    -- A state in which nothing but the use of a key was recorded.
    Stands-used :
        (i : ℕ) (ip : Option String) (w' : Keys x.redis.Store)
        → w'.rows ≡ w.rows
        → Coherent x now w'.redis (map forget w.rows)
        → Stands x now (record_use x now i ip w') (map forget w.rows)
    unfolding record_use
    Stands-used i ip w' d c' = record {
      table = elim (Bool-cases (x.redis.set_nx w'.redis now (last_used_lock i) one 300).0) [
        | inl e ↦ rw e (update_row-used i now ip w'.rows ∙ ap (map forget) d)
        | inr e ↦ rw e (ap (map forget) d)
      ];
      cache = Coherent-lock x i c';
    }

    pub check_sim :
        (ip : Option String) (found : Option ApiKey) (w' : Keys x.redis.Store)
        → w'.rows ≡ w.rows
        → Coherent x now w'.redis (map forget w.rows)
        → (forget_key (check_key x now ip found w').0 ≡ usable now (forget_key found))
          × Stands x now (check_key x now ip found w').1 (map forget w.rows)
    unfolding check_key
    check_sim ip none w' d c' = (refl, record { table = ap (map forget) d; cache = c' })
    check_sim ip (some k) w' d c' = elim (Bool-cases k.is_active) [
      | inr e ↦ rw e (refl, record { table = ap (map forget) d; cache = c' })
      | inl e ↦ elim (Bool-cases (expired now k)) [
        | inl e' ↦ rw (e, e') (refl, record { table = ap (map forget) d; cache = c' })
        | inr e' ↦ rw (e, e') (refl, Stands-used k.id ip w' d c')
      ]
    ]

    pub verify_sim :
        (raw : String) (ip : Option String)
        → (forget_key (verify_api_key x now raw ip w).0 ≡ spec_verify x now raw (map forget w.rows))
          × Stands x now (verify_api_key x now raw ip w).1 (map forget w.rows)
    unfolding verify_api_key spec_verify
    verify_sim raw ip = elim (Bool-cases (truthy raw)) [
      | inr e ↦ rw e (refl, record { table = refl; cache = c })
      | inl e ↦
          let p = get_api_key_by_hash x now (x.sha256 raw) w in
          let (f, d, c') = find_sim (x.sha256 raw) (x.sha256_truthy raw) in
          rw (e, sym f) (check_sim ip p.0 p.1 d c')
    ]

    pub grant_sim :
        (scopes : List String) (found : Option ApiKey) (w' : Keys x.redis.Store)
        → Stands x now w' (map forget w.rows)
        → Simulates x now
            (let (r, w'') = grant_key x scopes found w' in (reply_of r, w''))
            (grant scopes (forget_key found), map forget w.rows)
    unfolding grant_key
    grant_sim scopes none w' t = record { reply = refl; state = t }
    grant_sim scopes (some d) w' t = go (check_scopes scopes d.scopes) refl
      where
        go :
            (r : Result (Unit {0}))
            → check_scopes scopes d.scopes ≡ r
            → Simulates x now
                (let (r, w'') = grant_key x scopes (some d) w' in (reply_of r, w''))
                (grant scopes (forget_key (some d)), map forget w.rows)
        go (ok u) e =
            rw (e, grant, grant_key)
              (record { reply = refl; state = record { table = t.table; cache = t.cache } })
        go (err a) e = rw (e, grant, grant_key) (record { reply = refl; state = t })

    pub access_sim :
        (scopes : List String) (raw : Option String)
        → Simulates x now
            (step x now (access scopes raw) w)
            (spec_access x now scopes raw (map forget w.rows), map forget w.rows)
    unfolding step authorize spec_access
    access_sim scopes none = refused x now w c _ _ missing refl refl
    access_sim scopes (some raw) = elim (Bool-cases (truthy raw)) [
      | inr e ↦ refused x now w c _ _ missing (rw e refl) (rw e refl)
      | inl e ↦
          let (f, t) = verify_sim raw none in
          rw (e, sym f)
            (grant_sim scopes (verify_api_key x now raw none w).0
              (verify_api_key x now raw none w).1 t)
    ]
