-- ===== src/Database/ClientRegion.antt =====
-- What is drawn in the client's own region.
use fastapi_asyncpg_template.Base.{
  truthy, zero, suc, ℕ, some, List, [], ◌∷◌, ◌≡◌, true, false, arith, keep, get_elem?, length, ◌<◌,
  String, refl, ◌%◌,
}
use fastapi_asyncpg_template.Base.Http.{ok}
use fastapi_asyncpg_template.Database.Routing.{keep-none}
use fastapi_asyncpg_template.Database.Select.{
  drawn_from, PoolMeta, Regions, DataBase, get_pool, select_read_pool, choose_region, pools_of,
  any_healthy, candidates, choice, client_match,
}

get_elem?-bound :
    (ms : List PoolMeta) (i : ℕ) (m : PoolMeta) → get_elem? ms i ≡ some m → i < length ms
get_elem?-bound [] i m h = absurd (cc)
get_elem?-bound (n ∷ ns) zero m h = omega arith
get_elem?-bound (n ∷ ns) (suc i) m h = omega (arith, get_elem?-bound ns i m h)

choice-get_elem? :
    (ms : List PoolMeta) (i : ℕ) (m : PoolMeta) → get_elem? ms i ≡ some m → choice ms i ≡ some m
unfolding choice
choice-get_elem? [] i m h = absurd (cc)
choice-get_elem? (n ∷ ns) i m h =
    let same : i % length (n ∷ ns) ≡ i = grind (arith, get_elem?-bound (n ∷ ns) i m h) in rw same h

drawn_healthy :
    (regions : Regions) (metas : List PoolMeta)
    → any_healthy metas ≡ true
    → drawn_from regions metas (keep (λ m. m.healthy) metas) ≡ metas
unfolding drawn_from
drawn_healthy regions metas h = nonempty (keep (λ m. m.healthy) metas) refl
  where
    nonempty :
        (healthy : List PoolMeta)
        → keep (λ m. m.healthy) metas ≡ healthy
        → drawn_from regions metas healthy ≡ metas
    nonempty [] e = absurd (keep-none metas h e)
    nonempty (m ∷ ms) e = refl

-- A client's region is used if it has a healthy replica; but the draw is from all replicas of the
-- region, so that one that is known to be down is drawn just as a healthy one.
get_pool-client_region :
    (db : DataBase) (r : String) (draw : ℕ) (metas : List PoolMeta) (m : PoolMeta)
    → truthy r ≡ true
    → pools_of r db.read_pools_by_region ≡ some metas
    → any_healthy metas ≡ true
    → get_elem? metas draw ≡ some m
    → get_pool false (some r) draw db ≡ (ok (m.pool, r), db)
unfolding get_pool select_read_pool choose_region client_match candidates
get_pool-client_region db r draw metas m t e h d =
    ground (
      arith,
      t,
      e,
      h,
      drawn_healthy db.read_pools_by_region metas h,
      choice-get_elem? metas draw m d,
    )
