-- ===== src/Database/Creation.antt =====
-- What the pools that were created serve.
use fastapi_asyncpg_template.Base.{
  subst, there, sym, here, ◌∙◌, is_some, ℕ, Option, some, none, List, [], ◌∷◌, ◌++◌, ◌≡◌, true,
  false, arith, all, String, Bool, refl,
}
use fastapi_asyncpg_template.Base.Http.{Result, ok, err}
use fastapi_asyncpg_template.Database.Available.{choose_region-has_pools}
use fastapi_asyncpg_template.Database.Lifecycle.{
  global_pool, finish_creation, Attempt, Uris, done, failed, broken, create_pool, create_regions,
  create_replicas, add_replica, uri_list, set_default, set_regions,
}
use fastapi_asyncpg_template.Database.Routing.{get_pool-Served, Served}
use fastapi_asyncpg_template.Database.Select.{
  PoolMeta, Regions, DataBase, get_pool, select_read_pool, choose_region, has_pools,
}

abbrev pub is_failed : Attempt ℕ → Bool
is_failed (done p) = false
is_failed failed = true
is_failed (broken e) = false

abbrev pub refused : (String → Attempt ℕ) → Option String → Bool
refused connect none = true
refused connect (some uri) = is_failed (connect uri)

-- Every replica that is configured is down, or its URI is no text.
abbrev pub all_down : (String → Attempt ℕ) → List (String × Uris) → Bool
all_down connect = all (λ ru. all (refused connect) (uri_list ru.1))

is_failed_iff : (a : Attempt ℕ) → is_failed a ≡ true → a ≡ failed
is_failed_iff (done p) h = absurd (ground arith)
is_failed_iff failed h = refl
is_failed_iff (broken e) h = absurd (ground arith)

create_replicas-down :
    (connect : String → Attempt ℕ) (r : String) (uris : List (Option String)) (db : DataBase)
    → all (refused connect) uris ≡ true
    → create_replicas connect r uris db ≡ (ok tt, db)
unfolding create_replicas add_replica
create_replicas-down connect r [] db h = refl
create_replicas-down connect r (none ∷ uris) db h = create_replicas-down connect r uris db h
create_replicas-down connect r (some uri ∷ uris) db h =
    ground (arith, is_failed_iff (connect uri), create_replicas-down connect r uris db)

has_pools-append :
    (r : String) (regions : Regions) → has_pools (regions ++ (r, []) ∷ []) ≡ has_pools regions
has_pools-append r [] = refl
has_pools-append r ((s, []) ∷ rest) = has_pools-append r rest
has_pools-append r ((s, m ∷ ms) ∷ rest) = refl

has_pools-set_default :
    (r : String) (regions : Regions) → has_pools (set_default r regions) ≡ has_pools regions
unfolding set_default
has_pools-set_default r regions = ground (arith, has_pools-append r regions)

-- The regions after the creation, if every replica is down.
abbrev pub empty_regions : List (String × Uris) → Regions → Regions
empty_regions [] regions = regions
empty_regions ((r, uris) ∷ rest) regions = empty_regions rest (set_default r regions)

create_regions-down :
    (connect : String → Attempt ℕ) (uris : List (String × Uris)) (db : DataBase)
    → all_down connect uris ≡ true
    → create_regions connect uris db ≡ (ok tt, set_regions (empty_regions uris) db)
unfolding create_regions
create_regions-down connect [] db h = refl
create_regions-down connect ((r, u) ∷ rest) db h = ground (
  arith,
  create_replicas-down connect r (uri_list u) (set_regions (set_default r) db),
  create_regions-down connect rest (set_regions (set_default r) db),
)

has_pools-empty_regions :
    (uris : List (String × Uris)) (regions : Regions)
    → has_pools regions ≡ false
    → has_pools (empty_regions uris regions) ≡ false
has_pools-empty_regions [] regions h = h
has_pools-empty_regions ((r, u) ∷ rest) regions h =
    has_pools-empty_regions rest (set_default r regions)
      (ground (arith, has_pools-set_default r regions, h))

-- The pool of a query that gets one.
abbrev pub pool_of : Result (ℕ × String) → Option ℕ
pool_of (ok (p, r)) = some p
pool_of (err e) = none

primary_pool :
    (db : DataBase) (p : ℕ) (client : Option String) (draw : ℕ)
    → db.write_pool ≡ some p
    → pool_of (get_pool true client draw db).0 ≡ some p
unfolding get_pool
primary_pool db p client draw w = ground (arith, w)

none_chosen : (o : Option String) → is_some o ≡ false → o ≡ none
none_chosen none h = refl
none_chosen (some r) h = absurd (ground arith)

no_replica :
    (db : DataBase) (p : ℕ) (client : Option String) (draw : ℕ)
    → db.write_pool ≡ some p
    → has_pools db.read_pools_by_region ≡ false
    → pool_of (get_pool false client draw db).0 ≡ some p
unfolding get_pool select_read_pool
no_replica db p client draw w h =
    ground (arith, w, none_chosen (choose_region db client) (choose_region-has_pools db client ∙ h))

the_one : (p q : ℕ) (m : PoolMeta) (r : String) → m.pool ≡ p → Served q ((r, m ∷ []) ∷ []) → q ≡ p
the_one p q m r e (here (h, here f)) = sym f ∙ e
the_one p q m r e (here (h, there a)) = elim a [ ]
the_one p q m r e (there a) = elim a [ ]

one_replica :
    (db : DataBase) (p : ℕ) (m : PoolMeta) (s : String) (client : Option String) (draw : ℕ)
    → m.pool ≡ p
    → m.healthy ≡ true
    → db.read_pools_by_region ≡ (s, m ∷ []) ∷ []
    → pool_of (get_pool false client draw db).0 ≡ some p
one_replica db p m s client draw e h f =
    let (q, r, g, served) = get_pool-Served db client draw (ground (arith, f, h)) in
    let same : q ≡ p = the_one p q m s e (subst (Served q) f served) in ground (arith, g, same)

-- The world that the creation leaves, if no replica can be reached.
abbrev pub created : String → ℕ → List (String × Uris) → List String → ℕ → DataBase → DataBase
created write_uri p uris priority interval db = finish_creation write_uri p priority interval (
    set_regions (empty_regions uris) (record db { write_pool = some p; read_pools_by_region = [] }))

create_pool-down :
    (connect : String → Attempt ℕ) (write_uri : String) (uris : List (String × Uris))
    (priority : List String) (interval p : ℕ) (db : DataBase)
    → connect write_uri ≡ done p
    → all_down connect uris ≡ true
    → create_pool connect write_uri uris priority interval db
      ≡ (ok tt, created write_uri p uris priority interval db)
unfolding create_pool
create_pool-down connect write_uri uris priority interval p db c h = ground (
  arith,
  c,
  create_regions-down connect uris (record db { write_pool = some p; read_pools_by_region = [] }) h,
)

-- The pool of a read, by the regions that the creation left.
read_pool-created :
    (write_uri : String) (uris : List (String × Uris)) (priority : List String) (interval p : ℕ)
    (db : DataBase) (client : Option String) (draw : ℕ) (regions : Regions)
    → empty_regions uris [] ≡ regions
    → pool_of (get_pool false client draw (created write_uri p uris priority interval db)).0
      ≡ some p
read_pool-created write_uri uris priority interval p db client draw [] e =
    one_replica (created write_uri p uris priority interval db) p (global_pool write_uri p) "global"
      client draw refl refl (ground (arith, e))
read_pool-created write_uri uris priority interval p db client draw (rm ∷ rest) e =
    no_replica (created write_uri p uris priority interval db) p client draw refl
      (ground (arith, e, has_pools-empty_regions uris [] refl))

pool-created :
    (write_uri : String) (uris : List (String × Uris)) (priority : List String) (interval p : ℕ)
    (db : DataBase) (primary : Bool) (client : Option String) (draw : ℕ)
    → pool_of (get_pool primary client draw (created write_uri p uris priority interval db)).0
      ≡ some p
pool-created write_uri uris priority interval p db true client draw =
    primary_pool (created write_uri p uris priority interval db) p client draw refl
pool-created write_uri uris priority interval p db false client draw =
    read_pool-created write_uri uris priority interval p db client draw (empty_regions uris []) refl

-- With no replica that can be reached, whatever regions are configured, the creation succeeds and
-- every query gets the write pool.
create_pool-get_pool :
    (connect : String → Attempt ℕ) (write_uri : String) (uris : List (String × Uris))
    (priority : List String) (interval p : ℕ) (db : DataBase) (primary : Bool)
    (client : Option String) (draw : ℕ)
    → connect write_uri ≡ done p
    → all_down connect uris ≡ true
    → let (result, after) = create_pool connect write_uri uris priority interval db in
      (result ≡ ok tt) × (pool_of (get_pool primary client draw after).0 ≡ some p)
create_pool-get_pool connect write_uri uris priority interval p db primary client draw c h =
    rw (create_pool-down connect write_uri uris priority interval p db c h)
      (refl, pool-created write_uri uris priority interval p db primary client draw)
