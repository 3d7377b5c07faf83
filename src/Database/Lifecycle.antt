-- ===== src/Database/Lifecycle.antt =====
-- api/core/database.py: how the pools are created, checked and closed. asyncpg and the servers are
-- functions: what a call on a URI or on a pool comes to.
use fastapi_asyncpg_template.Base.{
  ℕ, String, true, false, Option, some, none, List, [], ◌∷◌, ◌++◌, map, if◌then◌else◌, str_eq, ltb,
  nat_mem,
}
use fastapi_asyncpg_template.Base.Http.{◌>>◌, Handler, error, ok, err, modify, raise, pure}
use fastapi_asyncpg_template.Database.Select.{PoolMeta, DataBase, Regions, pools_of}

-- A call that returns, one that raises what the code catches (a PostgresError or an OSError), and
-- one that raises another exception.
pub data Attempt (A : Type 0) : Type 0 where
  done : A → Attempt A
  failed : Attempt A
  broken : String → Attempt A

-- `str | list[str | None]`
pub data Uris : Type 0 where
  one : String → Uris
  many : List (Option String) → Uris

abbrev pub uri_list : Uris → List (Option String)
uri_list (one uri) = some uri ∷ []
uri_list (many uris) = uris

-- d.setdefault(region, [])
unfoldable pub set_default : String → Regions → Regions
set_default r regions = elim (pools_of r regions) [
  | none ↦ regions ++ (r, []) ∷ []
  | some ms ↦ regions
]

-- d[region].append(meta)
unfoldable pub append_pool : String → PoolMeta → Regions → Regions
append_pool r m [] = []
append_pool r m ((s, ms) ∷ rest) =
    let after = append_pool r m rest in
    if str_eq r s then (s, ms ++ m ∷ []) ∷ rest else (s, ms) ∷ after

abbrev pub set_regions : (Regions → Regions) → DataBase → DataBase
set_regions f db = record db { read_pools_by_region = f db.read_pools_by_region }

unfoldable pub add_replica : String → String → Attempt ℕ → Handler DataBase (Unit {0})
add_replica r uri (done p) = modify (
    set_regions (
      append_pool r
        (record { uri = uri; pool = p; region = r; healthy = true; last_latency = none })))
add_replica r uri failed = pure tt
add_replica r uri (broken e) = raise (error e)

abbrev pub global_pool : String → ℕ → PoolMeta
global_pool uri p = record {
  uri = uri;
  pool = p;
  region = "global";
  healthy = true;
  last_latency = none;
}

-- The write pool serves the reads if no region is configured.
abbrev pub or_global : String → ℕ → Regions → Regions
or_global uri p [] = ("global", global_pool uri p ∷ []) ∷ []
or_global uri p (rm ∷ regions) = rm ∷ regions

-- settings.REGION_PRIORITY or list(regions.keys())
abbrev pub priority_or_keys : List String → Regions → List String
priority_or_keys [] regions = map (λ rm. rm.0) regions
priority_or_keys (r ∷ rs) regions = r ∷ rs

abbrev pub finish_creation :
    String → ℕ → (priority : List String) → (interval : ℕ) → DataBase → DataBase
finish_creation uri p priority interval db =
    let regions = or_global uri p db.read_pools_by_region in
    record db {
      read_pools_by_region = regions;
      region_priority = priority_or_keys priority regions;
      health_task = if ltb 0 interval then true else db.health_task;
    }

module _ (connect : String → Attempt ℕ) where
  unfoldable pub create_replicas : String → List (Option String) → Handler DataBase (Unit {0})
  create_replicas r [] = pure tt
  create_replicas r (none ∷ uris) = create_replicas r uris
  create_replicas r (some uri ∷ uris) = add_replica r uri (connect uri) >> create_replicas r uris

  unfoldable pub create_regions : List (String × Uris) → Handler DataBase (Unit {0})
  create_regions [] = pure tt
  create_regions ((r, uris) ∷ rest) =
      modify (set_regions (set_default r))
      >> create_replicas r (uri_list uris)
      >> create_regions rest

  abbrev pub create_reads :
      String
      → ℕ
      → List (String × Uris)
      → (priority : List String) → (interval : ℕ) → Handler DataBase (Unit {0})
  create_reads write_uri p read_uris priority interval =
      modify (λ db. record db { write_pool = some p; read_pools_by_region = [] })
      >> create_regions read_uris
      >> modify (finish_creation write_uri p priority interval)

  unfoldable pub create_pool :
      (write_uri : String)
      → (read_uris : List (String × Uris)) → (priority : List String) → (interval : ℕ)
      → Handler DataBase (Unit {0})
  create_pool write_uri read_uris priority interval = elim (connect write_uri) [
    | failed ↦ raise (error "connect")
    | broken e ↦ raise (error e)
    | done p ↦ create_reads write_uri p read_uris priority interval
  ]

-- One pool after its check.
abbrev pub checked : PoolMeta → Attempt ℕ → PoolMeta
checked m (done latency) = record m { healthy = true; last_latency = some latency }
checked m failed = record m { healthy = false }
checked m (broken e) = m

abbrev pub exception : Attempt ℕ → Option String
exception (broken e) = some e
exception failed = none
exception (done l) = none

module _ (probe : ℕ → Attempt ℕ) where
  -- The pools of a region after a round, and the exception that ended it.
  unfoldable pub check_pools : List PoolMeta → List PoolMeta × Option String
  check_pools [] = ([], none)
  check_pools (m ∷ ms) =
      let rest = check_pools ms in
      let a = probe m.pool in
      elim (exception a) [ none ↦ (checked m a ∷ rest.0, rest.1) | some e ↦ (m ∷ ms, some e) ]

  unfoldable pub check_regions : Regions → Regions × Option String
  check_regions [] = ([], none)
  check_regions ((r, ms) ∷ regions) =
      let rest = check_regions regions in
      let (ms', e) = check_pools ms in
      elim e [ none ↦ ((r, ms') ∷ rest.0, rest.1) | some x ↦ ((r, ms') ∷ regions, some x) ]

-- `_health_check_loop` over the rounds to come: an exception that the code does not catch ends the
-- task.
unfoldable pub health_check_loop : List (ℕ → Attempt ℕ) → DataBase → DataBase
health_check_loop [] db = db
health_check_loop (probe ∷ rounds) db =
    let (regions, e) = check_regions probe db.read_pools_by_region in
    let going = health_check_loop rounds (set_regions (λ _. regions) db) in
    elim e [
      | none ↦ going
      | some x ↦ record db { read_pools_by_region = regions; health_task = false }
    ]

-- Closing a pool that is not closed yet.
unfoldable pub close_one : (close : ℕ → Attempt (Unit {0})) → ℕ → Handler DataBase (Unit {0})
close_one close p db = if nat_mem p db.closed then (ok tt, db) else elim (close p) [
  | done _ ↦ (ok tt, record db { closed = p ∷ db.closed })
  | failed ↦ (ok tt, db)
  | broken e ↦ (err (error e), db)
]

unfoldable pub close_all : (close : ℕ → Attempt (Unit {0})) → List ℕ → Handler DataBase (Unit {0})
close_all close [] = pure tt
close_all close (p ∷ ps) = close_one close p >> close_all close ps

abbrev pub read_pools : Regions → List ℕ
read_pools [] = []
read_pools ((r, ms) ∷ rest) = map (λ m. m.pool) ms ++ read_pools rest

abbrev pub write_pools : Option ℕ → List ℕ
write_pools none = []
write_pools (some p) = p ∷ []

unfoldable pub close_pool : (close : ℕ → Attempt (Unit {0})) → Handler DataBase (Unit {0})
close_pool close db =
    (modify (λ db. record db { health_task = false })
        >> close_all close (read_pools db.read_pools_by_region)
        >> close_all close (write_pools db.write_pool)
        >> modify (λ db. record db { read_pools_by_region = []; write_pool = none }))
      db
