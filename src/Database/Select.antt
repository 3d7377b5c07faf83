-- ===== src/Database/Select.antt =====
-- api/core/database.py: the choice of a pool for a query. A pool is a number, its identity; a
-- latency is a number of microseconds. `read_pools_by_region` is in the order of insertion.
use fastapi_asyncpg_template.Base.{
  ℕ, ◌+◌, ◌*◌, ◌%◌, String, Bool, true, false, ◌&&◌, Option, none, some, List, [], ◌∷◌, ◌++◌, any,
  keep, find, length, get_elem?, ltb, ◌==◌, if◌then◌else◌, truthy, str_eq,
}
use fastapi_asyncpg_template.Base.Http.{Handler, error, ok, err}

pub record PoolMeta : Type 0 where
  pub uri : String
  pub pool : ℕ
  pub region : String
  pub healthy : Bool
  pub last_latency : Option ℕ

abbrev pub Regions : Type 0
Regions = List (String × List PoolMeta)

-- The class variables, and the pools that were closed.
pub record DataBase : Type 0 where
  pub write_pool : Option ℕ
  pub read_pools_by_region : Regions
  pub health_task : Bool
  pub region_priority : List String
  pub closed : List ℕ

-- d.get(region)
abbrev pub pools_of : String → Regions → Option (List PoolMeta)
pools_of r [] = none
pools_of r ((s, ms) ∷ rest) = if str_eq r s then some ms else pools_of r rest

abbrev pub any_healthy : List PoolMeta → Bool
any_healthy = any (λ m. m.healthy)

abbrev pub has_healthy : Option (List PoolMeta) → Bool
has_healthy none = false
has_healthy (some ms) = any_healthy ms

abbrev pub has_pools : Regions → Bool
has_pools [] = false
has_pools ((r, []) ∷ rest) = has_pools rest
has_pools ((r, m ∷ ms) ∷ rest) = true

abbrev pub or_else : Option String → Option String → Option String
or_else none b = b
or_else (some a) b = some a

unfoldable pub client_match : Option String → Regions → Option String
client_match none regions = none
client_match (some r) regions =
    if truthy r && has_healthy (pools_of r regions) then some r else none

unfoldable pub by_priority : List String → Regions → Option String
by_priority priority regions = find (λ r. has_healthy (pools_of r regions)) priority

-- The latencies of the healthy pools that were measured.
unfoldable pub measured : List PoolMeta → List ℕ
measured [] = []
measured (m ∷ ms) =
    let rest = measured ms in
    if m.healthy then elim m.last_latency [ none ↦ rest | some l ↦ l ∷ rest ] else rest

unfoldable pub sum : List ℕ → ℕ
sum [] = 0
sum (n ∷ ns) = n + sum ns

-- The best region so far with the total and the number of its latencies; an average is lower if
-- the crosswise products are.
unfoldable pub better : Option (String × ℕ × ℕ) → String → List ℕ → Option (String × ℕ × ℕ)
better best r [] = best
better none r (l ∷ ls) = some (r, sum (l ∷ ls), length (l ∷ ls))
better (some (b, total, n)) r (l ∷ ls) =
    if ltb (sum (l ∷ ls) * n) (total * length (l ∷ ls))
    then some (r, sum (l ∷ ls), length (l ∷ ls))
    else some (b, total, n)

unfoldable pub lowest : Option (String × ℕ × ℕ) → Regions → Option (String × ℕ × ℕ)
lowest best [] = best
lowest best ((r, ms) ∷ rest) = lowest (better best r (measured ms)) rest

unfoldable pub named : Option (String × ℕ × ℕ) → Option String
named none = none
named (some (r, total, n)) = if truthy r then some r else none

unfoldable pub by_latency : Regions → Option String
by_latency regions = named (lowest none regions)

unfoldable pub last_resort : Regions → Option String
last_resort [] = none
last_resort ((r, []) ∷ rest) = last_resort rest
last_resort ((r, m ∷ ms) ∷ rest) = some r

unfoldable pub choose_region : DataBase → Option String → Option String
choose_region db client =
    let regions = db.read_pools_by_region in
    or_else (client_match client regions) (
      or_else (by_priority db.region_priority regions)
        (or_else (by_latency regions) (last_resort regions)))

abbrev pub has_pool : ℕ → List PoolMeta → Bool
has_pool p = any (λ m. m.pool == p)

unfoldable pub get_region_for_pool : Regions → ℕ → Option String
get_region_for_pool [] p = none
get_region_for_pool ((r, ms) ∷ rest) p =
    if has_pool p ms then some r else get_region_for_pool rest p

abbrev pub default_region : Option String → String → String
default_region none s = s
default_region (some r) s = if truthy r then r else s

-- [m for ms in regions.values() for m in ms if test(m)]
abbrev pub keep_all : (PoolMeta → Bool) → Regions → List PoolMeta
keep_all p [] = []
keep_all p ((r, ms) ∷ rest) = keep p ms ++ keep_all p rest

abbrev pub known_pools : Option (List PoolMeta) → List PoolMeta
known_pools none = []
known_pools (some ms) = ms

-- The first list, or the second one if it is empty.
abbrev pub or_list : List PoolMeta → List PoolMeta → List PoolMeta
or_list [] ns = ns
or_list (m ∷ ms) ns = m ∷ ms

-- The pools to draw from, given those of the chosen region and the healthy ones of them.
unfoldable pub drawn_from : Regions → List PoolMeta → List PoolMeta → List PoolMeta
drawn_from regions metas (m ∷ ms) = metas
drawn_from regions metas [] =
    or_list (keep_all (λ m. m.healthy) regions) (keep_all (λ m. true) regions)

unfoldable pub candidates : Regions → String → List PoolMeta
candidates regions r =
    let metas = known_pools (pools_of r regions) in
    drawn_from regions metas (keep (λ m. m.healthy) metas)

-- secrets.choice, with the number that it draws.
unfoldable pub choice : List PoolMeta → ℕ → Option PoolMeta
choice [] draw = none
choice (m ∷ ms) draw = get_elem? (m ∷ ms) (draw % length (m ∷ ms))

unfoldable pub select_read_pool : Option String → (draw : ℕ) → Handler DataBase (ℕ × String)
select_read_pool client draw db = elim (choose_region db client) [
  | none ↦ elim db.write_pool [
    | none ↦ (err (error "RuntimeError: No DB pools available"), db)
    | some p ↦ (
      ok (p, default_region (get_region_for_pool db.read_pools_by_region p) "primary_fallback"),
      db,
    )
  ]
  | some r ↦ elim (choice (candidates db.read_pools_by_region r) draw) [
    | none ↦ (err (error "IndexError"), db)
    | some m ↦ (ok (m.pool, r), db)
  ]
]

unfoldable pub get_pool :
    (use_primary : Bool)
    → (client_region : Option String) → (draw : ℕ) → Handler DataBase (ℕ × String)
get_pool true client draw db = elim db.write_pool [
  | none ↦ (err (error "RuntimeError: Write pool not initialized"), db)
  | some p ↦ (ok (p, default_region (get_region_for_pool db.read_pools_by_region p) "primary"), db)
]
get_pool false client draw db = select_read_pool client draw db
