-- ===== src/Database/Available.antt =====
-- When a query gets a pool.
use fastapi_asyncpg_template.Base.{
  zero, suc, ℕ, Option, some, none, List, [], ◌∷◌, ◌++◌, ◌≡◌, true, false, arith, keep, get_elem?,
  length, ◌<◌, String, Bool, refl, ◌%◌, ◌||◌, is_some, find_sound, Option-cases, Bool-cases, inl,
  inr,
}
use fastapi_asyncpg_template.Base.Http.{ok, err, Result}
use fastapi_asyncpg_template.Database.Select.{
  or_list, known_pools, drawn_from, PoolMeta, Regions, DataBase, get_pool, select_read_pool,
  choose_region, pools_of, has_healthy, has_pools, candidates, keep_all, choice, client_match,
  by_priority, by_latency, last_resort, lowest, better, measured, named,
}

get_elem?-below :
    (ms : List PoolMeta) (i : ℕ) → i < length ms → (m : PoolMeta) × (get_elem? ms i ≡ some m)
get_elem?-below [] i h = absurd (omega arith)
get_elem?-below (m ∷ ms) zero h = (m, refl)
get_elem?-below (m ∷ ms) (suc i) h = get_elem?-below ms i (omega arith)

-- A draw from a list that is not empty succeeds.
pub choice-some :
    (m : PoolMeta) (ms : List PoolMeta) (draw : ℕ) → is_some (choice (m ∷ ms) draw) ≡ true
unfolding choice
choice-some m ms draw =
    let (n, e) = get_elem?-below (m ∷ ms) (draw % length (m ∷ ms)) (omega arith) in
    ground (arith, e)

pub healthy-has_pools :
    (r : String) (regions : Regions)
    → has_healthy (pools_of r regions) ≡ true
    → has_pools regions ≡ true
healthy-has_pools r [] h = absurd (ground arith)
healthy-has_pools r ((s, []) ∷ rest) h = ground (arith, healthy-has_pools r rest)
healthy-has_pools r ((s, m ∷ ms) ∷ rest) h = refl

keep_all-has_pools :
    (regions : Regions)
    → has_pools regions ≡ true
    → (m : PoolMeta) × (ms : List PoolMeta) × (keep_all (λ m. true) regions ≡ m ∷ ms)
keep_all-has_pools [] h = absurd (ground arith)
keep_all-has_pools ((s, []) ∷ rest) h = keep_all-has_pools rest h
keep_all-has_pools ((s, m ∷ ms) ∷ rest) h =
    (m, keep (λ m. true) ms ++ keep_all (λ m. true) rest, refl)

last_resort-has_pools : (regions : Regions) → is_some (last_resort regions) ≡ has_pools regions
unfolding last_resort
last_resort-has_pools [] = refl
last_resort-has_pools ((s, []) ∷ rest) = last_resort-has_pools rest
last_resort-has_pools ((s, m ∷ ms) ∷ rest) = refl

lowest-has_pools :
    (best : Option (String × ℕ × ℕ)) (regions : Regions)
    → has_pools regions ≡ false
    → lowest best regions ≡ best
unfolding lowest better measured
lowest-has_pools best [] h = refl
lowest-has_pools best ((s, []) ∷ rest) h = lowest-has_pools best rest h
lowest-has_pools best ((s, m ∷ ms) ∷ rest) h = absurd (ground arith)

by_priority-has_pools :
    (rs : List String) (regions : Regions) (r : String)
    → by_priority rs regions ≡ some r
    → has_pools regions ≡ true
unfolding by_priority
by_priority-has_pools rs regions r h = healthy-has_pools r regions (find_sound _ rs r h)

client_match-has_pools :
    (client : Option String) (regions : Regions) (r : String)
    → client_match client regions ≡ some r
    → has_pools regions ≡ true
unfolding client_match
client_match-has_pools none regions r h = absurd (ground arith)
client_match-has_pools (some s) regions r h = ground (arith, healthy-has_pools s regions)

by_latency-has_pools : (regions : Regions) → has_pools regions ≡ false → by_latency regions ≡ none
unfolding by_latency named
by_latency-has_pools regions h = rw (lowest-has_pools none regions h) refl

refuted :
    (o : Option String) (b : Bool) → ((r : String) → o ≡ some r → b ≡ true) → b ≡ false → o ≡ none
refuted none b f h = refl
refuted (some r) b f h = absurd (ground (arith, f r refl))

-- A region is chosen exactly if some region has a pool.
pub choose_region-has_pools :
    (db : DataBase) (client : Option String)
    → is_some (choose_region db client) ≡ has_pools db.read_pools_by_region
unfolding choose_region
choose_region-has_pools db client =
    let regions = db.read_pools_by_region in
    elim (Bool-cases (has_pools regions)) [
      | inl e ↦ ground (arith, e, last_resort-has_pools regions)
      | inr e ↦ ground (
        arith,
        e,
        last_resort-has_pools regions,
        by_latency-has_pools regions e,
        refuted _ _ (by_priority-has_pools db.region_priority regions) e,
        refuted _ _ (client_match-has_pools client regions) e,
      )
    ]

pub keep-nonempty :
    (ms : List PoolMeta) (m : PoolMeta) (rest : List PoolMeta)
    → keep (λ m. m.healthy) ms ≡ m ∷ rest
    → (n : PoolMeta) × (ns : List PoolMeta) × (ms ≡ n ∷ ns)
keep-nonempty [] m rest h = absurd (ground arith)
keep-nonempty (n ∷ ns) m rest h = (n, ns, refl)

-- There is a pool to draw from if some region has one.
pub drawn :
    (regions : Regions) (metas healthy : List PoolMeta) (draw : ℕ)
    → keep (λ m. m.healthy) metas ≡ healthy
    → has_pools regions ≡ true
    → is_some (choice (drawn_from regions metas healthy) draw) ≡ true
unfolding drawn_from
drawn regions metas (m ∷ ms) draw e h =
    let (n, ns, q) = keep-nonempty metas m ms e in rw q (choice-some n ns draw)
drawn regions metas [] draw e h = all_down (keep_all (λ m. m.healthy) regions)
  where
    all_down :
        (ms : List PoolMeta)
        → is_some (choice (or_list ms (keep_all (λ m. true) regions)) draw) ≡ true
    all_down (m ∷ ms) = choice-some m ms draw
    all_down [] = let (n, ns, q) = keep_all-has_pools regions h in rw q (choice-some n ns draw)

abbrev pub is_ok {ℓ} : {A : Type ℓ} → Result A → Bool
is_ok (ok a) = true
is_ok (err e) = false

-- A read gets a pool exactly if a replica is configured in some region or the write pool is there,
-- whatever is healthy and whichever pool is drawn; it changes nothing.
get_pool-is_ok :
    (db : DataBase) (client : Option String) (draw : ℕ)
    → (is_ok (get_pool false client draw db).0
        ≡ (has_pools db.read_pools_by_region || is_some db.write_pool))
      × ((get_pool false client draw db).1 ≡ db)
unfolding get_pool select_read_pool candidates
get_pool-is_ok db client draw =
    let regions = db.read_pools_by_region in
    elim (Option-cases (choose_region db client)) [
      | inl e ↦ ground (arith, e, choose_region-has_pools db client)
      | inr (r, e) ↦ ground (
        arith,
        e,
        choose_region-has_pools db client,
        drawn regions (known_pools (pools_of r regions)) _ draw refl,
      )
    ]
