-- ===== src/Database/Routing.antt =====
-- Which region serves a read.
use fastapi_asyncpg_template.Base.{
  if◌then◌else◌, ◌⊎◌, ◌≢◌, zero, suc, ℕ, Option, some, List, [], ◌∷◌, ◌++◌, ◌≡◌, true, false, arith,
  any, keep, get_elem?, length, String, Bool, refl, Any, here, there, ◌%◌, str_eq, Option-cases,
  Bool-cases, inl, inr,
}
use fastapi_asyncpg_template.Base.Http.{ok}
use fastapi_asyncpg_template.Database.Available.{drawn, choose_region-has_pools}
use fastapi_asyncpg_template.Database.Select.{
  or_list, known_pools, drawn_from, PoolMeta, Regions, DataBase, get_pool, select_read_pool,
  choose_region, pools_of, any_healthy, has_pools, candidates, keep_all, choice,
}

-- Some pool of the list is `p`, in a region that has a healthy pool.
abbrev pub Served : ℕ → Regions → Type 0
Served p = Any (λ rm. (any_healthy rm.1 ≡ true) × Any (λ m. m.pool ≡ p) rm.1)

get_elem?-Any :
    (ms : List PoolMeta) (i : ℕ) (m : PoolMeta)
    → get_elem? ms i ≡ some m
    → Any (λ n. n.pool ≡ m.pool) ms
get_elem?-Any [] i m h = absurd (cc)
get_elem?-Any (n ∷ ns) zero m h = here (ground (arith, h))
get_elem?-Any (n ∷ ns) (suc i) m h = there (get_elem?-Any ns i m h)

choice-Any :
    (ms : List PoolMeta) (draw : ℕ) (m : PoolMeta)
    → choice ms draw ≡ some m
    → Any (λ n. n.pool ≡ m.pool) ms
unfolding choice
choice-Any [] draw m h = absurd (cc)
choice-Any (n ∷ ns) draw m h = get_elem?-Any (n ∷ ns) (draw % length (n ∷ ns)) m h

pools_of-Served :
    (p : ℕ) (r : String) (regions : Regions) (ms : List PoolMeta)
    → pools_of r regions ≡ some ms
    → any_healthy ms ≡ true
    → Any (λ m. m.pool ≡ p) ms
    → Served p regions
pools_of-Served p r [] ms e h a = absurd (cc)
pools_of-Served p r ((s, ns) ∷ rest) ms e h a = elim (Bool-cases (str_eq r s)) [
  | inl q ↦ let same : ns ≡ ms = ground (arith, e, q) in here (rw same (h, a))
  | inr q ↦ there (pools_of-Served p r rest ms (ground (arith, e, q)) h a)
]

-- A healthy pool that is kept is in its own region, or it is among those after.
keep-Any :
    (p : ℕ) (ms ns : List PoolMeta)
    → Any (λ m. m.pool ≡ p) (keep (λ m. m.healthy) ms ++ ns)
    → ((any_healthy ms ≡ true) × Any (λ m. m.pool ≡ p) ms) ⊎ Any (λ m. m.pool ≡ p) ns
keep-Any p [] ns a = inr a
keep-Any p (m ∷ ms) ns a = split m.healthy refl a (keep-Any p ms ns)
  where
    Kept : List PoolMeta → Type 0
    Kept ls = ((any_healthy ls ≡ true) × Any (λ m. m.pool ≡ p) ls) ⊎ Any (λ m. m.pool ≡ p) ns

    step : Kept ms → Kept (m ∷ ms)
    step (inl (h, b)) = inl (ground (arith, h), there b)
    step (inr b) = inr b

    up :
        m.healthy ≡ true
        → Any (λ m. m.pool ≡ p) (m ∷ (keep (λ m. m.healthy) ms ++ ns))
        → (Any (λ m. m.pool ≡ p) (keep (λ m. m.healthy) ms ++ ns) → Kept ms)
        → Kept (m ∷ ms)
    up e (here q) f = inl (ground (arith, e), here q)
    up e (there b) f = step (f b)

    split :
        (b : Bool)
        → m.healthy ≡ b
        → Any
            (λ m. m.pool ≡ p)
            ((if b then m ∷ keep (λ m. m.healthy) ms else keep (λ m. m.healthy) ms) ++ ns)
        → (Any (λ m. m.pool ≡ p) (keep (λ m. m.healthy) ms ++ ns) → Kept ms)
        → Kept (m ∷ ms)
    split true e b f = up e b f
    split false e b f = step (f b)

keep_all-Served :
    (p : ℕ) (regions : Regions)
    → Any (λ m. m.pool ≡ p) (keep_all (λ m. m.healthy) regions)
    → Served p regions
keep_all-Served p [] a = elim a [ ]
keep_all-Served p ((r, ms) ∷ rest) a = elim (keep-Any p ms (keep_all (λ m. m.healthy) rest) a) [
  | inl b ↦ here b
  | inr b ↦ there (keep_all-Served p rest b)
]

keep-any :
    (ms : List PoolMeta) (m : PoolMeta) (rest : List PoolMeta)
    → keep (λ m. m.healthy) ms ≡ m ∷ rest
    → any_healthy ms ≡ true
keep-any [] m rest h = absurd (cc)
keep-any (n ∷ ns) m rest h = ground (arith, keep-any ns m rest)

pub keep-none : (ms : List PoolMeta) → any_healthy ms ≡ true → keep (λ m. m.healthy) ms ≢ []
keep-none [] h e = ground arith
keep-none (n ∷ ns) h e = ground (arith, keep-none ns)

append-nil : (xs ys : List PoolMeta) → xs ++ ys ≡ [] → (xs ≡ []) × (ys ≡ [])
append-nil [] ys h = (refl, h)
append-nil (x ∷ xs) ys h = absurd (cc)

pub keep_all-none :
    (regions : Regions)
    → any (λ rm. any_healthy rm.1) regions ≡ true
    → keep_all (λ m. m.healthy) regions ≢ []
keep_all-none [] h e = ground arith
keep_all-none ((r, ms) ∷ rest) h e =
    let (a, b) = append-nil (keep (λ m. m.healthy) ms) (keep_all (λ m. m.healthy) rest) e in
    elim (Bool-cases (any_healthy ms)) [
      | inl q ↦ keep-none ms q a
      | inr q ↦ keep_all-none rest (ground (arith, h, q)) b
    ]

-- The pool that is drawn, if some pool is healthy.
drawn-Served :
    (regions : Regions) (r : String) (metas healthy : List PoolMeta) (draw : ℕ) (m : PoolMeta)
    → known_pools (pools_of r regions) ≡ metas
    → keep (λ m. m.healthy) metas ≡ healthy
    → any (λ rm. any_healthy rm.1) regions ≡ true
    → choice (drawn_from regions metas healthy) draw ≡ some m
    → Served m.pool regions
unfolding drawn_from
drawn-Served regions r metas (n ∷ ns) draw m k e h c = elim (Option-cases (pools_of r regions)) [
  | inl q ↦ absurd (ground (arith, k, e, q))
  | inr (ms, q) ↦
      let same : ms ≡ metas = ground (arith, k, q) in
      pools_of-Served m.pool r regions metas (rw same at q) (keep-any metas n ns e)
        (choice-Any metas draw m c)
]
drawn-Served regions r metas [] draw m k e h c =
    all_healthy (keep_all (λ m. m.healthy) regions) refl c
  where
    all_healthy :
        (ms : List PoolMeta)
        → keep_all (λ m. m.healthy) regions ≡ ms
        → choice (or_list ms (keep_all (λ m. true) regions)) draw ≡ some m
        → Served m.pool regions
    all_healthy [] q d = absurd (keep_all-none regions h q)
    all_healthy (n ∷ ns) q d = keep_all-Served m.pool regions (rw q (choice-Any (n ∷ ns) draw m d))

pub any-has_pools :
    (regions : Regions) → any (λ rm. any_healthy rm.1) regions ≡ true → has_pools regions ≡ true
any-has_pools [] h = absurd (ground arith)
any-has_pools ((s, []) ∷ rest) h = any-has_pools rest h
any-has_pools ((s, m ∷ ms) ∷ rest) h = refl

-- While some replica is healthy, a read gets a replica of a region that has a healthy one: a region
-- whose replicas are all down, and the write pool, are not used.
pub get_pool-Served :
    (db : DataBase) (client : Option String) (draw : ℕ)
    → any (λ rm. any_healthy rm.1) db.read_pools_by_region ≡ true
    → (p : ℕ) × (r : String) × (get_pool false client draw db ≡ (ok (p, r), db))
      × Served p db.read_pools_by_region
unfolding get_pool select_read_pool candidates
get_pool-Served db client draw h =
    let regions = db.read_pools_by_region in
    elim (Option-cases (choose_region db client)) [
      | inl e ↦
          absurd (ground (arith, e, choose_region-has_pools db client, any-has_pools regions h))
      | inr (r, e) ↦ elim (Option-cases (choice (candidates regions r) draw)) [
        | inl f ↦ absurd (
            ground (
              arith,
              f,
              drawn regions (known_pools (pools_of r regions)) _ draw refl
                  (any-has_pools regions h),
            ))
        | inr (m, f) ↦
            (m.pool, r, ground (arith, e, f), drawn-Served regions r _ _ draw m refl refl h f)
      ]
    ]
