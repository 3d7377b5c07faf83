-- ===== src/Database/Health.antt =====
-- What the health checks and the creation of pools mean for the routing.
use fastapi_asyncpg_template.Base.{
  ◌∙◌, ℕ, Option, none, List, [], ◌∷◌, ◌≡◌, true, false, arith, any, all, String, Bool, refl, Any,
  here, there, map,
}
use fastapi_asyncpg_template.Base.Http.{ok}
use fastapi_asyncpg_template.Database.Lifecycle.{
  Attempt, done, failed, broken, check_pools, check_regions, health_check_loop, checked, exception,
  set_regions,
}
use fastapi_asyncpg_template.Database.Routing.{get_pool-Served, Served}
use fastapi_asyncpg_template.Database.Select.{PoolMeta, Regions, DataBase, get_pool, any_healthy}

abbrev pub answers : Attempt ℕ → Bool
answers (done l) = true
answers failed = false
answers (broken e) = false

abbrev pub caught : Attempt ℕ → Bool
caught (done l) = true
caught failed = true
caught (broken e) = false

-- No check of a round raises what the code does not catch.
abbrev pub all_caught : (ℕ → Attempt ℕ) → Regions → Bool
all_caught probe = all (λ rm. all (λ m. caught (probe m.pool)) rm.1)

abbrev pub checked_regions : (ℕ → Attempt ℕ) → Regions → Regions
checked_regions probe = map (λ rm. (rm.0, map (λ m. checked m (probe m.pool)) rm.1))

exception-caught : (a : Attempt ℕ) → caught a ≡ true → exception a ≡ none
exception-caught (done l) h = refl
exception-caught failed h = refl
exception-caught (broken e) h = absurd (ground arith)

check_pools-caught :
    (probe : ℕ → Attempt ℕ) (ms : List PoolMeta)
    → all (λ m. caught (probe m.pool)) ms ≡ true
    → check_pools probe ms ≡ (map (λ m. checked m (probe m.pool)) ms, none)
unfolding check_pools
check_pools-caught probe [] h = refl
check_pools-caught probe (m ∷ ms) h =
    ground (arith, check_pools-caught probe ms, exception-caught (probe m.pool))

check_regions-caught :
    (probe : ℕ → Attempt ℕ) (regions : Regions)
    → all_caught probe regions ≡ true
    → check_regions probe regions ≡ (checked_regions probe regions, none)
unfolding check_regions
check_regions-caught probe [] h = refl
check_regions-caught probe ((r, ms) ∷ rest) h =
    ground (arith, check_pools-caught probe ms, check_regions-caught probe rest)

checked-healthy :
    (m : PoolMeta) (a : Attempt ℕ) → caught a ≡ true → (checked m a).healthy ≡ answers a
checked-healthy m (done l) h = refl
checked-healthy m failed h = refl
checked-healthy m (broken e) h = absurd (ground arith)

checked-pool : (m : PoolMeta) (a : Attempt ℕ) → (checked m a).pool ≡ m.pool
checked-pool m (done l) = refl
checked-pool m failed = refl
checked-pool m (broken e) = refl

healthy-checked :
    (probe : ℕ → Attempt ℕ) (ms : List PoolMeta)
    → all (λ m. caught (probe m.pool)) ms ≡ true
    → any_healthy (map (λ m. checked m (probe m.pool)) ms) ≡ any (λ m. answers (probe m.pool)) ms
healthy-checked probe [] h = refl
healthy-checked probe (m ∷ ms) h =
    ground (arith, healthy-checked probe ms, checked-healthy m (probe m.pool))

any-checked :
    (probe : ℕ → Attempt ℕ) (regions : Regions)
    → all_caught probe regions ≡ true
    → any (λ rm. any_healthy rm.1) (checked_regions probe regions)
      ≡ any (λ rm. any (λ m. answers (probe m.pool)) rm.1) regions
any-checked probe [] h = refl
any-checked probe ((r, ms) ∷ rest) h =
    ground (arith, any-checked probe rest, healthy-checked probe ms)

-- Some replica of the list is `p`, in a region of which a replica answers.
abbrev pub Answering : (ℕ → Attempt ℕ) → ℕ → Regions → Type 0
Answering probe p =
    Any (λ rm. (any (λ m. answers (probe m.pool)) rm.1 ≡ true) × Any (λ m. m.pool ≡ p) rm.1)

pools-checked :
    (probe : ℕ → Attempt ℕ) (p : ℕ) (ms : List PoolMeta)
    → Any (λ m. m.pool ≡ p) (map (λ m. checked m (probe m.pool)) ms)
    → Any (λ m. m.pool ≡ p) ms
pools-checked probe p [] a = elim a [ ]
pools-checked probe p (m ∷ ms) (here e) = here (ground (arith, e, checked-pool m (probe m.pool)))
pools-checked probe p (m ∷ ms) (there a) = there (pools-checked probe p ms a)

Served-checked :
    (probe : ℕ → Attempt ℕ) (p : ℕ) (regions : Regions)
    → all_caught probe regions ≡ true
    → Served p (checked_regions probe regions)
    → Answering probe p regions
Served-checked probe p [] h a = elim a [ ]
Served-checked probe p ((r, ms) ∷ rest) h (here (e, a)) =
    here (ground (arith, h, e, healthy-checked probe ms), pools-checked probe p ms a)
Served-checked probe p ((r, ms) ∷ rest) h (there a) =
    there (Served-checked probe p rest (ground (arith, h)) a)

after_round :
    (probe : ℕ → Attempt ℕ) (db : DataBase)
    → all_caught probe db.read_pools_by_region ≡ true
    → health_check_loop (probe ∷ []) db ≡ set_regions (checked_regions probe) db
unfolding health_check_loop
after_round probe db h = ground (arith, check_regions-caught probe db.read_pools_by_region h)

-- After a round of checks of which none raises what the code does not catch, every read gets a
-- replica of a region in which a replica answered, if any did.
pub health_check_loop-Answering :
    (probe : ℕ → Attempt ℕ) (db : DataBase) (client : Option String) (draw : ℕ)
    → all_caught probe db.read_pools_by_region ≡ true
    → any (λ rm. any (λ m. answers (probe m.pool)) rm.1) db.read_pools_by_region ≡ true
    → let after = health_check_loop (probe ∷ []) db in
      (p : ℕ) × (r : String) × (get_pool false client draw after ≡ (ok (p, r), after))
      × Answering probe p db.read_pools_by_region
health_check_loop-Answering probe db client draw h a =
    let regions = db.read_pools_by_region in
    rw (after_round probe db h) (
      let (p, r, e, s) =
        get_pool-Served (set_regions (checked_regions probe) db) client draw
          (any-checked probe regions h ∙ a) in
      (p, r, e, Served-checked probe p regions h s))

-- A check that raises what the code does not catch ends the task: whatever the rounds to come would
-- find, no replica is checked again, and those after it in the round are not checked either.
health_check_loop-ends :
    (probe : ℕ → Attempt ℕ) (rounds : List (ℕ → Attempt ℕ)) (db : DataBase) (r e : String)
    (m : PoolMeta) (ms : List PoolMeta) (rest : Regions)
    → db.read_pools_by_region ≡ (r, m ∷ ms) ∷ rest
    → probe m.pool ≡ broken e
    → health_check_loop (probe ∷ rounds) db ≡ record db { health_task = false }
unfolding health_check_loop check_regions check_pools
health_check_loop-ends probe rounds db r e m ms rest h b = ground (arith, h, b)
