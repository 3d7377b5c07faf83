-- ===== src/Redis.antt =====
-- api/core/redis.py and api/shared/redis_keys.py: the Redis server, which is a service that the
-- repository calls, as an interface with the documented behaviour of the commands that it sends.
-- A key is the pattern of the source applied to its fields, so distinct patterns are distinct keys.
use fastapi_asyncpg_template.Base.{
  ℕ, ◌+◌, ◌≤◌, ◌<◌, ◌≡◌, refl, ite, Bool, true, false, Option, none, some, ltb, if◌then◌else◌,
  arith,
}

-- The commands GET, SET … EX, SET, SET … NX EX and DEL over keys `K` and values `V`, each with the
-- time in seconds at which the server runs it. A key that was set at `t` for `ex` seconds is gone
-- from `t + ex` on.
pub record Redis (K V : Type 0) (dec : Discrete K) : Type 1 where
  pub Store : Type 0
  pub get : Store → (now : ℕ) → K → Option V
  pub set : Store → (now : ℕ) → K → V → (ex : ℕ) → Store
  pub set_forever : Store → K → V → Store
  pub set_nx : Store → (now : ℕ) → K → V → (ex : ℕ) → Bool × Store
  pub delete : Store → K → Store
  pub get-set :
      (s : Store) (t : ℕ) (k : K) (v : V) (ex now : ℕ) (j : K)
      → 0 < ex
      → t ≤ now
      → get (set s t k v ex) now j
        ≡ ite (dec k j) (if ltb now (t + ex) then some v else none) (get s now j)
  pub get-set_forever :
      (s : Store) (k : K) (v : V) (now : ℕ) (j : K)
      → get (set_forever s k v) now j ≡ ite (dec k j) (some v) (get s now j)
  pub get-delete :
      (s : Store) (k : K) (now : ℕ) (j : K)
      → get (delete s k) now j ≡ ite (dec k j) none (get s now j)
  pub set_nx_free :
      (s : Store) (t : ℕ) (k : K) (v : V) (ex : ℕ)
      → get s t k ≡ none
      → set_nx s t k v ex ≡ (true, set s t k v ex)
  pub set_nx_taken :
      (s : Store) (t : ℕ) (k : K) (v w : V) (ex : ℕ)
      → get s t k ≡ some w
      → set_nx s t k v ex ≡ (false, s)

-- The keys that are held, each with the time at which it goes, if it does.
abbrev pub Memory : Type 0 → Type 0 → Type 0
Memory K V = K → Option (V × Option ℕ)

module _ {K V : Type 0} (dec : Discrete K) where
  abbrev pub alive : ℕ → Option (V × Option ℕ) → Option V
  alive now none = none
  alive now (some (v, none)) = some v
  alive now (some (v, some gone)) = if ltb now gone then some v else none

  abbrev pub put : Memory K V → ℕ → K → V → ℕ → Memory K V
  put s t k v ex j = ite (dec k j) (some (v, some (t + ex))) (s j)

  abbrev pub put_nx : Memory K V → ℕ → K → V → ℕ → Bool × Memory K V
  put_nx s t k v ex = elim (alive t (s k)) [ none ↦ (true, put s t k v ex) | some w ↦ (false, s) ]

  pub get-put :
      (s : Memory K V) (t : ℕ) (k : K) (v : V) (ex now : ℕ) (j : K)
      → 0 < ex
      → t ≤ now
      → alive now (put s t k v ex j)
        ≡ ite (dec k j) (if ltb now (t + ex) then some v else none) (alive now (s j))
  get-put s t k v ex now j h p = ground arith

  pub get-put_forever :
      (s : Memory K V) (k : K) (v : V) (now : ℕ) (j : K)
      → alive now (ite (dec k j) (some (v, none)) (s j)) ≡ ite (dec k j) (some v) (alive now (s j))
  get-put_forever s k v now j = ground arith

  pub get-remove :
      (s : Memory K V) (k : K) (now : ℕ) (j : K)
      → alive now (ite (dec k j) none (s j)) ≡ ite (dec k j) none (alive now (s j))
  get-remove s k now j = ground arith

  pub put_nx_free :
      (s : Memory K V) (t : ℕ) (k : K) (v : V) (ex : ℕ)
      → alive t (s k) ≡ none
      → put_nx s t k v ex ≡ (true, put s t k v ex)
  put_nx_free s t k v ex h = rw (h, put_nx)

  pub put_nx_taken :
      (s : Memory K V) (t : ℕ) (k : K) (v w : V) (ex : ℕ)
      → alive t (s k) ≡ some w
      → put_nx s t k v ex ≡ (false, s)
  put_nx_taken s t k v w ex h = rw (h, put_nx)

  -- A server in memory, as a function from the keys: the interface can be met.
  abbrev pub in_memory : Redis K V dec
  in_memory = record {
    Store = Memory K V;
    get = λ s now k. alive now (s k);
    set = put;
    set_forever = λ s k v j. ite (dec k j) (some (v, none)) (s j);
    set_nx = put_nx;
    delete = λ s k j. ite (dec k j) none (s j);
    get-set = get-put;
    get-set_forever = get-put_forever;
    get-delete = get-remove;
    set_nx_free = put_nx_free;
    set_nx_taken = put_nx_taken;
  }

-- One hash of the server: HGET, HSET with EXPIRE of the whole hash, and DEL.
pub record RedisHash (F V : Type 0) (dec : Discrete F) : Type 1 where
  pub Store : Type 0
  pub hget : Store → (now : ℕ) → F → Option V
  pub hset : Store → (now : ℕ) → F → V → (ex : ℕ) → Store
  pub delete : Store → Store
  pub hget-hset :
      (s : Store) (t : ℕ) (f : F) (v : V) (ex now : ℕ) (g : F)
      → t ≤ now
      → hget (hset s t f v ex) now g
        ≡ (if ltb now (t + ex) then ite (dec f g) (some v) (hget s t g) else none)
  pub hget-delete : (s : Store) (now : ℕ) (f : F) → hget (delete s) now f ≡ none

abbrev pub HashMemory : Type 0 → Type 0 → Type 0
HashMemory F V = Option ((F → Option V) × ℕ)

module _ {F V : Type 0} (dec : Discrete F) where
  abbrev pub field_of : HashMemory F V → ℕ → F → Option V
  field_of none now f = none
  field_of (some (m, gone)) now f = if ltb now gone then m f else none

  -- A hash in memory.
  abbrev pub hash_in_memory : RedisHash F V dec
  hash_in_memory = record {
    Store = HashMemory F V;
    hget = field_of;
    hset = λ s t f v ex. some ((λ g. ite (dec f g) (some v) (field_of s t g)), t + ex);
    delete = λ s. none;
    hget-hset = λ s t f v ex now g p. refl;
    hget-delete = λ s now f. refl;
  }
