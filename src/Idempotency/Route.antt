-- ===== src/Idempotency/Route.antt =====
-- api/core/idempotency.py: the manager's operations on Redis, and the route handler in the steps
-- between which other requests run. A text is the list of its code points.
use fastapi_asyncpg_template.Base.{
  ℕ, Bool, true, false, Option, some, none, List, [], ◌∷◌, ◌++◌, ◌&&◌, leb, ltb, if◌then◌else◌, ite,
  ℕ_discrete, ◌==◌,
}
use fastapi_asyncpg_template.Base.Http.{Raised, http, error, Result, ok, err}
use fastapi_asyncpg_template.Redis.{Redis}

abbrev pub Text : Type 0
Text = List ℕ

-- The body of a response: bytes that are a text in UTF-8, or that are none.
pub data Body : Type 0 where
  utf8 undecodable : Text → Body

-- The names of the headers are in lower case.
pub record Response : Type 0 where
  pub status_code : ℕ
  pub headers : List (Text × Text)
  pub content : Body
  pub media_type : Option Text

pub data RedisKey : Type 0 where
  idempotency_lock idempotency_response : Text → RedisKey

unfoldable pub RedisKey-discrete : Discrete RedisKey
RedisKey-discrete = hlevel ℕ_discrete

pub data RedisValue : Type 0 where
  in_progress : RedisValue
  saved : Response → RedisValue

abbrev pub idempotency_lock_ttl : ℕ
idempotency_lock_ttl = 60

abbrev pub idempotency_ttl : ℕ
idempotency_ttl = 86400

-- f"{request.method}:{request.url.path}:{raw_key}"
unfoldable pub full_key : (method path raw_key : Text) → Text
full_key method path raw = method ++ (b':' ∷ path) ++ (b':' ∷ raw)

-- The key of a request; without one, or with an empty one, the wrapped handler runs by itself.
unfoldable pub key_of : (method path : Text) → (raw_key : Option Text) → Option Text
unfolding full_key
key_of method path none = none
key_of method path (some []) = none
key_of method path (some (c ∷ cs)) = some (full_key method path (c ∷ cs))

abbrev pub text_eq : Text → Text → Bool
text_eq [] [] = true
text_eq [] (d ∷ ds) = false
text_eq (c ∷ cs) [] = false
text_eq (c ∷ cs) (d ∷ ds) = c == d && text_eq cs ds

abbrev pub without : Text → List (Text × Text) → List (Text × Text)
without name [] = []
without name ((n, v) ∷ hs) =
    let rest = without name hs in if text_eq n name then rest else (n, v) ∷ rest

-- `dict(response.headers)`: of each name the first value.
abbrev pub dict : List (Text × Text) → List (Text × Text)
dict [] = []
dict ((n, v) ∷ hs) = (n, v) ∷ without n (dict hs)

-- 200 <= response.status_code < 500
abbrev pub in_range : Response → Bool
in_range r = leb 200 r.status_code && ltb r.status_code 500

-- What is stored of a response whose body can be decoded.
abbrev pub stored_form : Response → Option Response
stored_form r = elim r.content [
  | utf8 c ↦ some (record r { headers = dict r.headers })
  | undecodable c ↦ none
]

-- What is stored after the wrapped handler, which may raise.
abbrev pub cacheable : Result Response → Option Response
cacheable (ok r) = if in_range r then stored_form r else none
cacheable (err e) = none

abbrev pub unless_undecodable : Response → Result Response
unless_undecodable r = elim r.content [
  | utf8 c ↦ ok r
  | undecodable c ↦ err (error "UnicodeDecodeError")
]

-- What the request ends with: storing a response may raise.
abbrev pub outcome_of : Result Response → Result Response
outcome_of (ok r) = if in_range r then unless_undecodable r else ok r
outcome_of (err e) = err e

abbrev pub in_progress_error : Raised
in_progress_error = http 409 "A request with this Idempotency-Key is currently being processed."

abbrev pub response_of : Option RedisValue → Option Response
response_of (some (saved r)) = some r
response_of _ = none

module _ (redis : Redis RedisKey RedisValue RedisKey-discrete) where
  unfoldable pub acquire_lock : (now : ℕ) → Text → redis.Store → Bool × redis.Store
  acquire_lock now key s =
      redis.set_nx s now (idempotency_lock key) in_progress idempotency_lock_ttl

  unfoldable pub release_lock : Text → redis.Store → redis.Store
  release_lock key s = redis.delete s (idempotency_lock key)

  unfoldable pub get_cached_response : (now : ℕ) → Text → redis.Store → Option Response
  get_cached_response now key s = response_of (redis.get s now (idempotency_response key))

  -- The SET of `cache_response`, for what is stored of a response.
  unfoldable pub cache_response : (now : ℕ) → Text → Response → redis.Store → redis.Store
  cache_response now key r s = redis.set s now (idempotency_response key) (saved r) idempotency_ttl

-- Where a request stands: the cache is not read yet, it was read in vain, the lock was taken at
-- `since`, the wrapped handler has run, its response is stored, the lock is released.
pub data Phase : Type 0 where
  arrived missed : Phase
  locked : (since : ℕ) → Phase
  ran stored : (since : ℕ) → Result Response → Phase
  finished : Result Response → Phase

-- The requests with one key, each with a number; `app` is what the wrapped handlers change, and
-- `runs` the requests whose wrapped handler has run, the last one first.
pub record Server (Store App : Type 0) : Type 0 where
  pub redis : Store
  pub app : App
  pub phases : ℕ → Phase
  pub runs : List ℕ
  pub clock : ℕ

abbrev pub set_phase : ℕ → Phase → (ℕ → Phase) → ℕ → Phase
set_phase i p phases j = ite (ℕ_discrete i j) p (phases j)

module _ (redis : Redis RedisKey RedisValue RedisKey-discrete) {App : Type 0}
    (handler : ℕ → App → Result Response × App) (key : Text) where
  abbrev pub moved :
      ℕ → Phase → (now : ℕ) → redis.Store → Server redis.Store App → Server redis.Store App
  moved i p now r s = record s { redis = r; phases = set_phase i p s.phases; clock = now }

  abbrev pub looked_up : Option Response → Phase
  looked_up none = missed
  looked_up (some r) = finished (ok r)

  abbrev pub tried : Bool → (now : ℕ) → Phase
  tried true now = locked now
  tried false now = finished (err in_progress_error)

  abbrev pub store_if : Option Response → (now : ℕ) → redis.Store → redis.Store
  store_if none now r = r
  store_if (some response) now r = cache_response redis now key response r

  -- `custom_route_handler` of request `i` up to its next call.
  abbrev pub advance_from : Phase → ℕ → (now : ℕ) → Server redis.Store App → Server redis.Store App
  advance_from arrived i now s =
      moved i (looked_up (get_cached_response redis now key s.redis)) now s.redis s
  advance_from missed i now s =
      let (acquired, r) = acquire_lock redis now key s.redis in moved i (tried acquired now) now r s
  advance_from (locked t) i now s =
      let (result, app) = handler i s.app in
      record (moved i (ran t result) now s.redis s) { app = app; runs = i ∷ s.runs }
  advance_from (ran t result) i now s =
      moved i (stored t (outcome_of result)) now (store_if (cacheable result) now s.redis) s
  advance_from (stored t result) i now s =
      moved i (finished result) now (release_lock redis key s.redis) s
  advance_from (finished result) i now s = moved i (finished result) now s.redis s

  unfoldable pub advance : ℕ → (now : ℕ) → Server redis.Store App → Server redis.Store App
  advance i now s = advance_from (s.phases i) i now s
