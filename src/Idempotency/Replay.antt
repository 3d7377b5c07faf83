-- ===== src/Idempotency/Replay.antt =====
-- What a request gets whose key was used before.
use mathlib.Core.List.{append_assoc}
use fastapi_asyncpg_template.Base.{
  leb, ◌||◌, ◌||◌, ltb, if◌then◌else◌, if◌then◌else◌, sym, ◌∙◌, ap, ℕ, Option, some, none, List,
  ◌∷◌, ◌++◌, ◌≡◌, ◌≢◌, ◌≤◌, ◌<◌, ◌+◌, arith,
}
use fastapi_asyncpg_template.Base.Http.{err, error, Result, ok}
use fastapi_asyncpg_template.Idempotency.Route.{
  key_of, saved, Text, Response, RedisKey, RedisValue, RedisKey-discrete, in_progress,
  idempotency_lock, idempotency_response, Phase, Server, advance, advance_from, acquire_lock,
  release_lock, cache_response, arrived, missed, finished, set_phase, moved, cacheable,
  get_cached_response, store_if, full_key, outcome_of, dict, utf8, undecodable,
}
use fastapi_asyncpg_template.Redis.{Redis}

module _ (redis : Redis RedisKey RedisValue RedisKey-discrete) {App : Type 0}
    (handler : ℕ → App → Result Response × App) (key : Text) where
  -- Request `i` by itself, from its arrival to its end.
  abbrev pub serve : ℕ → (now : ℕ) → Server redis.Store App → Server redis.Store App
  serve i now s = let next = advance redis handler key i now in next (next (next (next (next s))))

  -- Redis after a request that was processed by itself.
  abbrev pub after_redis : Option Response → (now : ℕ) → redis.Store → redis.Store
  after_redis o now r =
      release_lock redis key
        (store_if redis handler key o now (redis.set r now (idempotency_lock key) in_progress 60))

  phase_at : (i : ℕ) (p : Phase) (phases : ℕ → Phase) → set_phase i p phases i ≡ p
  phase_at i p phases = ground arith

  advance_at :
      (p : Phase) (i now : ℕ) (s : Server redis.Store App)
      → s.phases i ≡ p
      → advance redis handler key i now s ≡ advance_from redis handler key p i now s
  unfolding advance
  advance_at p i now s e = ap (λ (q : Phase). advance_from redis handler key q i now s) e

  -- From the lock to the end.
  served :
      (i now : ℕ) (s : Server redis.Store App)
      → s.phases i ≡ missed
      → redis.get s.redis now (idempotency_lock key) ≡ none
      → let next = advance redis handler key i now in
        let after = next (next (next (next s))) in
        let (result, app) = handler i s.app in
        (after.phases i ≡ finished (outcome_of result))
        × ((j : ℕ) → i ≢ j → after.phases j ≡ s.phases j)
        × (after.runs ≡ i ∷ s.runs)
        × (after.app ≡ app)
        × (after.redis ≡ after_redis (cacheable result) now s.redis)
  unfolding advance acquire_lock
  served i now s e free =
      ground
        (arith, e, free, redis.set_nx_free s.redis now (idempotency_lock key) in_progress 60 free)

  get-after_redis :
      (o : Option Response) (now later : ℕ) (r : redis.Store)
      → now ≤ later
      → later < now + 86400
      → redis.get r later (idempotency_response key) ≡ none
      → (get_cached_response redis later key (after_redis o now r) ≡ o)
        × (redis.get (after_redis o now r) later (idempotency_lock key) ≡ none)
  unfolding get_cached_response release_lock cache_response
  get-after_redis none now later r h l free = ground (
    arith,
    free,
    redis.get-delete (redis.set r now (idempotency_lock key) in_progress 60) (idempotency_lock key)
        later (idempotency_response key),
    redis.get-delete (redis.set r now (idempotency_lock key) in_progress 60) (idempotency_lock key)
        later (idempotency_lock key),
    redis.get-set r now (idempotency_lock key) in_progress 60 later (idempotency_response key)
        (omega arith) h,
  )
  get-after_redis (some response) now later r h l free =
      let s = redis.set r now (idempotency_lock key) in_progress 60 in
      let s' = redis.set s now (idempotency_response key) (saved response) 86400 in
      ground (
        arith,
        redis.get-delete s' (idempotency_lock key) later (idempotency_response key),
        redis.get-delete s' (idempotency_lock key) later (idempotency_lock key),
        redis.get-set s now (idempotency_response key) (saved response) 86400 later
            (idempotency_response key) (omega arith) h,
      )

  abbrev pub missing : ℕ → (now : ℕ) → Server redis.Store App → Server redis.Store App
  missing i now s = moved redis handler key i missed now s.redis s

  -- The first step of a request whose key has no response.
  look_up :
      (i now : ℕ) (s : Server redis.Store App)
      → s.phases i ≡ arrived
      → get_cached_response redis now key s.redis ≡ none
      → advance redis handler key i now s ≡ missing i now s
  unfolding advance
  look_up i now s e unused = ground (arith, e, unused)

  -- A request whose key is free, by itself.
  serve_lem :
      (i now : ℕ) (s : Server redis.Store App)
      → s.phases i ≡ arrived
      → get_cached_response redis now key s.redis ≡ none
      → redis.get s.redis now (idempotency_lock key) ≡ none
      → let (result, app) = handler i s.app in
        let after = serve i now s in
        (after.phases i ≡ finished (outcome_of result))
        × ((j : ℕ) → i ≢ j → after.phases j ≡ s.phases j)
        × (after.runs ≡ i ∷ s.runs)
        × (after.app ≡ app)
        × (after.redis ≡ after_redis (cacheable result) now s.redis)
  serve_lem i now s e unused free = rw (look_up i now s e unused) (
      let (a, b, c, d, r) = served i now (missing i now s) (phase_at i missed s.phases) free in
      (a, λ j n. b j n ∙ ground (arith, n), c, d, r))

  uncached :
      (now : ℕ) (r : redis.Store)
      → redis.get r now (idempotency_response key) ≡ none
      → get_cached_response redis now key r ≡ none
  unfolding get_cached_response
  uncached now r h = ground (arith, h)

  -- The response that later requests get: one with a status from 200 to 499 whose body is a text, with
  -- one header of each name.
  abbrev pub kept : Result Response → Option Response
  kept (ok r) = if ltb r.status_code 200 || leb 500 r.status_code then none else (elim r.content [
    | undecodable c ↦ none
    | utf8 c ↦ some (record {
      status_code = r.status_code;
      headers = dict r.headers;
      content = utf8 c;
      media_type = r.media_type;
    })
  ])
  kept (err e) = none

  -- What a request whose handler has run ends with: a body with a status from 200 to 499 that is no
  -- text is an error.
  abbrev pub answered : Result Response → Result Response
  answered (ok r) = elim r.content [
    | utf8 c ↦ ok r
    | undecodable c ↦
        if ltb r.status_code 200 || leb 500 r.status_code
        then ok r
        else err (error "UnicodeDecodeError")
  ]
  answered (err e) = err e

  -- Two requests with one key whose first steps interleave: the second looks into the cache before
  -- the first one stores its response, and takes the lock after the first one released it. Both
  -- handlers run, one after the other.
  both_run :
      (i j now : ℕ) (s : Server redis.Store App)
      → i ≢ j
      → s.phases i ≡ arrived
      → s.phases j ≡ arrived
      → redis.get s.redis now (idempotency_response key) ≡ none
      → redis.get s.redis now (idempotency_lock key) ≡ none
      → let next = advance redis handler key j now in
        let after = next (next (next (next (serve i now (next s))))) in
        (after.runs ≡ j ∷ i ∷ s.runs)
        × (after.app ≡ (handler j (handler i s.app).1).1)
        × (after.phases i ≡ finished (outcome_of (handler i s.app).0))
        × (after.phases j ≡ finished (outcome_of (handler j (handler i s.app).1).0))
  both_run i j now s n e f unused free =
      let u = uncached now s.redis unused in
      let s' = missing j now s in
      let (a, b, c, d, r) = serve_lem i now s' (ground (arith, e, n)) u free in
      let (p, q) =
        get-after_redis (cacheable (handler i s.app).0) now now s.redis (omega arith) (omega arith)
          unused in
      let (a', b', c', d', r') =
        served j now (serve i now s') (ground (arith, b j n)) (ground (arith, r, q)) in
      rw (look_up j now s f u) (
        c' ∙ ap (λ (l : List ℕ). j ∷ l) c,
        d' ∙ ap (λ (y : App). (handler j y).1) d,
        b' i (λ m. n (sym m)) ∙ a,
        a' ∙ ap (λ (y : App). finished (outcome_of (handler j y).0)) d,
      )

full_key-collides :
    (method path part raw : Text)
    → full_key method path (part ++ (b':' ∷ raw)) ≡ full_key method (path ++ (b':' ∷ part)) raw
unfolding full_key
full_key-collides method path part raw =
    sym (append_assoc (method ++ (b':' ∷ path)) (b':' ∷ part) (b':' ∷ raw))
    ∙ ap (λ (m : Text). m ++ (b':' ∷ raw)) (append_assoc method (b':' ∷ path) (b':' ∷ part))

-- Two requests on different paths have one key, if a part of the first one's key, up to a colon,
-- is the rest of the other one's path.
key_of-collides :
    (method path part raw : Text) (c d : ℕ)
    → key_of method path (some (c ∷ part ++ (b':' ∷ (d ∷ raw))))
      ≡ key_of method (path ++ (b':' ∷ (c ∷ part))) (some (d ∷ raw))
unfolding key_of
key_of-collides method path part raw c d =
    ap (λ (k : Text). some k) (full_key-collides method path (c ∷ part) (d ∷ raw))
