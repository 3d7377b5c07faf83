-- ===== src/Idempotency/Exclusion.antt =====
-- No two requests with one key are processed at the same time, while none takes longer than the
-- lock lives.
use fastapi_asyncpg_template.Base.{
  sym, ◌≢◌, ◌∙◌, ℕ, Option, some, none, ◌≡◌, ◌≤◌, ◌<◌, ◌+◌, arith, refl, ℕ_discrete, Option-cases,
  inl, inr,
}
use fastapi_asyncpg_template.Base.Http.{Result}
use fastapi_asyncpg_template.Idempotency.Route.{
  cacheable, outcome_of, saved, get_cached_response, looked_up, store_if, Text, Response, RedisKey,
  RedisValue, RedisKey-discrete, in_progress, idempotency_lock, idempotency_response, Phase, Server,
  advance, advance_from, acquire_lock, release_lock, cache_response, arrived, missed, locked, ran,
  stored, finished, set_phase,
}
use fastapi_asyncpg_template.Redis.{Redis}

-- When a request that is being processed took the lock.
abbrev pub since : Phase → Option ℕ
since arrived = none
since missed = none
since (locked t) = some t
since (ran t r) = some t
since (stored t r) = some t
since (finished r) = none

module _ (redis : Redis RedisKey RedisValue RedisKey-discrete) {App : Type 0}
    (handler : ℕ → App → Result Response × App) (key : Text) where
  -- No request is processed for longer than the lock lives.
  abbrev pub IsTimely : ℕ → Server redis.Store App → Type 0
  IsTimely now s = (i t : ℕ) → since (s.phases i) ≡ some t → now < t + 60

  -- What the server can come to: from a state in which no request has begun, a request takes its
  -- next step at each time.
  pub data Reachable : Server redis.Store App → Type 0 where
    start : (s : Server redis.Store App) → ((i : ℕ) → s.phases i ≡ arrived) → Reachable s
    step :
        (i now : ℕ) (s : Server redis.Store App)
        → Reachable s
        → s.clock ≤ now
        → IsTimely now s
        → Reachable (advance redis handler key i now s)

  -- At most one request is processed, and the lock is there while it is.
  record Exclusive (phases : ℕ → Phase) (clock : ℕ) (r : redis.Store) : Type 0 where
    one : (i j t t' : ℕ) → since (phases i) ≡ some t → since (phases j) ≡ some t' → i ≡ j
    past : (i t : ℕ) → since (phases i) ≡ some t → t ≤ clock
    held :
        (i t later : ℕ)
        → since (phases i) ≡ some t
        → clock ≤ later
        → later < t + 60
        → redis.get r later (idempotency_lock key) ≡ some in_progress

  -- A step that keeps whether request `i` is processed, and since when, and the lock.
  keeps-Exclusive :
      (phases : ℕ → Phase) (clock : ℕ) (r : redis.Store) (i now : ℕ) (p : Phase) (r' : redis.Store)
      → since p ≡ since (phases i)
      → clock ≤ now
      → ((later : ℕ)
          → now ≤ later
          → redis.get r' later (idempotency_lock key) ≡ redis.get r later (idempotency_lock key))
      → Exclusive phases clock r
      → Exclusive (set_phase i p phases) now r'
  keeps-Exclusive phases clock r i now p r' e h k x = record {
    one = λ a b t t' f g. x.one a b t t' (same a ∙ f) (same b ∙ g);
    past = λ a t f. omega (arith, x.past a t (same a ∙ f));
    held = λ a t later f l m. k later l ∙ x.held a t later (same a ∙ f) (omega arith) m;
  }
    where
      same : (a : ℕ) → since (phases a) ≡ since (set_phase i p phases a)
      same a = ground (arith, e)

  -- The lock is taken: no other request is processed, for its lock would be there.
  locks-Exclusive :
      (phases : ℕ → Phase) (clock : ℕ) (r : redis.Store) (i now : ℕ)
      → ((j t : ℕ) → since (phases j) ≡ some t → now < t + 60)
      → clock ≤ now
      → redis.get r now (idempotency_lock key) ≡ none
      → Exclusive phases clock r
      → Exclusive
          (set_phase i (locked now) phases)
          now
          (redis.set r now (idempotency_lock key) in_progress 60)
  locks-Exclusive phases clock r i now timely h free x = record {
    one = λ a b t t' f g. only a t f ∙ sym (only b t' g);
    past = λ a t f. ground (arith, f, only a t f);
    held = λ a t later f l m. ground (
      arith,
      f,
      only a t f,
      redis.get-set r now (idempotency_lock key) in_progress 60 later (idempotency_lock key)
          (omega arith) l,
    );
  }
    where
      nobody : (j t : ℕ) → since (phases j) ≢ some t
      nobody j t e = ground (arith, free, x.held j t now e h (timely j t e))

      only : (a t : ℕ) → since (set_phase i (locked now) phases a) ≡ some t → a ≡ i
      only a t f = ground (arith, f, nobody a t)

  -- The lock is released by the one request that is processed.
  releases-Exclusive :
      (phases : ℕ → Phase) (clock : ℕ) (r : redis.Store) (i now t : ℕ) (result : Result Response)
      (r' : redis.Store)
      → since (phases i) ≡ some t
      → Exclusive phases clock r
      → Exclusive (set_phase i (finished result) phases) now r'
  releases-Exclusive phases clock r i now t result r' e x = record {
    one = λ a b u u' f g. absurd (nobody a u f);
    past = λ a u f. absurd (nobody a u f);
    held = λ a u later f l m. absurd (nobody a u f);
  }
    where
      nobody : (a u : ℕ) → since (set_phase i (finished result) phases a) ≢ some u
      nobody a u f = elim (ℕ_discrete i a) [
        | yes q ↦ ground (arith, f, q)
        | no q ↦ absurd (q (x.one i a t u e (ground (arith, f, q))))
      ]

  abbrev IsExclusive : Server redis.Store App → Type 0
  IsExclusive s = Exclusive s.phases s.clock s.redis

  -- Storing a response leaves the lock.
  get-store_if :
      (o : Option Response) (now later : ℕ) (r : redis.Store)
      → now ≤ later
      → redis.get (store_if redis handler key o now r) later (idempotency_lock key)
        ≡ redis.get r later (idempotency_lock key)
  unfolding cache_response
  get-store_if none now later r h = refl
  get-store_if (some response) now later r h = ground (
    arith,
    redis.get-set r now (idempotency_response key) (saved response) 86400 later
        (idempotency_lock key) (omega arith) h,
  )

  since-looked_up : (o : Option Response) → since (looked_up redis handler key o) ≡ none
  since-looked_up none = refl
  since-looked_up (some r) = refl

  advance_from-IsExclusive :
      (p : Phase) (i now : ℕ) (s : Server redis.Store App)
      → s.phases i ≡ p
      → s.clock ≤ now
      → IsTimely now s
      → IsExclusive s
      → IsExclusive (advance_from redis handler key p i now s)
  unfolding acquire_lock release_lock
  advance_from-IsExclusive arrived i now s e h timely x =
      keeps-Exclusive s.phases s.clock s.redis i now _ s.redis
        (ground (arith, e, since-looked_up (get_cached_response redis now key s.redis))) h
        (λ later l. refl) x
  advance_from-IsExclusive missed i now s e h timely x =
      elim (Option-cases (redis.get s.redis now (idempotency_lock key))) [
        | inl free ↦
            rw (redis.set_nx_free s.redis now (idempotency_lock key) in_progress 60 free)
              (locks-Exclusive s.phases s.clock s.redis i now timely h free x)
        | inr (v, taken) ↦
            rw (redis.set_nx_taken s.redis now (idempotency_lock key) in_progress v 60 taken) (
              keeps-Exclusive s.phases s.clock s.redis i now _ s.redis (ground (arith, e)) h
                (λ later l. refl) x)
      ]
  advance_from-IsExclusive (locked t) i now s e h timely x =
      keeps-Exclusive s.phases s.clock s.redis i now (ran t (handler i s.app).0) s.redis
        (ground (arith, e)) h (λ later l. refl) x
  advance_from-IsExclusive (ran t result) i now s e h timely x =
      keeps-Exclusive s.phases s.clock s.redis i now (stored t (outcome_of result)) _
        (ground (arith, e)) h (λ later l. get-store_if (cacheable result) now later s.redis l) x
  advance_from-IsExclusive (stored t result) i now s e h timely x =
      releases-Exclusive s.phases s.clock s.redis i now t result _ (ground (arith, e)) x
  advance_from-IsExclusive (finished result) i now s e h timely x =
      keeps-Exclusive s.phases s.clock s.redis i now (finished result) s.redis (ground (arith, e)) h
        (λ later l. refl) x

  Reachable-IsExclusive : (s : Server redis.Store App) → Reachable s → IsExclusive s
  unfolding advance
  Reachable-IsExclusive _ (start s h) = record {
    one = λ i j t t' a b. absurd (ground (arith, h i, a));
    past = λ i t a. absurd (ground (arith, h i, a));
    held = λ i t later a b c. absurd (ground (arith, h i, a));
  }
  Reachable-IsExclusive _ (step i now s r h timely) =
      advance_from-IsExclusive (s.phases i) i now s refl h timely (Reachable-IsExclusive s r)

  -- In every order of the steps of any number of requests with one key, at most one of them is being
  -- processed, as long as none is processed for 60 seconds.
  pub Reachable-one :
      (s : Server redis.Store App) (i j t t' : ℕ)
      → Reachable s
      → since (s.phases i) ≡ some t
      → since (s.phases j) ≡ some t'
      → i ≡ j
  Reachable-one s i j t t' r a b = (Reachable-IsExclusive s r).one i j t t' a b
