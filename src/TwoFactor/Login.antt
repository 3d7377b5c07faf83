-- ===== src/TwoFactor/Login.antt =====
-- Signing in with a password, and with a second factor.
use fastapi_asyncpg_template.Base.{
  refl, inr, zero, inl, suc, Bool-cases, ◌*◌, ◌<◌, arith, true, false, some, ◌≡◌, ℕ, String,
}
use fastapi_asyncpg_template.Base.Http.{gets, >>=-ok, pure, ◌>>=◌, ok}
use fastapi_asyncpg_template.Base.Int.{pos}
use fastapi_asyncpg_template.Auth.Service.{
  sign_in, redis_set, set_redis, challenge, two_factor_enabled, logged_in, Authenticated, Request,
  issue_tokens_and_session, authenticate_user, ask_second_factor, check_credentials,
}
use fastapi_asyncpg_template.Auth.Tokens.{verify_password}
use fastapi_asyncpg_template.Auth.Users.{get_two_factor, get_by_username}
use fastapi_asyncpg_template.Auth.World.{
  user, RedisKey, RedisValue, two_factor_challenge, User, World, Services,
}

-- The facts behind a name and a password that were accepted.
checked :
    (x : Services) (w w' : World x.redis.Store) (username password : String) (u : User)
    → check_credentials x username password w ≡ (ok u, w')
    → (get_by_username w username ≡ some u)
      × (verify_password x password u.hashed_password ≡ true)
      × (w' ≡ w)
unfolding check_credentials
checked x w w' username password u h = (ground (arith, h), ground (arith, h), ground (arith, h))

-- The world with the challenge of a user.
abbrev pub stored_challenge :
    (x : Services) → User → (now token : ℕ) → World x.redis.Store → World x.redis.Store
stored_challenge x u now token w =
    set_redis
      (x.redis.set w.redis now (two_factor_challenge token) (user u.id)
        (x.settings.two_factor_challenge_expire_minutes * 60))
      w

-- What a sign-in that returned means: tokens only for a user without a second factor, and a
-- challenge only for one with it.
abbrev pub Means :
    (x : Services)
    → World x.redis.Store
    → (now token : ℕ) → User
    → Authenticated x.Token
    → World x.redis.Store
    → Type 0
Means x w now token u (logged_in r) w' =
    (two_factor_enabled (get_two_factor w u.id) ≡ false) × (r.user ≡ u)
Means x w now token u (challenge t) w' =
    (two_factor_enabled (get_two_factor w u.id) ≡ true)
    × (t ≡ token)
    × (0 < x.settings.two_factor_challenge_expire_minutes)
    × (w' ≡ stored_challenge x u now token w)

-- A key that was stored had a time to live.
redis_set-ok :
    (x : Services) (now : ℕ) (k : RedisKey) (v : RedisValue) (ex : ℕ) (w w' : World x.redis.Store)
    → redis_set x now k v (pos ex) w ≡ (ok tt, w')
    → (0 < ex) × (w' ≡ set_redis (x.redis.set w.redis now k v ex) w)
redis_set-ok x now k v zero w w' h = absurd (cc)
redis_set-ok x now k v (suc ex) w w' h = (omega arith, ground (arith, h))

asked :
    (x : Services) (w w' : World x.redis.Store) (u : User) (now token : ℕ)
    (a : Authenticated x.Token)
    → ask_second_factor x u now token w ≡ (ok a, w')
    → (a ≡ challenge token)
      × (0 < x.settings.two_factor_challenge_expire_minutes)
      × (w' ≡ stored_challenge x u now token w)
unfolding ask_second_factor
asked x w w' u now token a h =
    let minutes = x.settings.two_factor_challenge_expire_minutes in
    let set = redis_set x now (two_factor_challenge token) (user u.id) (pos (minutes * 60)) in
    let (_, w₁, p, q) = >>=-ok set (λ _. pure (challenge token)) w w' a h in
    let (positive, stored) =
      redis_set-ok x now (two_factor_challenge token) (user u.id) (minutes * 60) w w₁ p in
    (ground (arith, q), omega arith, ground (arith, q, stored))

Means-off :
    (x : Services) (w w' : World x.redis.Store) (now : ℕ) (r : Request) (token jti jti' : ℕ)
    (u : User) (a : Authenticated x.Token)
    → two_factor_enabled (get_two_factor w u.id) ≡ false
    → (issue_tokens_and_session x u now r jti jti' >>= λ response. pure (logged_in response)) w
      ≡ (ok a, w')
    → Means x w now token u a w'
unfolding issue_tokens_and_session
Means-off x w w' now r token jti jti' u (logged_in response) off h = (off, ground (arith, h))
Means-off x w w' now r token jti jti' u (challenge t) off h = absurd (ground (arith, h))

means :
    (x : Services) (w w' : World x.redis.Store) (now : ℕ) (r : Request) (token jti jti' : ℕ)
    (u : User) (a : Authenticated x.Token)
    → sign_in x u (get_two_factor w u.id) now r token jti jti' w ≡ (ok a, w')
    → Means x w now token u a w'
unfolding sign_in issue_tokens_and_session
means x w w' now r token jti jti' u a h =
    elim (Bool-cases (two_factor_enabled (get_two_factor w u.id))) [
      | inl on ↦
          let (same, positive, stored) = asked x w w' u now token a (ground (arith, h, on)) in
          rw same (on, refl, positive, stored)
      | inr off ↦ Means-off x w w' now r token jti jti' u a off (ground (arith, h, off))
    ]

-- A sign-in with a password that returns has found the user by name and checked the password. It
-- issues tokens only if the user's second factor is off. If it is on, no session is created: only
-- the challenge is stored, for the user and for the configured time.
pub authenticate_user-Means :
    (x : Services) (w w' : World x.redis.Store) (username password : String) (now : ℕ) (r : Request)
    (token jti jti' : ℕ) (a : Authenticated x.Token)
    → authenticate_user x username password now r token jti jti' w ≡ (ok a, w')
    → (u : User) × (get_by_username w username ≡ some u)
      × (verify_password x password u.hashed_password ≡ true)
      × Means x w now token u a w'
unfolding authenticate_user
authenticate_user-Means x w w' username password now r token jti jti' a h =
    let (u, w₁, p, rest) =
      >>=-ok (check_credentials x username password)
        (λ u. do t ← gets (λ w. get_two_factor w u.id); sign_in x u t now r token jti jti') w w' a
        h in
    let (named, right, same) = checked x w w₁ username password u p in
    (u, named, right, means x w w' now r token jti jti' u a (rw same at rest))
